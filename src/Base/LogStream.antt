-- ===== src/Base/LogStream.antt =====
-- The conversions of integers to text in src/base/LogStream.cc, and the operators of LogStream that
-- write an integer or an address into its buffer. A character is its ASCII code.
-- `convert` is a template: its values here are all integers whose magnitude is below 2 ^ 64.
pub mod Digits
pub mod Loops
pub mod Convert
pub mod Tests
use czy_net_frame.Common.{
  ℕ, zero, suc, ◌+◌, ◌-◌, ◌*◌, ◌/◌, ◌%◌, ◌^◌, ◌≤◌, ◌<◌, min, max, ◌≡◌, refl, sym, ap, ap₂, ◌∙◌,
  subst, ◌≢◌, ◌↔◌, ◌⊎◌, inl, inr, Bool, true, false, not, ◌&&◌, ◌||◌, Option, none, some, List, [],
  ◌∷◌, ◌++◌, map, append_assoc, append-nil, arith, ltb, leb, ◌==◌, if◌then◌else◌, ltb→lt, lt→ltb,
  le→ltb, ltb→le, leb→le, lt→leb, le→leb, Bool-cases, Option-cases, length, get_elem?, set, take,
  drop, replicate, reverse_onto, All, length-append, length-take, length-drop, length-replicate,
  take-append-drop, take-append, drop-append, take_all, drop_all, take-length_append,
  drop-length_append, drop-append_add, length-append₃, All-append, length-reverse_onto, ◌>>=◌, ◌>>◌,
  assert, >>=-eq-done, Exception, Outcome, done, assert_failed, aborted, undefined, thrown,
  length_error, bad_function_call, out_of_range, logic_error, update, update_self, update_ne,
  ==_refl, ne→==, magnitude, neg, is_negative, pos_part, neg_part, sub_ℕ, ◌+ℤ◌, ◌-ℤ◌, ◌*ℤ◌, quot,
  rem, ltb_ℤ, leb_ℤ, ◌≤ℤ◌, ◌<ℤ◌, +ℤ_parts, -ℤ_parts, *ℤ_parts, one_part, eq_of_parts, sub_ℕ-le,
  sub_ℕ-lt, +ℤ_assoc, +ℤ-sub, ℤ, pos, negsuc,
}
use czy_net_frame.Base.FixedBuffer.{FixedBuffer, avail}

-- `digits` and `digitsHex`.
abbrev pub digits : List ℕ
digits =
    57 ∷ 56 ∷ 55 ∷ 54 ∷ 53 ∷ 52 ∷ 51 ∷ 50 ∷ 49 ∷ 48 ∷ 49 ∷ 50 ∷ 51 ∷ 52 ∷ 53 ∷ 54 ∷ 55 ∷ 56 ∷ 57
    ∷ []

abbrev pub digits_hex : List ℕ
digits_hex = 48 ∷ 49 ∷ 50 ∷ 51 ∷ 52 ∷ 53 ∷ 54 ∷ 55 ∷ 56 ∷ 57 ∷ 65 ∷ 66 ∷ 67 ∷ 68 ∷ 69 ∷ 70 ∷ []

-- A read from a table; outside of it, it is undefined.
read_table : Option ℕ → Outcome ℕ
read_table none = undefined
read_table (some c) = done c

-- `zero[lsd]`, where `zero` points at index 9; below -9 there is nothing.
pub zero_at : ℤ → Outcome ℕ
unfolding read_table
zero_at (pos n) = read_table (get_elem? digits (9 + n))
zero_at (negsuc n) = if ltb 8 n then undefined else read_table (get_elem? digits (8 - n))

pub hex_at : ℕ → Outcome ℕ
unfolding read_table
hex_at n = read_table (get_elem? digits_hex n)

-- The loop of `convert`: the characters in the order of writing. The fuel bounds their number.
pub convert_loop : ℕ → ℤ → Outcome (List ℕ)
unfolding zero_at
convert_loop zero i = done []
convert_loop (suc fuel) i = do
  let rest = convert_loop fuel (quot i 10)
  c ← zero_at (rem i 10)
  if magnitude (quot i 10) == 0 then done (c ∷ []) else rest >>= λ cs. done (c ∷ cs)

-- A magnitude below 2 ^ 64 has at most 20 digits.
pub convert : ℤ → Outcome (List ℕ)
unfolding convert_loop
convert value = do
  cs ← convert_loop 20 value
  done (reverse_onto (cs ++ (if is_negative value then 45 ∷ [] else [])) [])

-- The loop of `convertHex`, for an address of 64 bits, which has at most 16 digits.
pub convert_hex_loop : ℕ → ℕ → Outcome (List ℕ)
unfolding hex_at
convert_hex_loop zero i = done []
convert_hex_loop (suc fuel) i = do
  let rest = convert_hex_loop fuel (i / 16)
  c ← hex_at (i % 16)
  if i / 16 == 0 then done (c ∷ []) else rest >>= λ cs. done (c ∷ cs)

pub convert_hex : ℕ → Outcome (List ℕ)
unfolding convert_hex_loop
convert_hex value = do cs ← convert_hex_loop 16 value; done (reverse_onto cs [])

-- kMaxNumericSize.
abbrev pub max_numeric_size : ℕ
max_numeric_size = 48

-- Characters written at `current()` with a 0 behind them, and `add` of their number. Behind the
-- array, writing is undefined.
store : FixedBuffer → List ℕ → Outcome FixedBuffer
store b cs =
    if leb (suc (length cs)) (avail b)
    then done (record b { written = b.written ++ cs })
    else undefined

-- `formatInteger`, which the operators of the integer types come to.
pub format_integer : FixedBuffer → ℤ → Outcome FixedBuffer
unfolding store
format_integer b v = if leb max_numeric_size (avail b) then convert v >>= store b else done b

-- The operator of addresses; `0x` stands in front.
pub put_address : FixedBuffer → ℕ → Outcome FixedBuffer
unfolding store
put_address b p =
    if leb max_numeric_size (avail b)
    then (convert_hex p >>= λ cs. store b (48 ∷ 120 ∷ cs))
    else done b
