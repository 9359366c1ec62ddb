-- ===== src/Base/TimeZone/Reading.antt =====
-- `readDataBlock`, `readTimeZoneFile` and `loadZoneFile` of src/base/TimeZone.cc.
-- The memory that `reserve` asks for is taken to be there. The product `6 * typecnt`, which the code
-- computes in an int, is exact here: it fits below 357913942 types.
pub mod Format
pub mod Tables
pub mod Layout
pub mod Indices
pub mod Tests
use czy_net_frame.Common.{
  ℕ, zero, suc, ◌+◌, ◌-◌, ◌*◌, ◌/◌, ◌%◌, ◌^◌, ◌≤◌, ◌<◌, min, max, ◌≡◌, refl, sym, ap, ap₂, ◌∙◌,
  subst, ◌≢◌, ◌↔◌, ◌⊎◌, inl, inr, Bool, true, false, not, ◌&&◌, ◌||◌, Option, none, some, List, [],
  ◌∷◌, ◌++◌, map, append_assoc, append-nil, arith, ltb, leb, ◌==◌, if◌then◌else◌, ltb→lt, lt→ltb,
  le→ltb, ltb→le, leb→le, lt→leb, le→leb, Bool-cases, Option-cases, ==→eq, ==→ne, leb-suc, leb→lt,
  length, get_elem?, set, take, drop, replicate, reverse_onto, All, length-append, length-take,
  length-drop, length-replicate, take-append-drop, take-append, drop-append, take_all, drop_all,
  take-length_append, drop-length_append, drop-append_add, length-append₃, All-append,
  length-reverse_onto, get_elem?-some, get_elem?-lt, length-map, ◌>>=◌, ◌>>◌, assert, >>=-eq-done,
  Ensures, Ensures->>=, Ensures-done, done-injective, Exception, Outcome, done, assert_failed,
  aborted, undefined, thrown, length_error, bad_function_call, out_of_range, logic_error, update,
  update_self, update_ne, ==_refl, ne→==, magnitude, neg, is_negative, pos_part, neg_part, sub_ℕ,
  ◌+ℤ◌, ◌-ℤ◌, ◌*ℤ◌, quot, rem, ltb_ℤ, leb_ℤ, ◌≤ℤ◌, ◌<ℤ◌, +ℤ_parts, -ℤ_parts, *ℤ_parts, one_part,
  eq_of_parts, sub_ℕ-le, sub_ℕ-lt, +ℤ_assoc, +ℤ-sub, +ℤ-pos, -ℤ-pos, *ℤ-pos, signed_32, is_int,
  to_int_32, neg_parts, is_int-small, +ℤ-le, -ℤ-le, *ℤ-le, ℤ, pos, negsuc,
}
use czy_net_frame.Base.TimeZone.{Data, no_data, add_local_time, add_transition}
use czy_net_frame.Base.TimeZone.File.{
  File, read_bytes, read_int64, read_int32, read_uint8, read_to_end, skip,
}

-- The six counters.
pub record Counts : Type 0 where
  pub isutccnt : ℤ
  pub isstdcnt : ℤ
  pub leapcnt : ℤ
  pub timecnt : ℤ
  pub typecnt : ℤ
  pub charcnt : ℤ

pub read_counts : File → Outcome (Counts × File)
read_counts f = do
  a ← read_int32 f
  b ← read_int32 a.1
  c ← read_int32 b.1
  d ← read_int32 c.1
  e ← read_int32 d.1
  g ← read_int32 e.1
  done (
    record {
      isutccnt = a.0;
      isstdcnt = b.0;
      leapcnt = c.0;
      timecnt = d.0;
      typecnt = e.0;
      charcnt = g.0;
    },
    g.1,
  )

-- `reserve` of a negative number, which is beyond `max_size`, throws.
pub reserve : ℤ → Outcome (Unit {0})
reserve (pos n) = done tt
reserve (negsuc n) = thrown length_error

-- A loop that reads so many things one after the other.
pub read_times {ℓ} : {A : Type ℓ} → (File → Outcome (A × File)) → ℕ → File → Outcome (List A × File)
read_times read_one zero f = done ([], f)
read_times read_one (suc n) f = do
  a ← read_one f
  rest ← read_times read_one n a.1
  done (a.0 ∷ rest.0, rest.1)

-- `v1` selects times of four bytes.
pub read_time : Bool → File → Outcome (ℤ × File)
read_time v1 f = if v1 then read_int32 f else read_int64 f

-- The reads of one round of the loop over the types of local time.
pub read_type : File → Outcome ((ℤ × ℕ × ℕ) × File)
read_type f = do
  gmtoff ← read_int32 f
  isdst ← read_uint8 gmtoff.1
  abbrind ← read_uint8 isdst.1
  done ((gmtoff.0, isdst.0, abbrind.0), abbrind.1)

pub read_types : ℕ → Data → File → Outcome (Data × File)
unfolding read_type
read_types zero d f = done (d, f)
read_types (suc n) d f = do
  r ← read_type f
  read_types n (add_local_time r.0.0 (not (r.0.1 == 0)) r.0.2 d) r.1

-- The loop over the transitions, of which both vectors hold the same number.
pub add_transitions : List ℤ → List ℕ → Data → Outcome Data
add_transitions [] ls d = done d
add_transitions (t ∷ ts) [] d = undefined
add_transitions (t ∷ ts) (l ∷ ls) d = add_transition t l d >>= add_transitions ts ls

abbrev equal_ℤ : ℤ → ℤ → Bool
equal_ℤ a b = leb_ℤ a b && leb_ℤ b a

-- The three tests of the counters.
pub are_readable : Counts → Bool
are_readable c =
    equal_ℤ c.leapcnt (pos 0)
    && (equal_ℤ c.isutccnt (pos 0) || equal_ℤ c.isutccnt c.typecnt)
    && (equal_ℤ c.isstdcnt (pos 0) || equal_ℤ c.isstdcnt c.typecnt)

pub time_size : Bool → ℕ
time_size v1 = if v1 then 4 else 8

abbrev pub with_rest : Data → Option (List ℕ × File) → Outcome (Option Data)
with_rest d none = undefined
with_rest d (some r) = done (some (record d { tzstring = r.0 }))

-- The end of a block: the rest of the file in the second version. `readToEnd` comes to an end.
pub finish_block : Bool → Data → File → Outcome (Option Data)
finish_block true d f = done (some d)
finish_block false d f = with_rest d (read_to_end f)

-- What follows the tests in `readDataBlock`.
pub read_tables : Bool → Counts → Data → File → Outcome (Option Data)
read_tables v1 c d f =
    reserve c.timecnt
    >> (read_times (read_time v1) (pos_part c.timecnt) f >>= λ trans.
        reserve c.timecnt
        >> (read_times read_uint8 (pos_part c.timecnt) trans.1 >>= λ locals.
            reserve c.typecnt
            >> (read_types (pos_part c.typecnt) d locals.1 >>= λ types.
                add_transitions trans.0 locals.0 types.0 >>= λ filled.
                read_bytes c.charcnt types.1 >>= λ chars.
                let after_leaps = skip (c.leapcnt *ℤ (time_size v1 + 4)) chars.1 in
                finish_block v1 (record filled { abbreviation = chars.0 })
                  (skip c.isutccnt (skip c.isstdcnt after_leaps)))))

-- `none` is the result false.
pub read_data_block : Bool → Data → File → Outcome (Option Data)
read_data_block v1 d f = do
  c ← read_counts f
  if are_readable c.0 then read_tables v1 c.0 d c.1 else done none

abbrev pub tzif : List ℕ
tzif = 84 ∷ 90 ∷ 105 ∷ 102 ∷ []

abbrev pub same_text : List ℕ → List ℕ → Bool
same_text [] [] = true
same_text [] (y ∷ ys) = false
same_text (x ∷ xs) [] = false
same_text (x ∷ xs) (y ∷ ys) = (x == y) && same_text xs ys

-- `if (head != "TZif") throw`.
pub check_head : List ℕ → Outcome (Unit {0})
check_head head = if same_text head tzif then done tt else thrown logic_error

-- A product of type `int`, which must not overflow.
pub int_product : ℕ → ℤ → Outcome ℤ
int_product k n = if is_int (n *ℤ k) then done (n *ℤ k) else undefined

-- The number of bytes of the first block. The sum is a `size_t`, which `skip` turns back.
pub block_size : Counts → Outcome ℤ
unfolding int_product
block_size c = do
  types ← int_product 6 c.typecnt
  leaps ← int_product 8 c.leapcnt
  done (c.timecnt *ℤ 4 +ℤ c.timecnt +ℤ types +ℤ c.charcnt +ℤ leaps +ℤ c.isstdcnt +ℤ c.isutccnt)

-- The second block, behind a header of its own.
pub read_second : Data → File → Outcome (Option Data)
read_second d f = do
  head ← read_bytes (pos 4) f
  check_head head.0 >> read_data_block false d (skip (pos 16) head.1)

-- The body of the `try`.
pub read_header : Data → File → Outcome (Option Data)
read_header d f = read_bytes (pos 4) f >>= λ head.
    check_head head.0
    >> (read_bytes (pos 1) head.1 >>= λ version. read_bytes (pos 15) version.1 >>= λ reserved.
        read_counts reserved.1 >>= λ counts.
        if same_text version.0 (50 ∷ [])
        then (block_size counts.0 >>= λ size. read_second d (skip size counts.1))
        else read_data_block true d (skip (negsuc 23) counts.1))

-- `catch (std::logic_error&)`, the base of the three exceptions that are thrown here.
pub catch_logic_error : Outcome (Option Data) → Outcome (Option Data)
catch_logic_error (done r) = done r
catch_logic_error assert_failed = assert_failed
catch_logic_error aborted = aborted
catch_logic_error undefined = undefined
catch_logic_error (thrown length_error) = done none
catch_logic_error (thrown bad_function_call) = thrown bad_function_call
catch_logic_error (thrown out_of_range) = done none
catch_logic_error (thrown logic_error) = done none

-- `none` as the argument is a file that `fopen` did not open.
pub read_time_zone_file : Option (List ℕ) → Data → Outcome (Option Data)
read_time_zone_file none d = done none
read_time_zone_file (some bytes) d =
    catch_logic_error (read_header d (record { bytes = bytes; position = 0 }))

-- The data of the zone, or `none` for an invalid zone.
pub load_zone_file : Option (List ℕ) → Outcome (Option Data)
load_zone_file file = read_time_zone_file file no_data
