-- ===== src/Base/LogStream/Convert.antt =====
-- The texts of `convert` and `convertHex` against readers of such texts, and the room that they take.
use czy_net_frame.Common.{
  ℕ, suc, ◌+◌, ◌-◌, ◌^◌, ◌≤◌, ◌<◌, ◌≡◌, refl, sym, ap, ap₂, ◌∙◌, Bool, true, ◌&&◌, Option, none,
  some, List, [], ◌∷◌, ◌++◌, map, append-nil, arith, ltb, leb, ◌==◌, if◌then◌else◌, lt→leb, le→leb,
  length, reverse_onto, All, length-reverse_onto, length-map, ◌>>=◌, done, ne→==, magnitude, neg,
  is_negative, ℤ, pos, negsuc,
}
use czy_net_frame.Base.FixedBuffer.{FixedBuffer, avail}
use czy_net_frame.Base.LogStream.{
  convert_loop, convert, convert_hex, max_numeric_size, store, format_integer, put_address,
}
use czy_net_frame.Base.LogStream.Digits.{
  big, big-reverse_onto, digits_of, length-digits_of, below-digits_of, All-reverse_onto,
  little-digits_of, reverse_onto-append, map-reverse_onto,
}
use czy_net_frame.Base.LogStream.Loops.{
  convert_loop-digits_of, hex_char, convert_hex_loop-digits_of,
}

-- A reader of decimal text, with an optional sign and then one digit at least, and one of
-- hexadecimal text.
abbrev pub are_digits : List ℕ → Bool
are_digits [] = true
are_digits (c ∷ cs) = leb 48 c && (leb c 57 && are_digits cs)

abbrev pub read_digits : List ℕ → Option ℕ
read_digits [] = none
read_digits (c ∷ cs) =
    if are_digits (c ∷ cs) then some (big 10 0 (map (λ x. x - 48) (c ∷ cs))) else none

abbrev pub with_sign : (ℕ → ℤ) → Option ℕ → Option ℤ
with_sign sign none = none
with_sign sign (some n) = some (sign n)

abbrev pub read_decimal : List ℕ → Option ℤ
read_decimal [] = none
read_decimal (c ∷ cs) =
    if c == 45 then with_sign neg (read_digits cs) else with_sign pos (read_digits (c ∷ cs))

abbrev pub hex_value : ℕ → ℕ
hex_value c = if ltb c 58 then c - 48 else c - 55

abbrev pub read_hex : List ℕ → ℕ
read_hex cs = big 16 0 (map hex_value cs)

map-inverse : (f g : ℕ → ℕ) → ((d : ℕ) → f (g d) ≡ d) → (ds : List ℕ) → map f (map g ds) ≡ ds
map-inverse f g h [] = refl
map-inverse f g h (d ∷ ds) = ap₂ (◌∷◌) (h d) (map-inverse f g h ds)

are_digits-map : (ds : List ℕ) → All (λ d. d < 10) ds → are_digits (map (λ d. 48 + d) ds) ≡ true
are_digits-map [] h = refl
are_digits-map (d ∷ ds) h =
    rw (le→leb 48 (48 + d) (omega arith), le→leb (48 + d) 57 (omega (arith, h.0)))
      (are_digits-map ds h.1)

read_digits-map :
    (ds : List ℕ)
    → All (λ d. d < 10) ds
    → 0 < length ds
    → read_digits (map (λ d. 48 + d) ds) ≡ some (big 10 0 ds)
read_digits-map [] h some_there = absurd (omega arith)
read_digits-map (d ∷ ds) h some_there =
    let digits = are_digits-map (d ∷ ds) h in
    let back = map-inverse (λ x. x - 48) (λ d. 48 + d) (λ d. omega arith) (d ∷ ds) in
    ap (λ b. if b then some (big 10 0 (map (λ x. x - 48) (map (λ d. 48 + d) (d ∷ ds)))) else none)
      digits
    ∙ ap (λ t. some (big 10 0 t)) back

read_decimal-digits :
    (ds : List ℕ)
    → All (λ d. d < 10) ds
    → 0 < length ds
    → (read_decimal (map (λ d. 48 + d) ds) ≡ some (pos (big 10 0 ds)))
      × (read_decimal (45 ∷ map (λ d. 48 + d) ds) ≡ some (neg (big 10 0 ds)))
read_decimal-digits [] h some_there = absurd (omega arith)
read_decimal-digits (d ∷ ds) h some_there =
    let e = read_digits-map (d ∷ ds) h some_there in
    (
      ap
            (λ b.
              if b
              then with_sign neg (read_digits (map (λ d. 48 + d) ds))
              else with_sign pos (read_digits (map (λ d. 48 + d) (d ∷ ds))))
            (ne→== (48 + d) 45 (λ e. omega (arith, e)))
          ∙ ap (with_sign pos) e,
      ap (with_sign neg) e,
    )

-- The digits of a number, greatest first, have its value.
big-digits_of : (m : ℕ) → m < 2 ^ 64 → big 10 0 (reverse_onto (digits_of 10 20 m) []) ≡ m
big-digits_of m h =
    big-reverse_onto 10 (digits_of 10 20 m) [] 0 refl
    ∙ little-digits_of 10 (λ n. omega arith) (λ n x k. omega (arith, k)) 20 m (omega (arith, h))

-- convert of an integer whose magnitude is below 2 ^ 64 reads no character outside of its table
-- and writes at most 21 characters, which are an optional sign and one digit at least; read as a
-- decimal number they are that integer.
pub convert-read_decimal :
    (v : ℤ)
    → magnitude v < 2 ^ 64
    → (s : List ℕ) × (convert v ≡ done s) × (read_decimal s ≡ some v) × (length s ≤ 21)
unfolding convert
convert-read_decimal v h = by_sign v h
  where
    f : ℕ → ℕ
    f d = 48 + d

    digits : (m : ℕ) → All (λ d. d < 10) (reverse_onto (digits_of 10 20 m) [])
    digits m =
        All-reverse_onto (λ d. d < 10) (digits_of 10 20 m) []
          (below-digits_of 10 (λ n. omega arith) 20 m) tt

    nonempty : (m : ℕ) → 0 < length (reverse_onto (digits_of 10 20 m) [])
    nonempty m = omega (arith, length-reverse_onto (digits_of 10 20 m) [])

    few : (m : ℕ) → length (map f (reverse_onto (digits_of 10 20 m) [])) ≤ 20
    few m = omega (
      arith,
      length-map f (reverse_onto (digits_of 10 20 m) []),
      length-reverse_onto (digits_of 10 20 m) [],
      length-digits_of 10 20 m,
    )

    by_sign :
        (v : ℤ)
        → magnitude v < 2 ^ 64
        → (s : List ℕ) × ((convert_loop 20 v >>= λ cs.
              done (reverse_onto (cs ++ (if is_negative v then 45 ∷ [] else [])) []))
            ≡ done s)
          × (read_decimal s ≡ some v)
          × (length s ≤ 21)
    by_sign (pos n) h =
        let ds = digits_of 10 20 n in
        (
          map f (reverse_onto ds []),
          rw (convert_loop-digits_of 20 (pos n), append-nil (map f ds))
              (ap done (sym (map-reverse_onto f ds []))),
          (read_decimal-digits (reverse_onto ds []) (digits n) (nonempty n)).0
              ∙ ap (λ m. some (pos m)) (big-digits_of n h),
          omega (arith, few n),
        )
    by_sign (negsuc n) h =
        let ds = digits_of 10 20 (suc n) in
        (
          45 ∷ map f (reverse_onto ds []),
          rw (convert_loop-digits_of 20 (negsuc n)) (
              ap done (
                reverse_onto-append (map f ds) (45 ∷ []) []
                ∙ ap (◌∷◌ 45) (sym (map-reverse_onto f ds [])))),
          (read_decimal-digits (reverse_onto ds []) (digits (suc n)) (nonempty (suc n))).1
              ∙ ap (λ m. some (neg m)) (big-digits_of (suc n) h),
          omega (arith, few (suc n)),
        )

-- The same for `convertHex` and 64 bits: at most 16 characters, which are the number in base 16.
pub convert_hex-read_hex :
    (n : ℕ)
    → n < 2 ^ 64
    → (s : List ℕ) × (convert_hex n ≡ done s) × (read_hex s ≡ n) × (length s ≤ 16)
unfolding convert_hex
convert_hex-read_hex n h =
    let ds = digits_of 16 16 n in
    (
      map hex_char (reverse_onto ds []),
      rw (convert_hex_loop-digits_of 16 n) (ap done (sym (map-reverse_onto hex_char ds []))),
      ap (big 16 0) (map-inverse hex_value hex_char back (reverse_onto ds []))
          ∙ big-reverse_onto 16 ds [] 0 refl
          ∙ little-digits_of 16 (λ n. omega arith) (λ n x k. omega (arith, k)) 16 n
              (omega (arith, h)),
      omega (
        arith,
        length-map hex_char (reverse_onto ds []),
        length-reverse_onto ds [],
        length-digits_of 16 16 n,
      ),
    )
  where
    back : (d : ℕ) → hex_value (hex_char d) ≡ d
    back d = ground arith

-- The operators of the integer types and of addresses, for 64 bits: with 48 bytes available the text
-- of the number goes behind what is in the buffer, inside the array together with the 0 behind it;
-- with fewer nothing happens. The text reads back as the number, an address behind `0x`.
pub format_integer_lem :
    (b : FixedBuffer) (v : ℤ) (p : ℕ)
    → magnitude v < 2 ^ 64
    → p < 2 ^ 64
    → (max_numeric_size ≤ avail b
        → ((s : List ℕ) × (format_integer b v ≡ done (record b { written = b.written ++ s }))
            × (read_decimal s ≡ some v))
          × ((s : List ℕ) × (put_address b p
                ≡ done (record b { written = b.written ++ (48 ∷ 120 ∷ s) }))
              × (read_hex s ≡ p)))
      × (avail b < max_numeric_size → (format_integer b v ≡ done b) × (put_address b p ≡ done b))
unfolding format_integer put_address store
format_integer_lem b v p small small' =
    (room, λ few. rw (lt→leb max_numeric_size (avail b) few) (refl, refl))
  where
    room :
        max_numeric_size ≤ avail b
        → ((s : List ℕ) × (format_integer b v ≡ done (record b { written = b.written ++ s }))
            × (read_decimal s ≡ some v))
          × ((s : List ℕ) × (put_address b p
                ≡ done (record b { written = b.written ++ (48 ∷ 120 ∷ s) }))
              × (read_hex s ≡ p))
    room le =
        let (s, e, r, n) = convert-read_decimal v small in
        let (t, f, q, m) = convert_hex-read_hex p small' in
        (
          (
            s,
            rw
                (
                  le→leb max_numeric_size (avail b) le,
                  e,
                  le→leb (suc (length s)) (avail b) (omega (arith, le, n)),
                )
                refl,
            r,
          ),
          (
            t,
            rw
                (
                  le→leb max_numeric_size (avail b) le,
                  f,
                  le→leb (suc (suc (suc (length t)))) (avail b) (omega (arith, le, m)),
                )
                refl,
            q,
          ),
        )
