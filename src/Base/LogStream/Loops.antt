-- ===== src/Base/LogStream/Loops.antt =====
-- The tables and the loops of Base/LogStream, by the digits of the number.
use czy_net_frame.Common.{
  ℕ, zero, suc, ◌+◌, ◌/◌, ◌%◌, ◌<◌, ◌≡◌, refl, ap, inl, inr, ◌∷◌, map, arith, ltb, ◌==◌,
  if◌then◌else◌, Bool-cases, done, magnitude, neg, quot, rem, ℤ, pos, negsuc,
}
use czy_net_frame.Base.LogStream.{zero_at, hex_at, convert_loop, convert_hex_loop}
use czy_net_frame.Base.LogStream.Digits.{digits_of}

magnitude-neg : (n : ℕ) → magnitude (neg n) ≡ n
magnitude-neg zero = refl
magnitude-neg (suc n) = refl

-- The ten characters around `zero`.
zero_at-digit :
    (r : ℕ) → r < 10 → (zero_at (pos r) ≡ done (48 + r)) × (zero_at (neg r) ≡ done (48 + r))
unfolding zero_at
zero_at-digit zero h = (refl, refl)
zero_at-digit (suc zero) h = (refl, refl)
zero_at-digit (suc (suc zero)) h = (refl, refl)
zero_at-digit (suc (suc (suc zero))) h = (refl, refl)
zero_at-digit (suc (suc (suc (suc zero)))) h = (refl, refl)
zero_at-digit (suc (suc (suc (suc (suc zero))))) h = (refl, refl)
zero_at-digit (suc (suc (suc (suc (suc (suc zero)))))) h = (refl, refl)
zero_at-digit (suc (suc (suc (suc (suc (suc (suc zero))))))) h = (refl, refl)
zero_at-digit (suc (suc (suc (suc (suc (suc (suc (suc zero)))))))) h = (refl, refl)
zero_at-digit (suc (suc (suc (suc (suc (suc (suc (suc (suc zero))))))))) h = (refl, refl)
zero_at-digit (suc (suc (suc (suc (suc (suc (suc (suc (suc (suc r)))))))))) h = absurd (omega arith)

zero_at-rem : (i : ℤ) → zero_at (rem i 10) ≡ done (48 + magnitude i % 10)
zero_at-rem (pos n) = (zero_at-digit (n % 10) (omega arith)).0
zero_at-rem (negsuc n) = (zero_at-digit (suc n % 10) (omega arith)).1

magnitude-quot : (i : ℤ) → magnitude (quot i 10) ≡ magnitude i / 10
magnitude-quot (pos n) = refl
magnitude-quot (negsuc n) = magnitude-neg (suc n / 10)

-- The loop writes the digits of the magnitude, the least one first.
pub convert_loop-digits_of :
    (fuel : ℕ) (i : ℤ)
    → convert_loop fuel i ≡ done (map (λ d. 48 + d) (digits_of 10 fuel (magnitude i)))
unfolding convert_loop
convert_loop-digits_of zero i = refl
convert_loop-digits_of (suc fuel) i =
    rw (zero_at-rem i, magnitude-quot i, convert_loop-digits_of fuel (quot i 10))
      (elim (Bool-cases (magnitude i / 10 == 0)) [
        | inl y ↦ rw y refl
        | inr z ↦ rw z (
            ap (λ m. done ((48 + magnitude i % 10) ∷ map (λ d. 48 + d) (digits_of 10 fuel m)))
              (magnitude-quot i))
      ])

abbrev pub hex_char : ℕ → ℕ
hex_char d = if ltb d 10 then 48 + d else 55 + d

-- The sixteen characters of the table.
hex_at-digit : (r : ℕ) → r < 16 → hex_at r ≡ done (hex_char r)
unfolding hex_at
hex_at-digit zero h = refl
hex_at-digit (suc zero) h = refl
hex_at-digit (suc (suc zero)) h = refl
hex_at-digit (suc (suc (suc zero))) h = refl
hex_at-digit (suc (suc (suc (suc zero)))) h = refl
hex_at-digit (suc (suc (suc (suc (suc zero))))) h = refl
hex_at-digit (suc (suc (suc (suc (suc (suc zero)))))) h = refl
hex_at-digit (suc (suc (suc (suc (suc (suc (suc zero))))))) h = refl
hex_at-digit (suc (suc (suc (suc (suc (suc (suc (suc zero)))))))) h = refl
hex_at-digit (suc (suc (suc (suc (suc (suc (suc (suc (suc zero))))))))) h = refl
hex_at-digit (suc (suc (suc (suc (suc (suc (suc (suc (suc (suc zero)))))))))) h = refl
hex_at-digit (suc (suc (suc (suc (suc (suc (suc (suc (suc (suc (suc zero))))))))))) h = refl
hex_at-digit (suc (suc (suc (suc (suc (suc (suc (suc (suc (suc (suc (suc zero)))))))))))) h = refl
hex_at-digit (suc (suc (suc (suc (suc (suc (suc (suc (suc (suc (suc (suc (suc zero))))))))))))) h =
    refl
hex_at-digit
      (suc (suc (suc (suc (suc (suc (suc (suc (suc (suc (suc (suc (suc (suc zero)))))))))))))) h =
    refl
hex_at-digit
      (suc (suc (suc (suc (suc (suc (suc (suc (suc (suc (suc (suc (suc (suc (suc zero)))))))))))))))
      h =
    refl
hex_at-digit
      (suc
        (suc (suc (suc (suc (suc (suc (suc (suc (suc (suc (suc (suc (suc (suc (suc r))))))))))))))))
      h =
    absurd (omega arith)

pub convert_hex_loop-digits_of :
    (fuel i : ℕ) → convert_hex_loop fuel i ≡ done (map hex_char (digits_of 16 fuel i))
unfolding convert_hex_loop
convert_hex_loop-digits_of zero i = refl
convert_hex_loop-digits_of (suc fuel) i =
    rw (hex_at-digit (i % 16) (omega arith), convert_hex_loop-digits_of fuel (i / 16))
      (elim (Bool-cases (i / 16 == 0)) [ inl y ↦ rw y refl | inr z ↦ rw z refl ])
