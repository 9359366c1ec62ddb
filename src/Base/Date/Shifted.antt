-- ===== src/Base/Date/Shifted.antt =====
-- The arithmetic of src/base/Date.cc on numbers, with the year that begins in March: year `y` counts
-- from 4801 BC, month `m` from 0 for March, and day `k` of the month from 0.
use native.Mathlib.Decide.{dec_lt}
use czy_net_frame.Common.{ℕ, ◌+◌, ◌-◌, ◌*◌, ◌/◌, ◌%◌, ◌≤◌, ◌<◌, ◌≡◌, ◌≢◌, ◌⊎◌, inl, inr, arith}

abbrev pub days_before : ℕ → ℕ
days_before m = (153 * m + 2) / 5

-- The days of `b` centuries and `d` years.
abbrev pub centuries : ℕ → ℕ
centuries b = 36524 * b + b / 4

abbrev pub years : ℕ → ℕ
years d = 365 * d + d / 4

-- What `getJulianDayNumber` adds up, but for the month and the day.
abbrev pub elapsed : ℕ → ℕ
elapsed y = y * 365 + y / 4 - y / 100 + y / 400

pub elapsed-centuries : (b d : ℕ) → d < 100 → elapsed (100 * b + d) ≡ centuries b + years d
elapsed-centuries b d h =
    let quarters : (100 * b + d) / 4 ≡ 25 * b + d / 4 = omega arith in
    let hundreds : (100 * b + d) / 100 ≡ b = omega arith in
    let cycles : (100 * b + d) / 400 ≡ b / 4 = omega arith in
    omega (arith, quarters, hundreds, cycles)

-- A year is complete in 365 days, but the year before a leap day's March has 366.
abbrev pub Fits : ℕ → ℕ → ℕ → Type 0
Fits b d e = (d < 100) × (e ≤ 365) × (e ≡ 365 → (d % 4 ≡ 3) × ((d ≢ 99) ⊎ (b % 4 ≡ 3)))

lt_or_eq : (a b : ℕ) → a ≤ b → (a < b) ⊎ (a ≡ b)
lt_or_eq a b h = elim (dec_lt a b) [ yes p ↦ inl p | no p ↦ inr (omega arith) ]

-- With these limits the quotients are exact.
century-limit :
    (b c : ℕ) → c ≤ 36524 → (c ≡ 36524 → b % 4 ≡ 3) → (4 * (centuries b + c) + 3) / 146097 ≡ b
century-limit b c h last = elim (lt_or_eq c 36524 h) [
  | inl lt ↦ omega arith
  | inr e ↦ omega (arith, last e)
]

year-limit : (d e : ℕ) → e ≤ 365 → (e ≡ 365 → d % 4 ≡ 3) → (4 * (years d + e) + 3) / 1461 ≡ d
year-limit d e h last = elim (lt_or_eq e 365 h) [
  | inl lt ↦ omega arith
  | inr q ↦ omega (arith, last q)
]

pub century-of : (b d e : ℕ) → Fits b d e → (4 * (centuries b + (years d + e)) + 3) / 146097 ≡ b
century-of b d e fits = century-limit b (years d + e) (omega (arith, fits.0, fits.1)) λ q. last q
  where
    last : years d + e ≡ 36524 → b % 4 ≡ 3
    last q = elim (lt_or_eq e 365 (fits.1)) [
      | inl lt ↦ absurd (omega (arith, fits.0))
      | inr r ↦ elim ((fits.2 r).1) [ inl ne ↦ absurd (ne (omega (arith, fits.0))) | inr s ↦ s ]
    ]

pub year-of : (b d e : ℕ) → Fits b d e → (4 * (years d + e) + 3) / 1461 ≡ d
year-of b d e fits = year-limit d e fits.1 λ q. (fits.2 q).0

pub month-of :
    (m k : ℕ) → days_before m + k < days_before (m + 1) → (5 * (days_before m + k) + 2) / 153 ≡ m
month-of m k h = omega arith

pub centuries-eq : (b : ℕ) → b * 146097 / 4 ≡ centuries b
centuries-eq b = omega arith

pub years-eq : (d : ℕ) → d * 1461 / 4 ≡ years d
years-eq d = omega arith
