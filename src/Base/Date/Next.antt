-- ===== src/Base/Date/Next.antt =====
-- The day after a day, by the number that src/base/Date.cc gives it.
use native.Mathlib.Decide.{ℕ_discrete}
use czy_net_frame.Common.{
  ℕ, ◌+◌, ◌-◌, ◌≤◌, ◌<◌, ◌≡◌, refl, sym, ap, ◌∙◌, ◌≢◌, inl, inr, Bool, true, false, List, [], ◌∷◌,
  arith, ◌==◌, if◌then◌else◌, leb→le, Bool-cases, ==→eq, ==→ne, All, Outcome, done, ◌+ℤ◌, ◌-ℤ◌,
  ◌*ℤ◌, quot, -ℤ_parts, +ℤ-pos, +ℤ-le, -ℤ-le, *ℤ-le, Within, +ℤ-Within, -ℤ-Within, is_int-Within, ℤ,
  pos, negsuc,
}
use czy_net_frame.Base.Date.{get_julian_day_number, julian_day_terms, are_ints}
use czy_net_frame.Base.Date.Calendar.{
  Day, IsDay, days_in_month, is_leap, day_of, next_day, ends_month,
}
use czy_net_frame.Base.Date.Shifted.{days_before, elapsed}
use czy_net_frame.Base.Date.Days.{
  early, march_month, day_in_year, march_year, number_of, after_epoch, number_of-elapsed,
}

abbrev elapsed_days : Day → ℕ
elapsed_days t = elapsed (march_year t) + day_in_year t.month t.day

elapsed-leap : (y : ℕ) → elapsed (y + 4800) ≡ elapsed (y + 4799) + (if is_leap y then 366 else 365)
elapsed-leap y = ground arith

other_month :
    (y m : ℕ)
    → 1 ≤ m
    → m < 12
    → m ≢ 2
    → days_before (march_month (m + 1)) ≡ day_in_year m (days_in_month y m) + 1
other_month y m low high ne = ground arith

next_month :
    (y m : ℕ)
    → 1 ≤ m
    → m < 12
    → elapsed_days (day_of y (m + 1) 1) ≡ elapsed_days (day_of y m (days_in_month y m)) + 1
next_month y m low high = elim (ℕ_discrete m 2) [
  | yes e ↦ rw e (omega (arith, february (is_leap y) (elapsed-leap y)))
  | no ne ↦
      let same : y + 4800 - early (m + 1) ≡ y + 4800 - early m = ground arith in
      omega (arith, ap elapsed same, other_month y m low high ne)
]
  where
    february :
        (leap : Bool)
        → elapsed (y + 4800) ≡ elapsed (y + 4799) + (if leap then 366 else 365)
        → elapsed (y + 4800) ≡ elapsed (y + 4799) + (337 + ((if leap then 29 else 28) - 1)) + 1
    february true h = omega (arith, h)
    february false h = omega (arith, h)

next_year : (y : ℕ) → elapsed_days (day_of (y + 1) 1 1) ≡ elapsed_days (day_of y 12 31) + 1
next_year y = omega arith

pub next_day-IsDay : (t : Day) → IsDay t → IsDay (next_day t)
next_day-IsDay t v = ground (arith, v.month_in, v.day_in)

elapsed_days-next_day : (t : Day) → IsDay t → elapsed_days (next_day t) ≡ elapsed_days t + 1
elapsed_days-next_day t v = elim (Bool-cases (ends_month t)) [
  | inr same ↦ rw same (omega (arith, v.day_in))
  | inl last ↦ rw last (elim (Bool-cases (t.month == 12)) [
    | inr month ↦ rw month (
        omega (
          arith,
          next_month t.year t.month v.month_in.0 (omega (arith, ==→ne _ _ month, v.month_in)),
          leb→le _ _ last,
          v.day_in,
        ))
    | inl december ↦ rw december (
        let is_december : t.month ≡ 12 = ==→eq _ _ december in
        let is_last : t.day ≡ 31 = ground (arith, is_december, leb→le _ _ last, v.day_in) in
        omega (arith, next_year t.year, is_december, is_last))
  ])
]

number_of-next_day : (t : Day) → IsDay t → number_of (next_day t) ≡ number_of t +ℤ pos 1
number_of-next_day t v =
    let e : elapsed_days (next_day t) - 32044 ≡ elapsed_days t - 32044 + 1 =
      omega (
        arith,
        elapsed_days-next_day t v,
        after_epoch (march_year t) (omega (arith, v.month_in)),
      ) in
    number_of-elapsed (next_day t) (next_day-IsDay t v)
    ∙ ap pos e
    ∙ sym (+ℤ-pos (elapsed_days t - 32044) 1)
    ∙ ap (λ z. z +ℤ pos 1) (sym (number_of-elapsed t v))

are_ints-Within : (zs : List ℤ) → All (Within 2147483647) zs → are_ints zs ≡ true
are_ints-Within [] h = refl
are_ints-Within (z ∷ zs) h =
    rw (is_int-Within 2147483647 z (omega arith) h.0) (are_ints-Within zs h.1)

-- What the `int`s of `getJulianDayNumber` are bounded by, up to the year 5000000.
module _ (y m d : ℕ) (low_y : y ≤ 5000000) (low_m : m ≤ 12) (low_d : d ≤ 31) where
  abbrev early_part : ℤ
  early_part = quot (pos 14 -ℤ pos m) 12

  abbrev year_part : ℤ
  year_part = pos y +ℤ pos 4800 -ℤ early_part

  abbrev month_part : ℤ
  month_part = pos m +ℤ early_part *ℤ 12 -ℤ pos 3

  quot-Within :
      (k : ℕ) (z : ℤ)
      → Within k z
      → Within k (quot z 12)
        × Within k (quot z 5)
        × Within k (quot z 4)
        × Within k (quot z 100)
        × Within k (quot z 400)
  quot-Within k (pos n) w = omega (arith, w)
  quot-Within k (negsuc n) w = ground (arith, w)

  early-Within : Within 14 (pos 14 -ℤ pos m)
  early-Within = omega (arith, low_m, -ℤ_parts (pos 14) (pos m), -ℤ-le (pos 14) (pos m))

  early_part-Within : Within 14 early_part
  early_part-Within = (quot-Within 14 _ early-Within).0

  year-Within : Within 5004814 year_part
  year-Within = omega (
    arith,
    low_y,
    early_part-Within,
    +ℤ-le (pos y) (pos 4800),
    -ℤ-le (pos y +ℤ pos 4800) early_part,
  )

  twelve-Within : Within 168 (early_part *ℤ 12)
  twelve-Within = omega (arith, early_part-Within, *ℤ-le early_part 12)

  month-Within : Within 183 month_part
  month-Within = omega (
    arith,
    low_m,
    twelve-Within,
    +ℤ-le (pos m) (early_part *ℤ 12),
    -ℤ-le (pos m +ℤ early_part *ℤ 12) (pos 3),
  )

  abbrev days_part : ℤ
  days_part = pos d +ℤ quot (month_part *ℤ 153 +ℤ pos 2) 5

  product-Within : Within 30000 (month_part *ℤ 153)
  product-Within = omega (arith, month-Within, *ℤ-le month_part 153)

  days-Within : Within 40000 days_part
  days-Within =
      let w = (quot-Within 30002 _ (+ℤ-Within 30000 2 _ (pos 2) product-Within (omega arith))).1 in
      omega (arith, low_d, w, +ℤ-le (pos d) (quot (month_part *ℤ 153 +ℤ pos 2) 5))

  years-Within : Within 1826757110 (year_part *ℤ 365)
  years-Within = omega (arith, year-Within, *ℤ-le year_part 365)

  are_ints-terms : are_ints (julian_day_terms (pos y) (pos m) (pos d)) ≡ true
  unfolding julian_day_terms
  are_ints-terms =
      let q = quot-Within 5004814 year_part year-Within in
      let t1 = +ℤ-Within 40000 1826757110 _ _ days-Within years-Within in
      let t2 = +ℤ-Within 1826797110 5004814 _ _ t1 q.2 in
      let t3 = -ℤ-Within 1831801924 5004814 _ _ t2 q.3 in
      let t4 = +ℤ-Within 1836806738 5004814 _ _ t3 q.4 in
      let t5 = -ℤ-Within 1841811552 32045 _ (pos 32045) t4 (omega arith) in
      are_ints-Within (julian_day_terms (pos y) (pos m) (pos d)) (
        widen 14 _ (omega arith) early-Within,
        (
          widen 5004800 _ (omega arith) (omega (arith, low_y, +ℤ-le (pos y) (pos 4800))),
          (
            widen 5004814 _ (omega arith) year-Within,
            (
              widen 168 _ (omega arith) twelve-Within,
              (
                widen 180 _ (omega arith)
                    (omega (arith, low_m, twelve-Within, +ℤ-le (pos m) (early_part *ℤ 12))),
                (
                  widen 183 _ (omega arith) month-Within,
                  (
                    widen 30000 _ (omega arith) product-Within,
                    (
                      widen 30002 _ (omega arith)
                          (+ℤ-Within 30000 2 _ (pos 2) product-Within (omega arith)),
                      (
                        widen 40000 _ (omega arith) days-Within,
                        (
                          widen 1826757110 _ (omega arith) years-Within,
                          (
                            widen 1826797110 _ (omega arith) t1,
                            (
                              widen 1831801924 _ (omega arith) t2,
                              (
                                widen 1836806738 _ (omega arith) t3,
                                (
                                  widen 1841811552 _ (omega arith) t4,
                                  (widen 1841843597 _ (omega arith) t5, tt),
                                ),
                              ),
                            ),
                          ),
                        ),
                      ),
                    ),
                  ),
                ),
              ),
            ),
          ),
        ),
      )
    where
      widen : (k : ℕ) (z : ℤ) → k < 2147483648 → Within k z → Within 2147483647 z
      widen k z h w = omega (arith, h, w)

day_bound : (t : Day) → IsDay t → t.day ≤ 31
day_bound t v = ground (arith, v.day_in)

get_julian_day_number-number_of :
    (t : Day)
    → IsDay t
    → t.year ≤ 5000000
    → get_julian_day_number (pos t.year) (pos t.month) (pos t.day) ≡ done (number_of t)
unfolding get_julian_day_number number_of
get_julian_day_number-number_of t v h =
    rw (are_ints-terms t.year t.month t.day h (omega (arith, v.month_in)) (day_bound t v)) refl

abbrev pub number : Day → Outcome ℤ
number t = get_julian_day_number (pos t.year) (pos t.month) (pos t.day)

-- For any day of the Gregorian calendar from the year 0 on and before the year 5000000, over the
-- ends of months, leap years and years, no int in getJulianDayNumber overflows, and the number
-- of the day after it is the next number.
pub get_julian_day_number-next_day :
    (t : Day)
    → IsDay t
    → t.year < 5000000
    → (n : ℤ) × (number t ≡ done n) × (number (next_day t) ≡ done (n +ℤ pos 1))
get_julian_day_number-next_day t v h = (
  number_of t,
  get_julian_day_number-number_of t v (omega (arith, h)),
  get_julian_day_number-number_of (next_day t) (next_day-IsDay t v) (ground (arith, h))
      ∙ ap done (number_of-next_day t v),
)
