-- ===== src/Base/Date/Days.antt =====
-- src/base/Date.cc against the calendar.
use czy_net_frame.Common.{
  ℕ, ◌+◌, ◌-◌, ◌*◌, ◌/◌, ◌%◌, ◌≤◌, ◌<◌, ◌≡◌, refl, ap, ◌∙◌, ◌≢◌, ◌⊎◌, true, arith, ◌+ℤ◌, ◌-ℤ◌, ◌*ℤ◌,
  quot, +ℤ_parts, -ℤ_parts, eq_of_parts, +ℤ-pos, -ℤ-pos, *ℤ-pos, ℤ, pos,
}
use czy_net_frame.Base.Date.{
  YearMonthDay, julian_day_number_of, months_of, years_of, centuries_of, get_year_month_day,
}
use czy_net_frame.Base.Date.Calendar.{Day, IsDay, is_leap}
use czy_net_frame.Base.Date.Shifted.{
  days_before, centuries, years, elapsed, elapsed-centuries, Fits, century-of, year-of, month-of,
  centuries-eq, years-eq,
}

-- The year in which January and February belong to the year before, from 4801 BC.
abbrev pub early : ℕ → ℕ
early m = (14 - m) / 12

abbrev pub march_month : ℕ → ℕ
march_month m = m + early m * 12 - 3

-- The last line of `getJulianDayNumber`.
total :
    (d q y : ℕ)
    → 32045 ≤ d + days_before q + elapsed y
    → pos d
        +ℤ quot (pos q *ℤ 153 +ℤ pos 2) 5
        +ℤ pos y *ℤ 365
        +ℤ pos (y / 4)
        -ℤ pos (y / 100)
        +ℤ pos (y / 400)
        -ℤ pos 32045
      ≡ pos (d + days_before q + elapsed y - 32045)
total d q y h =
    let m = q * 153 + 2 in
    let s = d + m / 5 + y * 365 + y / 4 in
    let same : 153 * q + 2 ≡ m = omega arith in
    rw
      (
        *ℤ-pos q 153,
        +ℤ-pos (q * 153) 2,
        +ℤ-pos d (m / 5),
        *ℤ-pos y 365,
        +ℤ-pos (d + m / 5) (y * 365),
        +ℤ-pos (d + m / 5 + y * 365) (y / 4),
        -ℤ-pos s (y / 100) (omega arith),
        +ℤ-pos (s - y / 100) (y / 400),
        -ℤ-pos (s - y / 100 + y / 400) 32045 (omega arith),
      )
      (ap pos (omega arith))

pub julian_day_number_of-elapsed :
    (z : ℤ) (w m d : ℕ)
    → z +ℤ pos 4800 ≡ pos w
    → 1 ≤ w
    → (1 ≤ m) × (m ≤ 12)
    → 32045 ≤ d + days_before (march_month m) + elapsed (w - early m)
    → julian_day_number_of z (pos m) (pos d)
      ≡ pos (d + days_before (march_month m) + elapsed (w - early m) - 32045)
unfolding julian_day_number_of
julian_day_number_of-elapsed z w m d e h range enough =
    rw
      (
        e,
        -ℤ-pos 14 m (omega arith),
        *ℤ-pos (early m) 12,
        +ℤ-pos m (early m * 12),
        -ℤ-pos (m + early m * 12) 3 (omega arith),
        -ℤ-pos w (early m) (omega arith),
      )
      (total d (march_month m) (w - early m) enough)

-- The three quotients of `getYearMonthDay`.
divide : (a n k q : ℕ) → quot (pos a *ℤ n +ℤ pos k) q ≡ pos ((n * a + k) / q)
divide a n k q = let e : a * n ≡ n * a = omega arith in rw (*ℤ-pos a n, +ℤ-pos (a * n) k, e) refl

-- The parts that the sums are made of are found again.
pub months_of-days :
    (b d m k : ℕ)
    → m ≤ 11
    → days_before m + k < days_before (m + 1)
    → months_of (pos b) (pos d) (pos (days_before m + k)) ≡ (record {
      year = pos (b * 100 + d) -ℤ pos 4800 +ℤ pos (m / 10);
      month = pos (m + 3 - m / 10 * 12);
      day = pos (k + 1);
    })
unfolding months_of
months_of-days b d m k small h =
    let back : days_before m + k - days_before m ≡ k = omega arith in
    rw
      (
        divide (days_before m + k) 5 2 153,
        month-of m k h,
        divide m 153 2 5,
        *ℤ-pos b 100,
        +ℤ-pos (b * 100) d,
        +ℤ-pos m 3,
        *ℤ-pos (m / 10) 12,
        -ℤ-pos (m + 3) (m / 10 * 12) (omega arith),
        -ℤ-pos (days_before m + k) (days_before m) (omega arith),
        back,
        +ℤ-pos k 1,
      )
      refl

pub years_of-days :
    (b d e : ℕ)
    → Fits b d e
    → years_of (pos b) (pos (years d + e)) ≡ months_of (pos b) (pos d) (pos e)
unfolding years_of
years_of-days b d e fits =
    let back : years d + e - years d ≡ e = omega arith in
    rw
      (
        divide (years d + e) 4 3 1461,
        year-of b d e fits,
        *ℤ-pos d 1461,
        years-eq d,
        -ℤ-pos (years d + e) (years d) (omega arith),
        back,
      )
      refl

pub centuries_of-days :
    (b d e : ℕ)
    → Fits b d e
    → centuries_of (pos (centuries b + (years d + e))) ≡ years_of (pos b) (pos (years d + e))
unfolding centuries_of
centuries_of-days b d e fits =
    let c = years d + e in
    let back : centuries b + c - centuries b ≡ c = omega arith in
    rw
      (
        divide (centuries b + c) 4 3 146097,
        century-of b d e fits,
        *ℤ-pos b 146097,
        centuries-eq b,
        -ℤ-pos (centuries b + c) (centuries b) (omega arith),
        back,
      )
      refl

abbrev pub day_in_year : ℕ → ℕ → ℕ
day_in_year m day = days_before (march_month m) + (day - 1)

-- A day of the calendar lies in its month, and only February 29 is day 365 after March 1.
pub in_month :
    (t : Day)
    → IsDay t
    → (day_in_year t.month t.day < days_before (march_month t.month + 1))
      × (day_in_year t.month t.day ≤ 365)
      × (day_in_year t.month t.day ≡ 365 → (t.month ≡ 2) × (is_leap t.year ≡ true))
in_month t v = ground (arith, v.month_in, v.day_in)

leap_fits :
    (y : ℕ)
    → is_leap y ≡ true
    → ((y + 4799) % 100 % 4 ≡ 3) × (((y + 4799) % 100 ≢ 99) ⊎ ((y + 4799) / 100 % 4 ≡ 3))
leap_fits y h = ground arith

abbrev pub march_year : Day → ℕ
march_year t = t.year + 4800 - early t.month

unfoldable pub number_of : Day → ℤ
number_of t = julian_day_number_of (pos t.year) (pos t.month) (pos t.day)

abbrev pub as_integers : Day → YearMonthDay
as_integers t = record { year = pos t.year; month = pos t.month; day = pos t.day }

pub after_epoch : (y : ℕ) → 4799 ≤ y → 32044 ≤ elapsed y
after_epoch y h = omega arith

pub number_of-elapsed :
    (t : Day)
    → IsDay t
    → number_of t ≡ pos (elapsed (march_year t) + day_in_year t.month t.day - 32044)
unfolding number_of
number_of-elapsed t v =
    julian_day_number_of-elapsed (pos t.year) (t.year + 4800) t.month t.day (+ℤ-pos t.year 4800)
      (omega arith) (omega (arith, v.month_in))
      (omega (arith, v.day_in, after_epoch (march_year t) (omega (arith, v.month_in))))
    ∙ ap pos (omega (arith, v.day_in, after_epoch (march_year t) (omega (arith, v.month_in))))

day-Fits :
    (t : Day) → IsDay t → Fits (march_year t / 100) (march_year t % 100) (day_in_year t.month t.day)
day-Fits t v = (omega arith, (in_month t v).1, λ q. leap_year (in_month t v).2 q)
  where
    leap_year :
        (day_in_year t.month t.day ≡ 365 → (t.month ≡ 2) × (is_leap t.year ≡ true))
        → day_in_year t.month t.day ≡ 365
        → (march_year t % 100 % 4 ≡ 3) × ((march_year t % 100 ≢ 99) ⊎ (march_year t / 100 % 4 ≡ 3))
    leap_year only q =
        let e : march_year t ≡ t.year + 4799 = omega (arith, (only q).0) in
        rw e (leap_fits t.year (only q).1)

pub elapsed-split : (y : ℕ) → elapsed y ≡ centuries (y / 100) + years (y % 100)
elapsed-split y =
    let e : y ≡ 100 * (y / 100) + y % 100 = omega arith in
    ap elapsed e ∙ elapsed-centuries (y / 100) (y % 100) (omega arith)

year_back :
    (b d k y : ℕ) → b * 100 + d + k ≡ y + 4800 → pos (b * 100 + d) -ℤ pos 4800 +ℤ pos k ≡ pos y
year_back b d k y h = eq_of_parts _ _ (
    omega (
      arith,
      -ℤ_parts (pos (b * 100 + d)) (pos 4800),
      +ℤ_parts (pos (b * 100 + d) -ℤ pos 4800) (pos k),
    ))

-- The date of the number of a day of the calendar is that day.
pub get_year_month_day-number_of :
    (t : Day) → IsDay t → get_year_month_day (number_of t) ≡ as_integers t
unfolding get_year_month_day
get_year_month_day-number_of t v =
    let y = march_year t in
    let e = day_in_year t.month t.day in
    let b = y / 100 in
    let d = y % 100 in
    let split : elapsed y + e - 32044 + 32044 ≡ centuries b + (years d + e) =
      omega (arith, elapsed-split y, after_epoch y (omega (arith, v.month_in))) in
    let year_eq : pos (b * 100 + d) -ℤ pos 4800 +ℤ pos (march_month t.month / 10) ≡ pos t.year =
      year_back b d (march_month t.month / 10) t.year (omega (arith, v.month_in)) in
    let month_eq : march_month t.month + 3 - march_month t.month / 10 * 12 ≡ t.month =
      omega (arith, v.month_in) in
    let day_eq : t.day - 1 + 1 ≡ t.day = omega (arith, v.day_in) in
    rw
      (
        number_of-elapsed t v,
        +ℤ-pos (elapsed y + e - 32044) 32044,
        split,
        centuries_of-days b d e (day-Fits t v),
        years_of-days b d e (day-Fits t v),
        months_of-days b d (march_month t.month) (t.day - 1) (omega (arith, v.month_in))
            (in_month t v).0,
      )
      (λ i. record { year = year_eq i; month = pos (month_eq i); day = pos (day_eq i) })
