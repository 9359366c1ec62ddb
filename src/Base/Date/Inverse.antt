-- ===== src/Base/Date/Inverse.antt =====
-- `getYearMonthDay` of src/base/Date.cc on every day from number 0 on, which is in 4713 BC.
use native.Mathlib.Decide.{ℕ_discrete}
use czy_net_frame.Common.{
  ℕ, ◌+◌, ◌-◌, ◌*◌, ◌/◌, ◌%◌, ◌≤◌, ◌<◌, ◌≡◌, ap, ◌∙◌, ◌≢◌, ◌⊎◌, inl, inr, arith, ◌+ℤ◌, ◌-ℤ◌,
  +ℤ_parts, -ℤ_parts, eq_of_parts, +ℤ-pos, ℤ, pos,
}
use czy_net_frame.Base.Date.{YearMonthDay, julian_day_number_of, centuries_of, get_year_month_day}
use czy_net_frame.Base.Date.Shifted.{
  days_before, centuries, years, elapsed, elapsed-centuries, Fits,
}
use czy_net_frame.Base.Date.Days.{
  early, march_month, julian_day_number_of-elapsed, months_of-days, years_of-days,
  centuries_of-days,
}

-- A number of days, taken apart.
record Parts (a : ℕ) : Type 0 where
  b : ℕ
  d : ℕ
  m : ℕ
  k : ℕ
  whole : a ≡ centuries b + (years d + (days_before m + k))
  fits : Fits b d (days_before m + k)
  in_year : m ≤ 11
  in_month : days_before m + k < days_before (m + 1)

century_part :
    (a : ℕ)
    → let b = (4 * a + 3) / 146097 in
      (centuries b ≤ a) × (a - centuries b ≤ 36524) × (a - centuries b ≡ 36524 → b % 4 ≡ 3)
century_part a = (omega arith, omega arith, λ q. omega arith)

year_part :
    (c : ℕ)
    → c ≤ 36524
    → let d = (4 * c + 3) / 1461 in
      (years d ≤ c) × (d < 100) × (c - years d ≤ 365) × (c - years d ≡ 365 → d % 4 ≡ 3)
year_part c h = (omega arith, omega arith, omega arith, λ q. omega arith)

month_part :
    (e : ℕ)
    → e ≤ 365
    → let m = (5 * e + 2) / 153 in (days_before m ≤ e) × (m ≤ 11) × (e < days_before (m + 1))
month_part e h = (omega arith, omega arith, omega arith)

century_end :
    (b d c e : ℕ) → (c ≡ 36524 → b % 4 ≡ 3) → e ≡ 365 → c ≡ years d + e → (d ≢ 99) ⊎ (b % 4 ≡ 3)
century_end b d c e last q s = elim (ℕ_discrete d 99) [
  | yes r ↦ inr (last (omega (arith, q, r, s)))
  | no ne ↦ inl ne
]

to_Parts : (a : ℕ) → Parts a
to_Parts a =
    let b = (4 * a + 3) / 146097 in
    let c = a - centuries b in
    let d = (4 * c + 3) / 1461 in
    let e = c - years d in
    let m = (5 * e + 2) / 153 in
    let h = century_part a in
    let g = year_part c h.1 in
    let f = month_part e g.2 in
    let same : days_before m + (e - days_before m) ≡ e = omega (arith, f.0) in
    record {
      b = b;
      d = d;
      m = m;
      k = e - days_before m;
      whole = rw same (omega (arith, h.0, g.0));
      fits = rw same (g.1, g.2, λ q. (g.3 q, century_end b d c e h.2 q (omega (arith, g.0))));
      in_year = f.1;
      in_month = rw same f.2;
    }

-- The number of the day that three integers name.
unfoldable pub number_of_fields : YearMonthDay → ℤ
unfolding julian_day_number_of
number_of_fields r = julian_day_number_of r.year r.month r.day

abbrev year_of : {a : ℕ} → Parts a → ℤ
year_of p = pos (p.b * 100 + p.d) -ℤ pos 4800 +ℤ pos (p.m / 10)

abbrev civil_month : ℕ → ℕ
civil_month m = m + 3 - m / 10 * 12

get_year_month_day-Parts :
    (n : ℕ) (p : Parts (n + 32044))
    → get_year_month_day (pos n)
      ≡ (record { year = year_of p; month = pos (civil_month p.m); day = pos (p.k + 1) })
unfolding get_year_month_day
get_year_month_day-Parts n p =
    let e = days_before p.m + p.k in
    ap centuries_of (+ℤ-pos n 32044 ∙ ap pos p.whole)
    ∙ centuries_of-days p.b p.d e p.fits
    ∙ years_of-days p.b p.d e p.fits
    ∙ months_of-days p.b p.d p.m p.k p.in_year p.in_month

-- The months and the year that the number is computed from are the parts.
same_month : (m : ℕ) → m ≤ 11 → march_month (civil_month m) ≡ m
same_month m h = omega arith

same_early : (m : ℕ) → m ≤ 11 → early (civil_month m) ≡ m / 10
same_early m h = omega arith

number_of-Parts :
    (n : ℕ) (p : Parts (n + 32044))
    → julian_day_number_of (year_of p) (pos (civil_month p.m)) (pos (p.k + 1)) ≡ pos n
number_of-Parts n p =
    let y = p.b * 100 + p.d in
    let w = y + p.m / 10 in
    let same : w - early (civil_month p.m) ≡ 100 * p.b + p.d =
      omega (arith, same_early p.m p.in_year) in
    let sum : p.k
          + 1
          + days_before (march_month (civil_month p.m))
          + elapsed (w - early (civil_month p.m))
        ≡ n + 32045 =
      omega (
        arith,
        ap days_before (same_month p.m p.in_year),
        ap elapsed same,
        elapsed-centuries p.b p.d p.fits.0,
        p.whole,
      ) in
    julian_day_number_of-elapsed (year_of p) w (civil_month p.m) (p.k + 1)
      (eq_of_parts _ _ (
        omega (
          arith,
          -ℤ_parts (pos y) (pos 4800),
          +ℤ_parts (pos y -ℤ pos 4800) (pos (p.m / 10)),
          +ℤ_parts (year_of p) (pos 4800),
        )))
      (omega (arith, p.whole, p.fits)) (omega (arith, p.in_year)) (omega (arith, sum))
    ∙ ap pos (omega (arith, sum))

-- The number of the date of a number is that number.
pub number_of_fields-get_year_month_day :
    (n : ℕ) → number_of_fields (get_year_month_day (pos n)) ≡ pos n
unfolding number_of_fields
number_of_fields-get_year_month_day n =
    ap number_of_fields (get_year_month_day-Parts n (to_Parts (n + 32044)))
    ∙ number_of-Parts n (to_Parts (n + 32044))
