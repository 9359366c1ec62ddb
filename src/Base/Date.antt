-- ===== src/Base/Date.antt =====
-- Days and dates: src/base/Date.h and src/base/Date.cc.
-- `get_julian_day_number` looks at each `int` on the way. The other integers are exact; the code's
-- `int` holds every value that is computed while the number of the day is below 2 ^ 29 - 32046,
-- which is after the year 1460000.
pub mod Calendar
pub mod Shifted
pub mod Days
pub mod Next
pub mod Inverse
pub mod Tests
use czy_net_frame.Common.{
  ℕ, zero, suc, ◌+◌, ◌-◌, ◌*◌, ◌/◌, ◌%◌, ◌^◌, ◌≤◌, ◌<◌, min, max, ◌≡◌, refl, sym, ap, ap₂, ◌∙◌,
  subst, ◌≢◌, ◌↔◌, ◌⊎◌, inl, inr, Bool, true, false, not, ◌&&◌, ◌||◌, Option, none, some, List, [],
  ◌∷◌, ◌++◌, map, append_assoc, append-nil, arith, ltb, leb, ◌==◌, if◌then◌else◌, ltb→lt, lt→ltb,
  le→ltb, ltb→le, leb→le, lt→leb, le→leb, Bool-cases, Option-cases, ==→eq, ==→ne, leb-suc, leb→lt,
  length, get_elem?, set, take, drop, replicate, reverse_onto, All, length-append, length-take,
  length-drop, length-replicate, take-append-drop, take-append, drop-append, take_all, drop_all,
  take-length_append, drop-length_append, drop-append_add, length-append₃, All-append,
  length-reverse_onto, get_elem?-some, get_elem?-lt, length-map, ◌>>=◌, ◌>>◌, assert, >>=-eq-done,
  Ensures, Ensures->>=, Ensures-done, done-injective, Exception, Outcome, done, assert_failed,
  aborted, undefined, thrown, length_error, bad_function_call, out_of_range, logic_error, update,
  update_self, update_ne, ==_refl, ne→==, magnitude, neg, is_negative, pos_part, neg_part, sub_ℕ,
  ◌+ℤ◌, ◌-ℤ◌, ◌*ℤ◌, quot, rem, ltb_ℤ, leb_ℤ, ◌≤ℤ◌, ◌<ℤ◌, +ℤ_parts, -ℤ_parts, *ℤ_parts, one_part,
  eq_of_parts, sub_ℕ-le, sub_ℕ-lt, +ℤ_assoc, +ℤ-sub, +ℤ-pos, -ℤ-pos, *ℤ-pos, signed_32, is_int,
  to_int_32, neg_parts, is_int-small, +ℤ-le, -ℤ-le, *ℤ-le, ℤ, pos, negsuc,
}

-- `Date::YearMonthDay`.
pub record YearMonthDay : Type 0 where
  pub year : ℤ
  pub month : ℤ
  pub day : ℤ

-- The value of `getJulianDayNumber` where each `int` in it holds its value. `a` is 1 in January and
-- February, and 0 in the other months.
unfoldable pub julian_day_number_of : ℤ → ℤ → ℤ → ℤ
julian_day_number_of year month day =
    let a = quot (pos 14 -ℤ month) 12 in
    let y = year +ℤ pos 4800 -ℤ a in
    let m = month +ℤ a *ℤ 12 -ℤ pos 3 in
    day
    +ℤ quot (m *ℤ 153 +ℤ pos 2) 5
    +ℤ y *ℤ 365
    +ℤ quot y 4
    -ℤ quot y 100
    +ℤ quot y 400
    -ℤ pos 32045

-- What the `int`s of `getJulianDayNumber` hold, in the order in which they are computed.
unfoldable pub julian_day_terms : ℤ → ℤ → ℤ → List ℤ
julian_day_terms year month day =
    let a = quot (pos 14 -ℤ month) 12 in
    let y = year +ℤ pos 4800 -ℤ a in
    let m = month +ℤ a *ℤ 12 -ℤ pos 3 in
    let months = day +ℤ quot (m *ℤ 153 +ℤ pos 2) 5 in
    let years = months +ℤ y *ℤ 365 +ℤ quot y 4 in
    (pos 14 -ℤ month)
    ∷ (year +ℤ pos 4800)
    ∷ y
    ∷ (a *ℤ 12)
    ∷ (month +ℤ a *ℤ 12)
    ∷ m
    ∷ (m *ℤ 153)
    ∷ (m *ℤ 153 +ℤ pos 2)
    ∷ months
    ∷ (y *ℤ 365)
    ∷ (months +ℤ y *ℤ 365)
    ∷ years
    ∷ (years -ℤ quot y 100)
    ∷ (years -ℤ quot y 100 +ℤ quot y 400)
    ∷ (years -ℤ quot y 100 +ℤ quot y 400 -ℤ pos 32045)
    ∷ []

abbrev pub are_ints : List ℤ → Bool
are_ints [] = true
are_ints (z ∷ zs) = is_int z && are_ints zs

-- An `int` that overflows is undefined.
unfoldable pub get_julian_day_number : ℤ → ℤ → ℤ → Outcome ℤ
get_julian_day_number year month day =
    if are_ints (julian_day_terms year month day)
    then done (julian_day_number_of year month day)
    else undefined

-- The lines of `getYearMonthDay` from `m` on, then from `d` on, then from `b` on.
unfoldable pub months_of : ℤ → ℤ → ℤ → YearMonthDay
months_of b d e =
    let m = quot (e *ℤ 5 +ℤ pos 2) 153 in
    record {
      year = b *ℤ 100 +ℤ d -ℤ pos 4800 +ℤ quot m 10;
      month = m +ℤ pos 3 -ℤ quot m 10 *ℤ 12;
      day = e -ℤ quot (m *ℤ 153 +ℤ pos 2) 5 +ℤ pos 1;
    }

unfoldable pub years_of : ℤ → ℤ → YearMonthDay
unfolding months_of
years_of b c = let d = quot (c *ℤ 4 +ℤ pos 3) 1461 in months_of b d (c -ℤ quot (d *ℤ 1461) 4)

unfoldable pub centuries_of : ℤ → YearMonthDay
unfolding years_of
centuries_of a = let b = quot (a *ℤ 4 +ℤ pos 3) 146097 in years_of b (a -ℤ quot (b *ℤ 146097) 4)

unfoldable pub get_year_month_day : ℤ → YearMonthDay
unfolding centuries_of
get_year_month_day julian_day_number = centuries_of (julian_day_number +ℤ pos 32044)

-- `Date::kJulianDayOf1970_01_01`.
unfoldable pub julian_day_of_1970_01_01 : ℤ
unfolding julian_day_number_of
julian_day_of_1970_01_01 = julian_day_number_of (pos 1970) (pos 1) (pos 1)

-- A `Date` is the number of its day.
pub record Date : Type 0 where
  pub julian_day_number : ℤ

unfoldable pub of_year_month_day : ℤ → ℤ → ℤ → Date
unfolding julian_day_number_of
of_year_month_day y m d = record { julian_day_number = julian_day_number_of y m d }

unfoldable pub year_month_day : Date → YearMonthDay
unfolding get_year_month_day
year_month_day t = get_year_month_day t.julian_day_number

pub valid : Date → Bool
valid t = ltb_ℤ (pos 0) t.julian_day_number

-- From 0 for Sunday to 6 for Saturday.
pub week_day : Date → ℤ
week_day t = rem (t.julian_day_number +ℤ pos 1) 7

-- `operator<`.
pub is_before : Date → Date → Bool
is_before x y = ltb_ℤ x.julian_day_number y.julian_day_number
