-- ===== src/Base/Date/Tests.antt =====
-- Days of the calendar, given to the theorems on src/base/Date.cc.
use czy_net_frame.Common.{◌≡◌, refl, true, arith, ℤ, done, undefined, ◌+ℤ◌, ◌-ℤ◌, ◌*ℤ◌, pos}
use czy_net_frame.Base.Date.{
  get_julian_day_number, julian_day_terms, get_year_month_day, valid, week_day, is_before,
  julian_day_of_1970_01_01, of_year_month_day,
}
use czy_net_frame.Base.Date.Calendar.{Day, IsDay, day_of}
use czy_net_frame.Base.Date.Next.{number, get_julian_day_number-next_day}
use czy_net_frame.Base.Date.Days.{number_of, as_integers, get_year_month_day-number_of}

abbrev leap_day : Day
leap_day = day_of 2000 2 29

leap_day-IsDay : IsDay leap_day
leap_day-IsDay = omega arith

epoch_number : julian_day_of_1970_01_01 ≡ pos 2440588
unfolding julian_day_of_1970_01_01 ◌+ℤ◌ ◌-ℤ◌ ◌*ℤ◌
epoch_number = refl

-- 1970-01-01 was a Thursday, and comes before 2000-01-01.
epoch_week_day :
    (week_day (of_year_month_day (pos 1970) (pos 1) (pos 1)) ≡ pos 4)
    × (valid (of_year_month_day (pos 1970) (pos 1) (pos 1)) ≡ true)
    × (is_before
          (of_year_month_day (pos 1970) (pos 1) (pos 1))
          (of_year_month_day (pos 2000) (pos 1) (pos 1))
        ≡ true)
unfolding week_day valid is_before of_year_month_day ◌+ℤ◌ ◌-ℤ◌ ◌*ℤ◌
epoch_week_day = (refl, refl, refl)

leap_day_back : get_year_month_day (number_of leap_day) ≡ as_integers leap_day
leap_day_back = get_year_month_day-number_of leap_day leap_day-IsDay

get_julian_day_number-next_day_example :
    (n : ℤ) × (number leap_day ≡ done n) × (number (day_of 2000 3 1) ≡ done (n +ℤ pos 1))
get_julian_day_number-next_day_example =
    get_julian_day_number-next_day leap_day leap_day-IsDay (omega arith)

-- A year whose product with 365 no `int` holds.
overflow : get_julian_day_number (pos 5880000) (pos 3) (pos 1) ≡ undefined
unfolding get_julian_day_number julian_day_terms ◌+ℤ◌ ◌-ℤ◌ ◌*ℤ◌
overflow = refl
