-- ===== src/Base/Date/Calendar.antt =====
-- The Gregorian calendar itself, as the measure of src/base/Date.cc: its leap years, the lengths of
-- its months, and the day that follows a day.
use czy_net_frame.Common.{ℕ, ◌+◌, ◌%◌, ◌≤◌, ◌<◌, Bool, not, ◌&&◌, ◌||◌, leb, ◌==◌, if◌then◌else◌}

abbrev pub is_leap : ℕ → Bool
is_leap y = (y % 4 == 0) && (not (y % 100 == 0) || (y % 400 == 0))

-- April, June, September and November.
abbrev is_short : ℕ → Bool
is_short m = (m == 9) || ((m == 4) || ((m == 6) || (m == 11)))

abbrev february : ℕ → ℕ
february y = if is_leap y then 29 else 28

abbrev pub days_in_month : ℕ → ℕ → ℕ
days_in_month y m = if is_short m then 30 else (if m == 2 then february y else 31)

pub record Day : Type 0 where
  pub year : ℕ
  pub month : ℕ
  pub day : ℕ

abbrev pub day_of : ℕ → ℕ → ℕ → Day
day_of y m d = record { year = y; month = m; day = d }

pub record IsDay (t : Day) : Type 0 where
  pub day_in : (0 < t.day) × (t.day ≤ days_in_month t.year t.month)
  pub month_in : (0 < t.month) × (t.month < 13)

-- Is it the last day of its month, of its year?
abbrev pub ends_month : Day → Bool
ends_month t = leb (days_in_month t.year t.month) t.day

abbrev pub next_day : Day → Day
next_day t =
    let first = if t.month == 12 then day_of (t.year + 1) 1 1 else day_of t.year (t.month + 1) 1 in
    if ends_month t then first else day_of t.year t.month (t.day + 1)
