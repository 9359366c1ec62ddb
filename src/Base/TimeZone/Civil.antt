-- ===== src/Base/TimeZone/Civil.antt =====
-- From times of the calendar and the clock to seconds of src/base/TimeZone.cc, and back.
use czy_net_frame.Common.{
  ℕ, ◌+◌, ◌-◌, ◌*◌, ◌/◌, ◌%◌, ◌≤◌, ◌<◌, ◌≡◌, refl, sym, ap, ap₂, ◌∙◌, arith, pos_part, neg_part,
  ◌+ℤ◌, +ℤ_parts, ℤ, pos,
}
use czy_net_frame.Base.Date.{get_year_month_day}
use czy_net_frame.Base.Date.Calendar.{Day, IsDay}
use czy_net_frame.Base.Date.Shifted.{elapsed}
use czy_net_frame.Base.Date.Days.{
  march_year, day_in_year, number_of-elapsed, in_month, number_of, as_integers,
  get_year_month_day-number_of,
}
use czy_net_frame.Base.TimeZone.{DateTime, fill_hms, break_time, from_utc_time}
use czy_net_frame.Base.TimeZone.Seconds.{
  to_1970, stamp, break_time-Split, seconds_of, seconds_of-pos, from_utc_time-stamp, Split,
}

-- A time of the calendar and the clock.
abbrev pub civil : Day → ℕ → ℕ → ℕ → DateTime
civil t h m s = record {
  year = pos t.year;
  month = pos t.month;
  day = pos t.day;
  hour = pos h;
  minute = pos m;
  second = pos s;
}

abbrev clock : ℕ → ℕ → ℕ → ℕ
clock h m s = h * 3600 + m * 60 + s

civil-stamp :
    (t : Day) (h m s n : ℕ)
    → IsDay t
    → m < 60
    → s < 60
    → number_of t ≡ pos n
    → stamp n (clock h m s) ≡ civil t h m s
unfolding stamp fill_hms
civil-stamp t h m s n v hm hs e =
    let date : get_year_month_day (pos n) ≡ as_integers t =
      ap get_year_month_day (sym e) ∙ get_year_month_day-number_of t v in
    let second : clock h m s % 60 ≡ s = omega arith in
    let minute : clock h m s / 60 % 60 ≡ m = omega arith in
    let hour : clock h m s / 60 / 60 ≡ h = omega arith in rw (date, second, minute, hour) refl

day_number :
    (t : Day) → IsDay t → t.year ≤ 1000000 → (n : ℕ) × (number_of t ≡ pos n) × (n < 400000000)
day_number t v small = (
  elapsed (march_year t) + day_in_year t.month t.day - 32044,
  number_of-elapsed t v,
  omega (arith, (in_month t v).1, v.month_in),
)

-- fromUtcTime of a day of the calendar and a time of the clock, up to the year 1000000, is a
-- second that BreakTime turns back into that day and time.
pub break_time-from_utc_time :
    (t : Day) (h m s : ℕ)
    → IsDay t
    → t.year ≤ 1000000
    → h < 24
    → m < 60
    → s < 60
    → break_time (from_utc_time (civil t h m s)) ≡ civil t h m s
break_time-from_utc_time t h m s v small hh hm hs =
    w.stamped ∙ ap₂ stamp same_day same_second ∙ civil-stamp t h m s n v hm hs number.1
  where
    number : (n : ℕ) × (number_of t ≡ pos n) × (n < 400000000)
    number = day_number t v small

    n : ℕ
    n = number.0

    at : ℤ
    at = seconds_of (pos n) (clock h m s)

    at_eq : from_utc_time (civil t h m s) ≡ at
    at_eq =
        ap from_utc_time (sym (civil-stamp t h m s n v hm hs number.1))
        ∙ from_utc_time-stamp n (clock h m s)

    sum : from_utc_time (civil t h m s) +ℤ pos to_1970 ≡ pos (n * 86400 + clock h m s)
    sum = ap (λ z. z +ℤ pos to_1970) at_eq ∙ seconds_of-pos n (clock h m s)

    w : Split (from_utc_time (civil t h m s))
    w =
        break_time-Split _
          (omega (
            arith,
            +ℤ_parts (from_utc_time (civil t h m s)) (pos to_1970),
            ap pos_part sum,
            ap neg_part sum,
            number.2,
          ))
          (omega (
            arith,
            +ℤ_parts (from_utc_time (civil t h m s)) (pos to_1970),
            ap pos_part sum,
            ap neg_part sum,
            number.2,
          ))

    same : w.day * 86400 + w.second ≡ n * 86400 + clock h m s
    same = omega (arith, ap pos_part (sym w.sum ∙ sum))

    same_day : w.day ≡ n
    same_day = omega (arith, same, w.in_day, hh, hm, hs)

    same_second : w.second ≡ clock h m s
    same_second = omega (arith, same, w.in_day, hh, hm, hs)
