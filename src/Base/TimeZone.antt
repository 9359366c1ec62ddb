-- ===== src/Base/TimeZone.antt =====
-- The calendar time and the data of a zone in src/base/TimeZone.h and src/base/TimeZone.cc.
-- The integers are exact but for the casts to int, which are written out. The fields of a time that
-- the code computes stay far inside of an int, and seconds inside of 64 bits.
pub mod Seconds
pub mod Civil
pub mod File
pub mod Bytes
pub mod Reading
pub mod Lookup
pub mod Tests
use czy_net_frame.Common.{
  ℕ, zero, suc, ◌+◌, ◌-◌, ◌*◌, ◌/◌, ◌%◌, ◌^◌, ◌≤◌, ◌<◌, min, max, ◌≡◌, refl, sym, ap, ap₂, ◌∙◌,
  subst, ◌≢◌, ◌↔◌, ◌⊎◌, inl, inr, Bool, true, false, not, ◌&&◌, ◌||◌, Option, none, some, List, [],
  ◌∷◌, ◌++◌, map, append_assoc, append-nil, arith, ltb, leb, ◌==◌, if◌then◌else◌, ltb→lt, lt→ltb,
  le→ltb, ltb→le, leb→le, lt→leb, le→leb, Bool-cases, Option-cases, length, get_elem?, set, take,
  drop, replicate, reverse_onto, All, length-append, length-take, length-drop, length-replicate,
  take-append-drop, take-append, drop-append, take_all, drop_all, take-length_append,
  drop-length_append, drop-append_add, length-append₃, All-append, length-reverse_onto, ◌>>=◌, ◌>>◌,
  assert, >>=-eq-done, Exception, Outcome, done, assert_failed, aborted, undefined, thrown,
  length_error, bad_function_call, out_of_range, logic_error, update, update_self, update_ne,
  ==_refl, ne→==, magnitude, neg, is_negative, pos_part, neg_part, sub_ℕ, ◌+ℤ◌, ◌-ℤ◌, ◌*ℤ◌, quot,
  rem, ltb_ℤ, leb_ℤ, ◌≤ℤ◌, ◌<ℤ◌, +ℤ_parts, -ℤ_parts, *ℤ_parts, one_part, eq_of_parts, sub_ℕ-le,
  sub_ℕ-lt, +ℤ_assoc, +ℤ-sub, +ℤ-pos, -ℤ-pos, *ℤ-pos, signed_32, to_int_32, ℤ, pos, negsuc,
}
use czy_net_frame.Base.Date.{
  YearMonthDay, Date, of_year_month_day, year_month_day, julian_day_of_1970_01_01,
}

pub record DateTime : Type 0 where
  pub year : ℤ
  pub month : ℤ
  pub day : ℤ
  pub hour : ℤ
  pub minute : ℤ
  pub second : ℤ

-- `kSecondsPerDay`.
abbrev pub seconds_per_day : ℕ
seconds_per_day = 86400

-- `fillHMS` writes three fields and leaves the others.
pub fill_hms : ℕ → DateTime → DateTime
fill_hms seconds dt = record dt {
  second = pos (seconds % 60);
  minute = pos (seconds / 60 % 60);
  hour = pos (seconds / 60 / 60);
}

-- The fields before they are set.
abbrev pub no_time : DateTime
no_time = record {
  year = pos 0;
  month = pos 0;
  day = pos 0;
  hour = pos 0;
  minute = pos 0;
  second = pos 0;
}

set_date : YearMonthDay → DateTime → DateTime
set_date ymd dt = record dt { year = ymd.year; month = ymd.month; day = ymd.day }

-- The lines of `BreakTime` behind the `if`. The seconds are not negative there.
pub time_on : ℤ → ℤ → DateTime
unfolding set_date
time_on seconds days =
    set_date (year_month_day (record { julian_day_number = days +ℤ julian_day_of_1970_01_01 }))
      (fill_hms (pos_part seconds) no_time)

-- What is negative is moved to the day before.
pub break_days : ℤ → ℤ → DateTime
break_days seconds days =
    if ltb_ℤ seconds (pos 0)
    then time_on (seconds +ℤ pos seconds_per_day) (days -ℤ pos 1)
    else time_on seconds days

pub break_time : ℤ → DateTime
break_time t = break_days (to_int_32 (rem t seconds_per_day)) (to_int_32 (quot t seconds_per_day))

pub from_utc_time : DateTime → ℤ
from_utc_time dt =
    let date = of_year_month_day dt.year dt.month dt.day in
    let seconds_in_day = dt.hour *ℤ 3600 +ℤ dt.minute *ℤ 60 +ℤ dt.second in
    let days = date.julian_day_number -ℤ julian_day_of_1970_01_01 in
    days *ℤ seconds_per_day +ℤ seconds_in_day

pub record Transition : Type 0 where
  pub utctime : ℤ
  pub localtime : ℤ
  pub localtime_idx : ℕ

pub record LocalTime : Type 0 where
  pub utc_offset : ℤ
  pub is_dst : Bool
  pub desig_idx : ℕ

-- `TimeZone::Data`.
pub record Data : Type 0 where
  pub transitions : List Transition
  pub localtimes : List LocalTime
  pub abbreviation : List ℕ
  pub tzstring : List ℕ

abbrev pub no_data : Data
no_data = record { transitions = []; localtimes = []; abbreviation = []; tzstring = [] }

unfoldable pub add_local_time : ℤ → Bool → ℕ → Data → Data
add_local_time utc_offset is_dst desig_idx d = record d {
  localtimes =
      d.localtimes
      ++ record { utc_offset = utc_offset; is_dst = is_dst; desig_idx = desig_idx } ∷ [];
}

-- `at` throws where there is no such element.
unfoldable pub at_local_time : Option LocalTime → Outcome LocalTime
at_local_time none = thrown out_of_range
at_local_time (some lt) = done lt

unfoldable pub add_transition : ℤ → ℕ → Data → Outcome Data
unfolding at_local_time
add_transition utc_time localtime_idx d = do
  lt ← at_local_time (get_elem? d.localtimes localtime_idx)
  done (record d {
    transitions =
        d.transitions
        ++ record {
          utctime = utc_time;
          localtime = utc_time +ℤ lt.utc_offset;
          localtime_idx = localtime_idx;
        }
          ∷ [];
  })
