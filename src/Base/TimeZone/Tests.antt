-- ===== src/Base/TimeZone/Tests.antt =====
-- A zone with four changes, and times given to the theorems on src/base/TimeZone.cc.
use czy_net_frame.Common.{ℕ, ◌+◌, ◌≡◌, refl, true, false, some, [], ◌∷◌, arith, pos, negsuc}
use czy_net_frame.Base.Date.Calendar.{day_of}
use czy_net_frame.Base.TimeZone.{break_time, from_utc_time, Transition, LocalTime, Data}
use czy_net_frame.Base.TimeZone.Seconds.{from_utc_time-break_time}
use czy_net_frame.Base.TimeZone.Civil.{civil, break_time-from_utc_time}
use czy_net_frame.Base.TimeZone.File.{File, read_to_end}
use czy_net_frame.Base.TimeZone.Bytes.{read_to_end-rest}

-- Standard time 8 hours east of UTC, and one hour more in summer.
abbrev pub standard : LocalTime
standard = record { utc_offset = pos 28800; is_dst = false; desig_idx = 0 }

abbrev pub summer : LocalTime
summer = record { utc_offset = pos 32400; is_dst = true; desig_idx = 4 }

abbrev pub change : ℕ → ℕ → ℕ → Transition
change at off i = record { utctime = pos at; localtime = pos (at + off); localtime_idx = i }

-- The changes of 1990 and 1991.
abbrev pub shanghai : Data
shanghai = record {
  transitions =
      change 640112400 32400 1
      ∷ change 653418000 28800 0
      ∷ change 671562000 32400 1
      ∷ change 684867600 28800 0
      ∷ [];
  localtimes = standard ∷ summer ∷ [];
  abbreviation = 67 ∷ 83 ∷ 84 ∷ 0 ∷ 67 ∷ 68 ∷ 84 ∷ 0 ∷ [];
  tzstring = 10 ∷ 67 ∷ 83 ∷ 84 ∷ 45 ∷ 56 ∷ 10 ∷ [];
}

-- A second before 1970.
from_utc_time-break_time_example : from_utc_time (break_time (negsuc 0)) ≡ negsuc 0
from_utc_time-break_time_example = from_utc_time-break_time (negsuc 0) (omega arith) (omega arith)

-- The last second of a leap day.
break_time-from_utc_time_example :
    break_time (from_utc_time (civil (day_of 2000 2 29) 23 59 59))
    ≡ civil (day_of 2000 2 29) 23 59 59
break_time-from_utc_time_example =
    break_time-from_utc_time (day_of 2000 2 29) 23 59 59 (omega arith) (omega arith) (omega arith)
      (omega arith) (omega arith)

abbrev three_bytes : File
three_bytes = record { bytes = 7 ∷ 8 ∷ 9 ∷ []; position = 1 }

read_to_end-rest_example : (g : File) × (read_to_end three_bytes ≡ some (8 ∷ 9 ∷ [], g))
read_to_end-rest_example = read_to_end-rest three_bytes (8 ∷ 9 ∷ []) refl
