-- ===== src/Base/TimeZone/Lookup/Tests.antt =====
-- Times around the changes of a zone, given to the theorems on the searches of src/base/TimeZone.cc.
use czy_net_frame.Common.{
  ◌≡◌, refl, false, none, some, arith, get_elem?, done, assert_failed, undefined, pos,
}
use czy_net_frame.Base.TimeZone.{no_data, add_local_time}
use czy_net_frame.Base.TimeZone.Tests.{shanghai, summer}
use czy_net_frame.Base.TimeZone.Lookup.{
  later_utc, element, upper_loop, upper_bound, type_at, is_before_all, front_type, found_utc,
  find_local_time_utc, to_local_time, valid_data, fixed_zone, utc,
}
use czy_net_frame.Base.TimeZone.Lookup.Periods.{Ascending, in_force, find_local_time_utc-in_force}
use czy_net_frame.Base.TimeZone.Lookup.Local.{IsZone}

shanghai-IsZone : IsZone shanghai
unfolding Ascending
shanghai-IsZone = omega arith

find_local_time_utc-in_force_example :
    find_local_time_utc (pos 653418000) shanghai
    ≡ element (
        get_elem? shanghai.localtimes (in_force (later_utc (pos 653418000)) 0 shanghai.transitions))
find_local_time_utc-in_force_example =
    find_local_time_utc-in_force (pos 653418000) shanghai shanghai-IsZone.utc_order

summer_time : find_local_time_utc (pos 653416200) shanghai ≡ done summer
unfolding find_local_time_utc is_before_all upper_bound upper_loop found_utc type_at element
summer_time = refl

-- Half an hour before the end of the summer time of 1990, which is repeated.

utc_type :
    find_local_time_utc (pos 5) utc
    ≡ done (record { utc_offset = pos 0; is_dst = false; desig_idx = 0 })
unfolding find_local_time_utc is_before_all front_type element utc fixed_zone add_local_time
utc_type = refl

-- Where there is no type, `front` is undefined.
no_type : to_local_time (some no_data) (pos 0) ≡ undefined
unfolding to_local_time valid_data find_local_time_utc is_before_all front_type element
no_type = refl

-- An invalid zone ends in the assertion.
invalid_zone : to_local_time none (pos 0) ≡ assert_failed
unfolding to_local_time valid_data
invalid_zone = refl
