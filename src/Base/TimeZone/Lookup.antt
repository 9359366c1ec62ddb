-- ===== src/Base/TimeZone/Lookup.antt =====
-- The two searches of `TimeZone::Data`, and the conversions between local time and UTC, in
-- src/base/TimeZone.cc.
pub mod Bounds
pub mod Periods
pub mod Local
pub mod Total
pub mod Tests
use czy_net_frame.Common.{
  ℕ, zero, suc, ◌+◌, ◌-◌, ◌*◌, ◌/◌, ◌%◌, ◌^◌, ◌≤◌, ◌<◌, min, max, ◌≡◌, refl, sym, ap, ap₂, ◌∙◌,
  subst, ◌≢◌, ◌↔◌, ◌⊎◌, inl, inr, Bool, true, false, not, ◌&&◌, ◌||◌, Option, none, some, List, [],
  ◌∷◌, ◌++◌, map, append_assoc, append-nil, arith, ltb, leb, ◌==◌, if◌then◌else◌, ltb→lt, lt→ltb,
  le→ltb, ltb→le, leb→le, lt→leb, le→leb, Bool-cases, Option-cases, ==→eq, ==→ne, leb-suc, leb→lt,
  length, get_elem?, set, take, drop, replicate, reverse_onto, All, length-append, length-take,
  length-drop, length-replicate, take-append-drop, take-append, drop-append, take_all, drop_all,
  take-length_append, drop-length_append, drop-append_add, length-append₃, All-append,
  length-reverse_onto, get_elem?-some, ◌>>=◌, ◌>>◌, assert, >>=-eq-done, Exception, Outcome, done,
  assert_failed, aborted, undefined, thrown, length_error, bad_function_call, out_of_range,
  logic_error, update, update_self, update_ne, ==_refl, ne→==, magnitude, neg, is_negative,
  pos_part, neg_part, sub_ℕ, ◌+ℤ◌, ◌-ℤ◌, ◌*ℤ◌, quot, rem, ltb_ℤ, leb_ℤ, ◌≤ℤ◌, ◌<ℤ◌, +ℤ_parts,
  -ℤ_parts, *ℤ_parts, one_part, eq_of_parts, sub_ℕ-le, sub_ℕ-lt, +ℤ_assoc, +ℤ-sub, +ℤ-pos, -ℤ-pos,
  *ℤ-pos, signed_32, to_int_32, neg_parts, ℤ, pos, negsuc,
}
use czy_net_frame.Base.TimeZone.{
  DateTime, break_time, from_utc_time, Transition, LocalTime, Data, no_data, add_local_time,
}

-- One round of `std::upper_bound` at the element in the middle: on to the left or to the right.
abbrev pub upper_step {ℓ} : {A : Type ℓ} → (A → Bool) → Option A → Option ℕ → Option ℕ → Option ℕ
upper_step later none left right = none
upper_step later (some x) left right = if later x then left else right

-- `std::upper_bound`, which halves the stretch from `first` on. `later` says of an element that the
-- value comes before it. `none` is fuel that ran out, or an element that is not there.
pub upper_loop {ℓ} : {A : Type ℓ} → ℕ → (A → Bool) → List A → ℕ → ℕ → Option ℕ
upper_loop zero later xs first len = none
upper_loop (suc fuel) later xs first len =
    let left = upper_loop fuel later xs first (len / 2) in
    let right = upper_loop fuel later xs (first + len / 2 + 1) (len - len / 2 - 1) in
    let rounds = upper_step later (get_elem? xs (first + len / 2)) left right in
    if len == 0 then some first else rounds

-- The comparison with an element: `CompareUtcTime` and `CompareLocalTime` with the sentry on the left.
abbrev pub later_utc : ℤ → Transition → Bool
later_utc utc_time t = ltb_ℤ utc_time t.utctime

abbrev pub later_local : ℤ → Transition → Bool
later_local localtime t = ltb_ℤ localtime t.localtime

-- An element of a vector, which is undefined out of range.
pub element {ℓ} : {A : Type ℓ} → Option A → Outcome A
element none = undefined
element (some a) = done a

pub upper_bound {ℓ} : {A : Type ℓ} → (A → Bool) → List A → Outcome ℕ
upper_bound later xs = element (upper_loop (suc (length xs)) later xs 0 (length xs))

-- `localtimes[transitions[i].localtimeIdx]`.
pub type_at : Data → ℕ → Outcome LocalTime
type_at d i = do
  t ← element (get_elem? d.transitions i)
  element (get_elem? d.localtimes t.localtime_idx)

-- The test of the first `if` of both searches.
pub is_before_all : (Transition → Bool) → List Transition → Bool
is_before_all later [] = true
is_before_all later (t ∷ ts) = later t

-- `localtimes.front()`.
pub front_type : Data → Outcome LocalTime
front_type d = element (get_elem? d.localtimes 0)

-- The rest of the search by UTC, from the assertion on.
pub found_utc : Data → ℕ → Outcome LocalTime
found_utc d i =
    assert (not (i == 0))
    >> (if not (i == length d.transitions)
        then type_at d (i - 1)
        else type_at d (length d.transitions - 1))

-- `findLocalTime(utcTime)`.
pub find_local_time_utc : ℤ → Data → Outcome LocalTime
find_local_time_utc utc_time d =
    if is_before_all (later_utc utc_time) d.transitions
    then front_type d
    else upper_bound (later_utc utc_time) d.transitions >>= found_utc d

-- The last local second before transition `i`, by the type that ends there.
pub prior_second : Data → Transition → Transition → Outcome ℤ
prior_second d at prior = do
  lt ← element (get_elem? d.localtimes prior.localtime_idx)
  done (at.utctime -ℤ pos 1 +ℤ lt.utc_offset)

-- The transition that the test for a repeated time looks back to: transition `i` is the first, or
-- there is one before it.
pub look_back : Data → ℕ → Transition → Transition → ℤ → Outcome (Transition × ℤ)
look_back d zero at prior second = done (prior, second)
look_back d (suc i) at prior second = do
  p ← element (get_elem? d.transitions i)
  s ← prior_second d at p
  done (p, s)

abbrev pub choose : Data → Bool → Transition → Transition → Outcome LocalTime
choose d post_transition at prior =
    element
      (get_elem? d.localtimes (if post_transition then at.localtime_idx else prior.localtime_idx))

-- From `--transI` on, with the transition at `i`.
pub repeated_or_unique : ℤ → Bool → Data → ℕ → Transition → ℤ → Outcome LocalTime
repeated_or_unique localtime post_transition d i at second = do
  b ← look_back d i at at second
  if leb_ℤ localtime b.1
      then choose d post_transition at b.0
      else element (get_elem? d.localtimes at.localtime_idx)

-- The rest of the search by local time, from the assertion on. `i` is not 0 behind it.
pub found_local : ℤ → Bool → Data → ℕ → Outcome LocalTime
found_local localtime post_transition d i =
    assert (not (i == 0))
    >> (if i == length d.transitions then type_at d (length d.transitions - 1) else do
      prior ← element (get_elem? d.transitions (i - 1))
      at ← element (get_elem? d.transitions i)
      second ← prior_second d at prior
      if ltb_ℤ second localtime
          then choose d post_transition at prior
          else repeated_or_unique localtime post_transition d (i - 1) prior second)

-- `findLocalTime(lt, postTransition)` from the first `if` on.
pub search_local : ℤ → Bool → Data → Outcome LocalTime
search_local localtime post_transition d =
    if is_before_all (later_local localtime) d.transitions
    then front_type d
    else upper_bound (later_local localtime) d.transitions
      >>= found_local localtime post_transition d

pub find_local_time_local : DateTime → Bool → Data → Outcome LocalTime
find_local_time_local lt post_transition d = search_local (from_utc_time lt) post_transition d

-- A zone is its data, or none for an invalid zone, of which `assert(data_ != NULL)` fails.
pub valid_data : Option Data → Outcome Data
valid_data none = assert_failed
valid_data (some d) = done d

-- `toLocalTime`, with the offset that it hands out.
pub to_local_time : Option Data → ℤ → Outcome (DateTime × ℤ)
to_local_time zone seconds = do
  d ← valid_data zone
  local ← find_local_time_utc seconds d
  done (break_time (seconds +ℤ local.utc_offset), local.utc_offset)

-- `fromLocalTime`. What is found is never null.
pub from_local_time : Option Data → DateTime → Bool → Outcome ℤ
from_local_time zone localtime post_transition = do
  d ← valid_data zone
  local ← find_local_time_local localtime post_transition d
  done (from_utc_time localtime -ℤ local.utc_offset)

-- `TimeZone(eastOfUtc, name)`, and `UTC`.
pub fixed_zone : ℤ → List ℕ → Data
fixed_zone east_of_utc name = record (add_local_time east_of_utc false 0 no_data) {
  abbreviation = name;
}

pub utc : Data
utc = fixed_zone (pos 0) (85 ∷ 84 ∷ 67 ∷ [])

-- `toUtcTime`.
pub to_utc_time : ℤ → DateTime
to_utc_time seconds_since_epoch = break_time seconds_since_epoch
