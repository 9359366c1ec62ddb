-- ===== src/Base/TimeZone/Seconds.antt =====
-- The seconds of src/base/TimeZone.cc against its calendar times.
use czy_net_frame.Common.{
  ℕ, zero, suc, ◌+◌, ◌-◌, ◌*◌, ◌/◌, ◌%◌, ◌≤◌, ◌<◌, ◌≡◌, refl, ap, ap₂, ◌∙◌, ◌⊎◌, inl, inr, true,
  false, arith, lt→ltb, le→ltb, neg, pos_part, neg_part, ◌+ℤ◌, ◌-ℤ◌, ◌*ℤ◌, ltb_ℤ, ◌≤ℤ◌, ◌<ℤ◌,
  +ℤ_parts, -ℤ_parts, *ℤ_parts, eq_of_parts, +ℤ-pos, to_int_32, neg_parts, ℤ, pos, negsuc,
}
use czy_net_frame.Base.Date.{
  of_year_month_day, year_month_day, julian_day_of_1970_01_01, get_year_month_day,
}
use czy_net_frame.Base.Date.Inverse.{number_of_fields, number_of_fields-get_year_month_day}
use czy_net_frame.Base.TimeZone.{
  DateTime, fill_hms, set_date, time_on, no_time, seconds_per_day, break_days, break_time,
  from_utc_time,
}

-- The seconds from day 0 to 1970.
abbrev pub to_1970 : ℕ
to_1970 = 210866803200

to_int_32-pos : (n : ℕ) → n < 2147483648 → to_int_32 (pos n) ≡ pos n
to_int_32-pos n h = ground arith

to_int_32-neg : (n : ℕ) → n < 2147483648 → to_int_32 (neg n) ≡ neg n
to_int_32-neg zero h = refl
to_int_32-neg (suc n) h = ground arith

first_day : julian_day_of_1970_01_01 ≡ pos 2440588
unfolding julian_day_of_1970_01_01 ◌+ℤ◌ ◌-ℤ◌ ◌*ℤ◌
first_day = refl

-- Day `n` at second `s`.
unfoldable pub stamp : ℕ → ℕ → DateTime
unfolding set_date
stamp n s = set_date (get_year_month_day (pos n)) (fill_hms s no_time)

time_on-stamp :
    (s n : ℕ) (days : ℤ) → days +ℤ pos 2440588 ≡ pos n → time_on (pos s) days ≡ stamp n s
unfolding time_on stamp year_month_day
time_on-stamp s n days h =
    ap (λ j. set_date (get_year_month_day j) (fill_hms s no_time))
      (ap (λ z. days +ℤ z) first_day ∙ h)

break_days-pos : (s q : ℕ) → break_days (pos s) (pos q) ≡ stamp (q + 2440588) s
unfolding break_days
break_days-pos s q =
    let p : ltb_ℤ (pos s) (pos 0) ≡ false = le→ltb _ _ (omega arith) in
    rw p (time_on-stamp s (q + 2440588) (pos q) (+ℤ-pos q 2440588))

break_days-neg :
    (r q : ℕ)
    → r < 86399
    → q < 2440588
    → break_days (negsuc r) (neg q) ≡ stamp (2440587 - q) (86399 - r)
unfolding break_days
break_days-neg r q high h =
    let p : ltb_ℤ (negsuc r) (pos 0) ≡ true = lt→ltb _ _ (omega arith) in
    rw p (
      ap (λ s. time_on s (neg q -ℤ pos 1))
        (eq_of_parts _ _ (omega (arith, +ℤ_parts (negsuc r) (pos 86400))))
      ∙ time_on-stamp (86399 - r) (2440587 - q) _ (
          eq_of_parts _ _ (
            omega (
              arith,
              neg_parts q,
              -ℤ_parts (neg q) (pos 1),
              +ℤ_parts (neg q -ℤ pos 1) (pos 2440588),
            ))))

break_days-whole : (q : ℕ) → q ≤ 2440588 → break_days (pos 0) (neg q) ≡ stamp (2440588 - q) 0
unfolding break_days
break_days-whole q h =
    time_on-stamp 0 (2440588 - q) _
      (eq_of_parts _ _ (omega (arith, neg_parts q, +ℤ_parts (neg q) (pos 2440588))))

Nat-cases : (n : ℕ) → (n ≡ 0) ⊎ ((m : ℕ) × (n ≡ suc m))
Nat-cases zero = inl refl
Nat-cases (suc m) = inr (m, refl)

pub record Split (t : ℤ) : Type 0 where
  pub day : ℕ
  pub second : ℕ
  pub in_day : second < 86400
  pub stamped : break_time t ≡ stamp day second
  pub sum : t +ℤ pos to_1970 ≡ pos (day * 86400 + second)

pub break_time-Split : (t : ℤ) → negsuc 210866803199 ≤ℤ t → t <ℤ pos 46000000000000 → Split t
unfolding break_time
break_time-Split (pos n) low high = record {
  day = n / 86400 + 2440588;
  second = n % 86400;
  in_day = omega arith;
  stamped =
      ap₂ break_days (to_int_32-pos (n % 86400) (omega arith))
        (to_int_32-pos (n / 86400) (omega arith))
      ∙ break_days-pos (n % 86400) (n / 86400);
  sum = +ℤ-pos n to_1970 ∙ ap pos (omega arith);
}
break_time-Split (negsuc n) low high = elim (Nat-cases (suc n % 86400)) [
  | inl z ↦ record {
    day = 2440588 - suc n / 86400;
    second = 0;
    in_day = omega arith;
    stamped =
        ap₂ break_days (ap (λ r. to_int_32 (neg r)) z) (to_int_32-neg (suc n / 86400) (omega arith))
        ∙ break_days-whole (suc n / 86400) (omega (arith, low));
    sum = eq_of_parts _ _ (omega (arith, z, low, +ℤ_parts (negsuc n) (pos to_1970)));
  }
  | inr (r, e) ↦ record {
    day = 2440587 - suc n / 86400;
    second = 86399 - r;
    in_day = omega arith;
    stamped =
        ap₂ break_days (ap (λ r. to_int_32 (neg r)) e ∙ to_int_32-neg (suc r) (omega (arith, e)))
          (to_int_32-neg (suc n / 86400) (omega arith))
        ∙ break_days-neg r (suc n / 86400) (omega (arith, e, low)) (omega (arith, e, low));
    sum = eq_of_parts _ _ (omega (arith, e, low, +ℤ_parts (negsuc n) (pos to_1970)));
  }
]

pub seconds_of : ℤ → ℕ → ℤ
seconds_of number s =
    (number -ℤ pos 2440588) *ℤ seconds_per_day
    +ℤ (pos (s / 60 / 60) *ℤ 3600 +ℤ pos (s / 60 % 60) *ℤ 60 +ℤ pos (s % 60))

pub seconds_of-pos : (n s : ℕ) → seconds_of (pos n) s +ℤ pos to_1970 ≡ pos (n * 86400 + s)
unfolding seconds_of
seconds_of-pos n s =
    let h = pos (s / 60 / 60) in
    let m = pos (s / 60 % 60) in
    let days = pos n -ℤ pos 2440588 in
    let clock = h *ℤ 3600 +ℤ m *ℤ 60 +ℤ pos (s % 60) in
    let clock_eq : clock ≡ pos s = eq_of_parts _ _ (
      omega (
        arith,
        *ℤ_parts h 3600,
        *ℤ_parts m 60,
        +ℤ_parts (h *ℤ 3600) (m *ℤ 60),
        +ℤ_parts (h *ℤ 3600 +ℤ m *ℤ 60) (pos (s % 60)),
      )) in
    rw clock_eq (
      eq_of_parts _ _ (
        omega (
          arith,
          -ℤ_parts (pos n) (pos 2440588),
          *ℤ_parts days 86400,
          +ℤ_parts (days *ℤ 86400) (pos s),
          +ℤ_parts (days *ℤ 86400 +ℤ pos s) (pos to_1970),
        )))

pub from_utc_time-stamp : (n s : ℕ) → from_utc_time (stamp n s) ≡ seconds_of (pos n) s
unfolding from_utc_time stamp seconds_of of_year_month_day fill_hms number_of_fields
from_utc_time-stamp n s =
    rw first_day (ap (λ z. seconds_of z s) (number_of_fields-get_year_month_day n))

-- BreakTime of any second from day 0 up to 46000000000000, before and after 1970, is a time that
-- fromUtcTime turns back into that second.
pub from_utc_time-break_time :
    (t : ℤ) → negsuc 210866803199 ≤ℤ t → t <ℤ pos 46000000000000 → from_utc_time (break_time t) ≡ t
from_utc_time-break_time t low high =
    ap from_utc_time w.stamped
    ∙ from_utc_time-stamp w.day w.second
    ∙ eq_of_parts _ _ (
        omega (
          arith,
          +ℤ_parts (seconds_of (pos w.day) w.second) (pos to_1970),
          +ℤ_parts t (pos to_1970),
          ap pos_part (seconds_of-pos w.day w.second),
          ap neg_part (seconds_of-pos w.day w.second),
          ap pos_part w.sum,
          ap neg_part w.sum,
        ))
  where
    w : Split t
    w = break_time-Split t low high
