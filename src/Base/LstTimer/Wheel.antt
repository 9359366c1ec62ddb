-- ===== src/Base/LstTimer/Wheel.antt =====
-- TimerManagerWheel of src/base/LstTimer.cc. A tick comes to the calls it makes, in order.
pub mod Sweep
pub mod Turns
use czy_net_frame.Common.{
  ℕ, zero, suc, ◌+◌, ◌-◌, ◌*◌, ◌/◌, ◌%◌, ◌^◌, ◌≤◌, ◌<◌, min, max, ◌≡◌, refl, sym, ap, ap₂, ◌∙◌,
  subst, ◌≢◌, ◌↔◌, ◌⊎◌, inl, inr, Bool, true, false, not, ◌&&◌, ◌||◌, Option, none, some, List, [],
  ◌∷◌, ◌++◌, map, append_assoc, append-nil, arith, ltb, leb, ◌==◌, if◌then◌else◌, ltb→lt, lt→ltb,
  le→ltb, ltb→le, leb→le, lt→leb, le→leb, Bool-cases, Option-cases, ==→eq, ==→ne, leb-suc, leb→lt,
  length, get_elem?, set, take, drop, replicate, reverse_onto, All, length-append, length-take,
  length-drop, length-replicate, take-append-drop, take-append, drop-append, take_all, drop_all,
  take-length_append, drop-length_append, drop-append_add, length-append₃, All-append,
  length-reverse_onto, get_elem?-some, get_elem?-lt, ◌>>=◌, ◌>>◌, assert, >>=-eq-done, Ensures,
  Ensures->>=, Ensures-done, done-injective, Exception, Outcome, done, assert_failed, aborted,
  undefined, thrown, length_error, bad_function_call, out_of_range, logic_error, update,
  update_self, update_ne, ==_refl, ne→==, magnitude, neg, is_negative, pos_part, neg_part, sub_ℕ,
  ◌+ℤ◌, ◌-ℤ◌, ◌*ℤ◌, quot, rem, ltb_ℤ, leb_ℤ, ◌≤ℤ◌, ◌<ℤ◌, +ℤ_parts, -ℤ_parts, *ℤ_parts, one_part,
  eq_of_parts, sub_ℕ-le, sub_ℕ-lt, +ℤ_assoc, +ℤ-sub, +ℤ-pos, -ℤ-pos, *ℤ-pos, signed_32, to_int_32,
  neg_parts, ℤ, pos, negsuc,
}
use czy_net_frame.Base.LstTimer.{TimerNode, called, unlink, new_timer_node, bind_client_data}

-- `time_slots` from the index to the nodes behind a head.
pub record TimerManagerWheel : Type 0 where
  pub time_slots : ℕ → List TimerNode
  pub cur_slot : ℕ

abbrev pub time_slot_count : ℕ
time_slot_count = 60

abbrev pub time_gap : ℕ
time_gap = 1

abbrev pub new_wheel : TimerManagerWheel
new_wheel = record { time_slots = λ i. []; cur_slot = 0 }

abbrev pub ticks_of : ℕ → ℕ
ticks_of timeout = if ltb timeout time_gap then 1 else timeout / time_gap

abbrev pub slot_of : ℕ → ℕ → ℕ
slot_of cur ticks = (cur + ticks % time_slot_count) % time_slot_count

abbrev pub wheel_node : ℕ → ℕ → ℕ → TimerNode
wheel_node a cur timeout = record (new_timer_node a (pos timeout)) {
  rotation = pos (ticks_of timeout / time_slot_count);
  time_slot = slot_of cur (ticks_of timeout);
}

-- `a` is the address that `new` returns.
abbrev pub put_node : TimerManagerWheel → TimerNode → TimerManagerWheel
put_node w n = record w {
  time_slots = update w.time_slots n.time_slot (n ∷ w.time_slots n.time_slot);
}

abbrev pub add_node : TimerManagerWheel → ℕ → ℤ → Option TimerNode × TimerManagerWheel
add_node w a (pos timeout) = let n = wheel_node a w.cur_slot timeout in (some n, put_node w n)
add_node w a (negsuc timeout) = (none, w)

-- The caller binds the node that `add_node` returned, where it stands in its slot.
abbrev pub bind_at : ℕ → ℕ → List TimerNode → List TimerNode
bind_at a c [] = []
bind_at a c (n ∷ ns) =
    let rest = bind_at a c ns in if n.address == a then bind_client_data n c ∷ ns else n ∷ rest

abbrev pub bind_node : TimerManagerWheel → TimerNode → ℕ → TimerManagerWheel
bind_node w n c = record w {
  time_slots = update w.time_slots n.time_slot (bind_at n.address c (w.time_slots n.time_slot));
}

abbrev pub add_bound : TimerManagerWheel → ℕ → ℕ → ℕ → TimerManagerWheel
add_bound w a timeout c =
    bind_node (add_node w a (pos timeout)).1 (wheel_node a w.cur_slot timeout) c

abbrev pub del_node : TimerManagerWheel → TimerNode → TimerManagerWheel
del_node w n = record w {
  time_slots = update w.time_slots n.time_slot (unlink n.address (w.time_slots n.time_slot));
}

abbrev pub turn : TimerNode → TimerNode
turn n = record n { rotation = n.rotation -ℤ pos 1 }

unfoldable pub is_due : TimerNode → Bool
is_due n = leb_ℤ n.rotation (pos 0)

-- The loop of a tick over one slot: the calls, and the nodes that stay.
abbrev pub sweep : (ℕ → Bool) → List TimerNode → List (ℕ × ℕ) × List TimerNode
sweep lock [] = ([], [])
sweep lock (n ∷ ns) =
    let rest = sweep lock ns in
    if is_due (turn n)
    then (called lock n.address n.client ++ rest.0, rest.1)
    else (rest.0, turn n ∷ rest.1)

abbrev pub tick : (ℕ → Bool) → TimerManagerWheel → List (ℕ × ℕ) × TimerManagerWheel
tick lock w =
    let swept = sweep lock (w.time_slots w.cur_slot) in
    (
      swept.0,
      record w {
        time_slots = update w.time_slots w.cur_slot swept.1;
        cur_slot = (w.cur_slot + 1) % time_slot_count;
      },
    )

-- As many ticks, and what they called.
abbrev pub run : (ℕ → Bool) → ℕ → TimerManagerWheel → List (ℕ × ℕ) × TimerManagerWheel
run lock zero w = ([], w)
run lock (suc k) w =
    let first = tick lock w in let rest = run lock k first.1 in (first.0 ++ rest.0, rest.1)
