-- ===== src/Base/LstTimer.antt =====
-- The timers of src/base/LstTimer.h and LstTimer.cc. A linked list is
-- the list of its nodes, without the sentinels.
pub mod Ordered
pub mod Wheel
pub mod Tests
use czy_net_frame.Common.{
  ℕ, zero, suc, ◌+◌, ◌-◌, ◌*◌, ◌/◌, ◌%◌, ◌^◌, ◌≤◌, ◌<◌, min, max, ◌≡◌, refl, sym, ap, ap₂, ◌∙◌,
  subst, ◌≢◌, ◌↔◌, ◌⊎◌, inl, inr, Bool, true, false, not, ◌&&◌, ◌||◌, Option, none, some, List, [],
  ◌∷◌, ◌++◌, map, append_assoc, append-nil, arith, ltb, leb, ◌==◌, if◌then◌else◌, ltb→lt, lt→ltb,
  le→ltb, ltb→le, leb→le, lt→leb, le→leb, Bool-cases, Option-cases, ==→eq, ==→ne, leb-suc, leb→lt,
  length, get_elem?, set, take, drop, replicate, reverse_onto, All, length-append, length-take,
  length-drop, length-replicate, take-append-drop, take-append, drop-append, take_all, drop_all,
  take-length_append, drop-length_append, drop-append_add, length-append₃, All-append,
  length-reverse_onto, get_elem?-some, get_elem?-lt, ◌>>=◌, ◌>>◌, assert, >>=-eq-done, Ensures,
  Ensures->>=, Ensures-done, done-injective, Exception, Outcome, done, assert_failed, aborted,
  undefined, thrown, length_error, bad_function_call, out_of_range, logic_error, update,
  update_self, update_ne, ==_refl, ne→==, magnitude, neg, is_negative, pos_part, neg_part, sub_ℕ,
  ◌+ℤ◌, ◌-ℤ◌, ◌*ℤ◌, quot, rem, ltb_ℤ, leb_ℤ, ◌≤ℤ◌, ◌<ℤ◌, +ℤ_parts, -ℤ_parts, *ℤ_parts, one_part,
  eq_of_parts, sub_ℕ-le, sub_ℕ-lt, +ℤ_assoc, +ℤ-sub, +ℤ-pos, -ℤ-pos, *ℤ-pos, signed_32, to_int_32,
  neg_parts, ℤ, pos, negsuc,
}

-- A node by its address, with the client that its weak pointer is bound to.
pub record TimerNode : Type 0 where
  pub address : ℕ
  pub expire_time : ℤ
  pub client : Option ℕ
  pub rotation : ℤ
  pub time_slot : ℕ

abbrev pub new_timer_node : ℕ → ℤ → TimerNode
new_timer_node a expire = record {
  address = a;
  expire_time = expire;
  client = none;
  rotation = pos 0;
  time_slot = 0;
}

abbrev pub bind_client_data : TimerNode → ℕ → TimerNode
bind_client_data n c = record n { client = some c }

-- `lock` tells which clients still live; the callback gets such a client.
abbrev pub called : (ℕ → Bool) → ℕ → Option ℕ → List (ℕ × ℕ)
called lock a none = []
called lock a (some c) = if lock c then (a, c) ∷ [] else []

-- The node of an address is taken out.
abbrev pub unlink : ℕ → List TimerNode → List TimerNode
unlink a [] = []
unlink a (n ∷ ns) = if n.address == a then ns else n ∷ unlink a ns
