-- ===== src/Base/LstTimer/Wheel/Turns.antt =====
-- The wheel of Base/LstTimer/Wheel over many ticks: how long the timer of an address waits.
use native.Mathlib.Decide.{ℕ_discrete}
use czy_net_frame.Common.{
  ℕ, zero, suc, ◌+◌, ◌-◌, ◌*◌, ◌/◌, ◌%◌, ◌<◌, ◌≡◌, refl, sym, ap, ap₂, ◌∙◌, subst, ◌≢◌, Bool, true,
  false, some, List, [], ◌∷◌, ◌++◌, arith, leb, ◌==◌, if◌then◌else◌, lt→leb, le→leb, leb→lt, update,
  update_self, update_ne, ==_refl, pos,
}
use czy_net_frame.Base.LstTimer.{TimerNode, called, bind_client_data}
use czy_net_frame.Base.LstTimer.Wheel.{
  TimerManagerWheel, turn, sweep, tick, run, wheel_node, ticks_of, add_bound, bind_at,
}
use czy_net_frame.Base.LstTimer.Wheel.Sweep.{
  of_address, calls_of, calls_of-append, of_address-sweep, calls_of-sweep, sweep_later, sweep_due,
  is_due-turn, turn-rotation,
}

-- No slot has a node of the address.
abbrev pub Lacks : ℕ → TimerManagerWheel → Type 0
Lacks a w = (i : ℕ) → of_address a (w.time_slots i) ≡ []

-- The timer of the address stands in one slot, which the tick behind `m` others reaches in its last round.
pub record Waits (a c : ℕ) (m : ℕ) (w : TimerManagerWheel) : Type 0 where
  pub node : TimerNode
  pub slot : ℕ
  pub rounds : ℕ
  pub here : of_address a (w.time_slots slot) ≡ node ∷ []
  pub elsewhere : (i : ℕ) → i ≢ slot → of_address a (w.time_slots i) ≡ []
  pub same_address : node.address ≡ a
  pub same_client : node.client ≡ some c
  pub same_rounds : node.rotation ≡ pos rounds
  pub slot_bound : slot < 60
  pub cur_bound : w.cur_slot < 60
  pub distance : m ≡ (rounds - 1) * 60 + (slot + 60 - w.cur_slot) % 60

module _ (lock : ℕ → Bool) (a : ℕ) (w : TimerManagerWheel) where
  tick-calls :
      (ns : List TimerNode)
      → of_address a (w.time_slots w.cur_slot) ≡ ns
      → calls_of a (tick lock w).0 ≡ (sweep lock ns).0
  tick-calls ns e = calls_of-sweep lock a (w.time_slots w.cur_slot) ∙ ap (λ l. (sweep lock l).0) e

  tick-here :
      (ns : List TimerNode) (i : ℕ)
      → i ≡ w.cur_slot
      → of_address a (w.time_slots w.cur_slot) ≡ ns
      → of_address a ((tick lock w).1.time_slots i) ≡ (sweep lock ns).1
  tick-here ns i same e =
      let swept = (sweep lock (w.time_slots w.cur_slot)).1 in
      ap (λ j. of_address a (update w.time_slots w.cur_slot swept j)) same
      ∙ ap (of_address a) (update_self w.time_slots w.cur_slot swept)
      ∙ of_address-sweep lock a (w.time_slots w.cur_slot)
      ∙ ap (λ l. (sweep lock l).1) e

  tick-elsewhere :
      (i : ℕ)
      → i ≢ w.cur_slot
      → of_address a ((tick lock w).1.time_slots i) ≡ of_address a (w.time_slots i)
  tick-elsewhere i ne =
      ap (of_address a)
        (update_ne w.time_slots w.cur_slot (sweep lock (w.time_slots w.cur_slot)).1 i ne)

  -- A tick over another slot, over the slot before the last round, and in the last round.
  tick-other :
      (c m : ℕ) (h : Waits a c (suc m) w)
      → h.slot ≢ w.cur_slot
      → (calls_of a (tick lock w).0 ≡ []) × Waits a c m (tick lock w).1
  tick-other c m h ne =
      let empty = h.elsewhere w.cur_slot (λ e. ne (sym e)) in
      (
        tick-calls [] empty,
        record {
          node = h.node;
          slot = h.slot;
          rounds = h.rounds;
          here = tick-elsewhere h.slot ne ∙ h.here;
          elsewhere = λ i other. elim (ℕ_discrete i w.cur_slot) [
            | yes e ↦ tick-here [] i e empty
            | no d ↦ tick-elsewhere i d ∙ h.elsewhere i other
          ];
          same_address = h.same_address;
          same_client = h.same_client;
          same_rounds = h.same_rounds;
          slot_bound = h.slot_bound;
          cur_bound = omega arith;
          distance = omega (arith, h.distance, h.slot_bound, h.cur_bound, ne);
        },
      )

  tick-round :
      (c m : ℕ) (h : Waits a c (suc m) w)
      → h.slot ≡ w.cur_slot
      → (calls_of a (tick lock w).0 ≡ []) × Waits a c m (tick lock w).1
  tick-round c m h same =
      let far : leb h.rounds 1 ≡ false =
        lt→leb h.rounds 1 (omega (arith, h.distance, h.slot_bound, same)) in
      let round : h.rounds ≡ suc (h.rounds - 1) = omega (arith, leb→lt h.rounds 1 far) in
      let stays = is_due-turn h.node h.rounds h.same_rounds ∙ far in
      let kept = sweep_later lock h.node stays in
      let here = ap (λ s. of_address a (w.time_slots s)) (sym same) ∙ h.here in
      (
        tick-calls (h.node ∷ []) here ∙ ap (λ r. r.0) kept,
        record {
          node = turn h.node;
          slot = h.slot;
          rounds = h.rounds - 1;
          here = tick-here (h.node ∷ []) h.slot same here ∙ ap (λ r. r.1) kept;
          elsewhere = λ i other. tick-elsewhere i (λ e. other (e ∙ sym same)) ∙ h.elsewhere i other;
          same_address = h.same_address;
          same_client = h.same_client;
          same_rounds = turn-rotation h.node (h.rounds - 1) (h.same_rounds ∙ ap pos round);
          slot_bound = h.slot_bound;
          cur_bound = omega arith;
          distance = omega (arith, h.distance, h.slot_bound, same, leb→lt h.rounds 1 far);
        },
      )

  tick-Waits :
      (c m : ℕ)
      → Waits a c (suc m) w
      → (calls_of a (tick lock w).0 ≡ []) × Waits a c m (tick lock w).1
  tick-Waits c m h = elim (ℕ_discrete h.slot w.cur_slot) [
    | yes same ↦ tick-round c m h same
    | no ne ↦ tick-other c m h ne
  ]

  tick-last :
      (c : ℕ)
      → Waits a c 0 w
      → lock c ≡ true
      → (calls_of a (tick lock w).0 ≡ (a, c) ∷ []) × Lacks a (tick lock w).1
  tick-last c h lives =
      let same : h.slot ≡ w.cur_slot = omega (arith, h.distance, h.slot_bound, h.cur_bound) in
      let due : leb h.rounds 1 ≡ true = le→leb h.rounds 1 (omega (arith, h.distance)) in
      let gone = sweep_due lock h.node (is_due-turn h.node h.rounds h.same_rounds ∙ due) in
      let here = ap (λ s. of_address a (w.time_slots s)) (sym same) ∙ h.here in
      let call : called lock h.node.address h.node.client ≡ (a, c) ∷ [] =
        ap₂ (called lock) h.same_address h.same_client
        ∙ ap (λ b. if b then (a, c) ∷ [] else []) lives in
      (
        tick-calls (h.node ∷ []) here ∙ ap (λ r. r.0) gone ∙ ap (λ l. l ++ []) call,
        λ i. elim (ℕ_discrete i w.cur_slot) [
          | yes e ↦ tick-here (h.node ∷ []) i e here ∙ ap (λ r. r.1) gone
          | no d ↦ tick-elsewhere i d ∙ h.elsewhere i (λ e. d (e ∙ same))
        ],
      )

-- Nothing for the address in as many ticks, then its call.
run-Waits :
    (lock : ℕ → Bool) (a c m : ℕ) (w : TimerManagerWheel)
    → Waits a c m w
    → (calls_of a (run lock m w).0 ≡ []) × Waits a c 0 (run lock m w).1
run-Waits lock a c zero w h = (refl, h)
run-Waits lock a c (suc m) w h =
    let step = tick-Waits lock a w c m h in
    let rest = run-Waits lock a c m (tick lock w).1 step.1 in
    (
      calls_of-append a (tick lock w).0 (run lock m (tick lock w).1).0 ∙ ap₂ ◌++◌ step.0 rest.0,
      rest.1,
    )

-- How many ticks pass before the one that calls a new timer.
abbrev pub delay : ℕ → ℕ
delay timeout = (ticks_of timeout / 60 - 1) * 60 + ticks_of timeout % 60

bind_at-front :
    (n : TimerNode) (c : ℕ) (ns : List TimerNode)
    → bind_at n.address c (n ∷ ns) ≡ bind_client_data n c ∷ ns
bind_at-front n c ns = rw (==_refl n.address) refl

of_address-own :
    (a : ℕ) (n : TimerNode) (ns : List TimerNode)
    → n.address ≡ a
    → of_address a ns ≡ []
    → of_address a (n ∷ ns) ≡ n ∷ []
of_address-own a n ns e none_there =
    let p : (n.address == a) ≡ true = subst (λ b. (n.address == b) ≡ true) e (==_refl n.address) in
    rw p (ap (◌∷◌ n) none_there)

module _ (w : TimerManagerWheel) (a timeout c : ℕ) where
  abbrev pub bound_node : TimerNode
  bound_node = bind_client_data (wheel_node a w.cur_slot timeout) c

  pub add_bound-here :
      (add_bound w a timeout c).time_slots bound_node.time_slot
      ≡ bound_node ∷ w.time_slots bound_node.time_slot
  add_bound-here =
      let n = wheel_node a w.cur_slot timeout in
      let put = update w.time_slots n.time_slot (n ∷ w.time_slots n.time_slot) in
      update_self put n.time_slot (bind_at a c (put n.time_slot))
      ∙ ap (bind_at a c) (update_self w.time_slots n.time_slot (n ∷ w.time_slots n.time_slot))
      ∙ bind_at-front n c (w.time_slots n.time_slot)

  pub add_bound-elsewhere :
      (i : ℕ) → i ≢ bound_node.time_slot → (add_bound w a timeout c).time_slots i ≡ w.time_slots i
  add_bound-elsewhere i ne =
      let n = wheel_node a w.cur_slot timeout in
      let put = update w.time_slots n.time_slot (n ∷ w.time_slots n.time_slot) in
      update_ne put n.time_slot (bind_at a c (put n.time_slot)) i ne
      ∙ update_ne w.time_slots n.time_slot (n ∷ w.time_slots n.time_slot) i ne

  add_bound-Waits :
      w.cur_slot < 60 → Lacks a w → Waits a c (delay timeout) (add_bound w a timeout c)
  add_bound-Waits h fresh = record {
    node = bound_node;
    slot = bound_node.time_slot;
    rounds = ticks_of timeout / 60;
    here =
        ap (of_address a) add_bound-here
        ∙ of_address-own a bound_node (w.time_slots bound_node.time_slot) refl
            (fresh bound_node.time_slot);
    elsewhere = λ i other. ap (of_address a) (add_bound-elsewhere i other) ∙ fresh i;
    same_address = refl;
    same_client = refl;
    same_rounds = refl;
    slot_bound = omega arith;
    cur_bound = h;
    distance = omega (arith, h);
  }

-- A timer put on a wheel, whose slot index is in range, with a timeout of T ticks (0 counts as
-- 1), at an address that no timer there has and bound to a client that lives, is not called for
-- (T / 60 - 1) * 60 + T % 60 ticks, where the difference stops at 0; the next tick calls it once
-- and takes it off the wheel.
pub add_node-run :
    (lock : ℕ → Bool) (w : TimerManagerWheel) (a timeout c : ℕ)
    → w.cur_slot < 60
    → Lacks a w
    → lock c ≡ true
    → let r = run lock (delay timeout) (add_bound w a timeout c) in
      (calls_of a r.0 ≡ [])
      × (calls_of a (tick lock r.1).0 ≡ (a, c) ∷ [])
      × Lacks a (tick lock r.1).1
add_node-run lock w a timeout c h fresh lives =
    let waits = add_bound-Waits w a timeout c h fresh in
    let passed = run-Waits lock a c (delay timeout) (add_bound w a timeout c) waits in
    let last =
      tick-last lock a (run lock (delay timeout) (add_bound w a timeout c)).1 c passed.1 lives in
    (passed.0, last.0, last.1)
