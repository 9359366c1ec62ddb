-- ===== src/Net/EventLoop/Turn.antt =====
-- One turn of the loop of Net/EventLoop, as the steps of the loop's thread and as a function.
use czy_net_frame.Common.{
  ℕ, ◌≡◌, refl, sym, ap, ◌∙◌, inl, inr, Bool, true, false, ◌||◌, Option, some, List, [], ◌∷◌, ◌++◌,
  append_assoc, append-nil, ◌==◌, if◌then◌else◌, Bool-cases,
}
use czy_net_frame.Net.EventLoop.{
  EventLoop, outside, testing, polling, handling, swapping, calling, turn, handle_read, handle_all,
  call_all, do_pending, one_turn, polled, handle_next, handled_all, swap_functors, call_next,
  called_all,
}
use czy_net_frame.Net.EventLoop.Steps.{
  World, tests, polls, handles, handled, swaps, calls, called, Run, stays, goes_on,
}

abbrev pub has_channel : ℕ → List ℕ → Bool
has_channel c [] = false
has_channel c (d ∷ ds) = (d == c) || has_channel c ds

abbrev pub last_of : Option ℕ → List ℕ → Option ℕ
last_of o [] = o
last_of o (c ∷ cs) = last_of (some c) cs

zero_either : (b : Bool) → ◌≡◌ {A = ℕ} (if b then 0 else 0) 0
zero_either true = refl
zero_either false = refl

-- The channels change the counter of the wake-up descriptor and which channel is the current one.
handle_all_lem :
    (l : EventLoop) (cs : List ℕ)
    → handle_all (record l { phase = handling cs }) cs ≡ record l {
      phase = handling [];
      current_active = last_of l.current_active cs;
      wake_count = if has_channel l.wakeup_channel cs then 0 else l.wake_count;
    }
unfolding handle_all handle_next handle_read
handle_all_lem l [] = refl
handle_all_lem l (c ∷ cs) = elim (Bool-cases (c == l.wakeup_channel)) [
  | inl y ↦ rw y (
      handle_all_lem (record l { current_active = some c; wake_count = 0 }) cs
      ∙ ap
          (λ n. record l {
            phase = handling [];
            current_active = last_of (some c) cs;
            wake_count = n;
          })
          (zero_either (has_channel l.wakeup_channel cs)))
  | inr z ↦ rw z (handle_all_lem (record l { current_active = some c }) cs)
]

call_all_lem :
    (l : EventLoop) (fs : List ℕ)
    → call_all (record l { phase = calling fs }) fs
      ≡ record l { phase = calling []; ran = l.ran ++ fs }
unfolding call_all call_next
call_all_lem l [] = ap (λ r. record l { phase = calling []; ran = r }) (sym (append-nil l.ran))
call_all_lem l (f ∷ fs) =
    call_all_lem (record l { ran = l.ran ++ (f ∷ []) }) fs
    ∙ ap (λ r. record l { phase = calling []; ran = r }) (append_assoc l.ran (f ∷ []) fs)

-- What a turn comes to.
abbrev pub after_turn : EventLoop → List ℕ → EventLoop
after_turn l active = record l {
  phase = if l.is_running then polling else outside;
  is_handling = false;
  calling_pending_functors = false;
  channel_list = if l.is_running then [] else active;
  current_active = last_of l.current_active active;
  wake_count = if has_channel l.wakeup_channel active then 0 else l.wake_count;
  pending = [];
  ran = l.ran ++ l.pending;
}

do_pending_lem :
    (l : EventLoop)
    → do_pending l ≡ record l {
      phase = testing;
      calling_pending_functors = false;
      pending = [];
      ran = l.ran ++ l.pending;
    }
unfolding do_pending swap_functors called_all
do_pending_lem l =
    ap (λ (m : EventLoop). record m { phase = testing; calling_pending_functors = false })
      (call_all_lem (record l { pending = [] }) l.pending)

-- Before the swap.
abbrev before_swap : EventLoop → List ℕ → EventLoop
before_swap l active = record l {
  phase = swapping;
  is_handling = false;
  calling_pending_functors = true;
  channel_list = active;
  current_active = last_of l.current_active active;
  wake_count = if has_channel l.wakeup_channel active then 0 else l.wake_count;
}

one_turn_lem : (l : EventLoop) (active : List ℕ) → one_turn l active ≡ after_turn l active
unfolding one_turn turn polled handled_all
one_turn_lem l active =
    ap (λ m. turn (do_pending (handled_all m)))
      (handle_all_lem (record l { is_handling = true; channel_list = active }) active)
    ∙ ap turn (do_pending_lem (before_swap l active))
    ∙ tested
  where
    tested :
        turn (record (after_turn l active) { phase = testing; channel_list = active })
        ≡ after_turn l active
    tested = elim (Bool-cases l.is_running) [ inl y ↦ rw y refl | inr z ↦ rw z refl ]

-- The steps of the loop's thread.
handle_next-phase :
    (l : EventLoop) (c : ℕ) (rest : List ℕ) → (handle_next l c rest).phase ≡ handling rest
unfolding handle_next handle_read
handle_next-phase l c rest = elim (Bool-cases (c == l.wakeup_channel)) [
  | inl y ↦ rw y refl
  | inr z ↦ rw z refl
]

handles_all :
    (u v : World) (cs : List ℕ)
    → Run u v
    → v.self.phase ≡ handling cs
    → Run u (record v { self = handle_all v.self cs })
      × ((handle_all v.self cs).phase ≡ handling [])
unfolding handle_all
handles_all u v [] r e = (r, e)
handles_all u v (c ∷ cs) r e =
    handles_all u (record v { self = handle_next v.self c cs }) cs (goes_on r (handles c cs e))
      (handle_next-phase v.self c cs)

calls_all :
    (u v : World) (fs : List ℕ)
    → Run u v
    → v.self.phase ≡ calling fs
    → Run u (record v { self = call_all v.self fs }) × ((call_all v.self fs).phase ≡ calling [])
unfolding call_all call_next
calls_all u v [] r e = (r, e)
calls_all u v (f ∷ fs) r e =
    calls_all u (record v { self = call_next v.self f fs }) fs (goes_on r (calls f fs e)) refl

turn_runs :
    (w : World) (active : List ℕ)
    → w.self.phase ≡ polling
    → Run w (record w { self = one_turn w.self active; early = false })
unfolding one_turn do_pending polled handled_all swap_functors called_all
turn_runs w active e =
    let v : World = record w { self = polled w.self active } in
    let h = handles_all w v active (goes_on stays (polls active e)) refl in
    let x : World = record w { self = handled_all (handle_all (polled w.self active) active) } in
    let y : World = record x { self = swap_functors x.self; early = false } in
    let c = calls_all w y x.self.pending (goes_on (goes_on h.0 (handled h.1)) (swaps refl)) refl in
    goes_on (goes_on c.0 (called c.1)) (tests refl)

-- One turn from poll on, in which the callbacks do nothing to the loop, is a run of the steps of
-- the loop's thread. It calls all functors that waited, in their order, and leaves none; the
-- last active channel is the current one, the counter of the wake-up descriptor is 0 if its
-- channel was active and otherwise as before, and the loop is in poll again with an empty list
-- of channels, or has returned if m_isRunning was false; nothing else has changed.
pub turn_lem :
    (w : World) (active : List ℕ)
    → w.self.phase ≡ polling
    → Run w (record w { self = one_turn w.self active; early = false })
      × (one_turn w.self active ≡ after_turn w.self active)
turn_lem w active e = (turn_runs w active e, one_turn_lem w.self active)
