-- ===== src/Net/EventLoop/Wake.antt =====
-- The wake-up descriptor of Net/EventLoop, and what other threads asked of a loop that waits in `poll`.
use czy_net_frame.Common.{
  ℕ, ◌<◌, ◌≡◌, refl, sym, ap, ◌∙◌, subst, ◌≢◌, ◌⊎◌, inl, inr, Bool, true, false, not, ◌||◌, some,
  [], ◌∷◌, arith, ◌==◌, if◌then◌else◌, ◌>>◌, assert, Outcome, done,
}
use czy_net_frame.Net.EventLoop.{
  EventLoop, Phase, outside, testing, polling, handling, swapping, calling, init, turn,
  push_functor, wake_after_push, wake_up, handle_read, queue_in_loop, quit_store, quit_wake, loop,
  polled, handle_next, handled_all, swap_functors, call_next, called_all,
}
use czy_net_frame.Net.EventLoop.Steps.{
  World, is_outside, is_own, Step, starts, tests, polls, handles, handled, swaps, calls, called,
  queues, quits, pushes, wakes, stores_stop, wakes_to_stop, Run, stays, goes_on, start,
}

-- No functor waits, or the loop is woken up, or a thread is about to wake it.
abbrev pub Covered : World → Type 0
Covered w = (w.self.pending ≡ []) ⊎ ((0 < w.self.wake_count) ⊎ ((0 < w.waking) ⊎ (w.early ≡ true)))

-- If the loop is to stop, it is woken up, or the thread that said so is about to wake it.
abbrev pub Stops : World → Type 0
Stops w = w.self.is_running ≡ false → (0 < w.self.wake_count) ⊎ (0 < w.stopping)

-- What holds in each phase.
abbrev Awake : Phase → World → Type 0
Awake outside w = Covered w
Awake testing w = Covered w
Awake polling w = Covered w × Stops w
Awake (handling cs) w = Unit
Awake swapping w = w.self.calling_pending_functors ≡ true
Awake (calling fs) w = (w.self.calling_pending_functors ≡ true) × Covered w

-- The counter is not reset, and everything else that matters stays.
record Kept (v w : World) : Type 0 where
  phase : w.self.phase ≡ v.self.phase
  flag : w.self.calling_pending_functors ≡ v.self.calling_pending_functors
  covers : Covered v → Covered w
  stops : Stops v → Stops w

Kept-Awake : (v w : World) (p : Phase) → Kept v w → v.self.phase ≡ p → Awake p v → Awake p w
Kept-Awake v w outside k e a = k.covers a
Kept-Awake v w testing k e a = k.covers a
Kept-Awake v w polling k e (a, b) = (k.covers a, k.stops b)
Kept-Awake v w (handling cs) k e a = tt
Kept-Awake v w swapping k e a = k.flag ∙ a
Kept-Awake v w (calling fs) k e (a, b) = (k.flag ∙ a, k.covers b)

abbrev IsAwake : World → Type 0
IsAwake w = Awake w.self.phase w

Kept-IsAwake : (v w : World) → Kept v w → IsAwake v → IsAwake w
Kept-IsAwake v w k a = subst (λ p. Awake p w) (sym k.phase) (Kept-Awake v w v.self.phase k refl a)

wake_up-signals : (l : EventLoop) → 0 < (wake_up l).wake_count
unfolding wake_up
wake_up-signals l = ground arith

-- The start of a turn.
turn-IsAwake : (w : World) → Covered w → IsAwake (record w { self = turn w.self })
unfolding turn
turn-IsAwake w c = by_flag w.self.is_running refl
  where
    by_flag :
        (b : Bool)
        → w.self.is_running ≡ b
        → IsAwake (record w {
          self =
              if b
              then record (w.self) { phase = polling; channel_list = [] }
              else record (w.self) { phase = outside };
        })
    by_flag true e = (c, λ f. absurd (true_false (sym e ∙ f)))
      where
        true_false : true ≢ false
        true_false h = cc
    by_flag false e = c

-- Waking the loop up covers everything.
woken :
    (v w : World) (l : EventLoop)
    → w.self ≡ wake_up l
    → l.phase ≡ v.self.phase
    → l.calling_pending_functors ≡ v.self.calling_pending_functors
    → Kept v w
unfolding wake_up
woken v w l e p q =
    let signal : 0 < w.self.wake_count =
      subst (λ t. 0 < t.wake_count) (sym e) (unfold wake_up in wake_up-signals l) in
    record {
      phase = ap (λ t. t.phase) e ∙ p;
      flag = ap (λ t. t.calling_pending_functors) e ∙ q;
      covers = λ c. inr (inl signal);
      stops = λ y z. inl signal;
    }

IsAwake-in : (w : World) (p : Phase) → w.self.phase ≡ p → IsAwake w → Awake p w
IsAwake-in w p e a = subst (λ t. Awake t w) e a

loop-IsAwake :
    (w : World) (m : EventLoop)
    → Covered w
    → loop true w.self ≡ done m
    → IsAwake (record w { self = m })
unfolding loop
loop-IsAwake w m c h = started (not w.self.is_running) h
  where
    value : Outcome EventLoop → EventLoop
    value (done x) = x
    value _ = m

    started :
        (b : Bool)
        → (assert b >> done (record (w.self) { phase = testing; is_running = true })) ≡ done m
        → IsAwake (record w { self = m })
    started true h = subst (λ t. IsAwake (record w { self = t })) (ap value h) c
    started false h = cc

-- `queueInLoop` on the loop's thread, by phase.
queue-Awake :
    (w : World) (f : ℕ) (p : Phase)
    → is_own p ≡ true
    → Awake p w
    → Awake p (record w { self = queue_in_loop true w.self f; early = w.early || is_outside p })
unfolding queue_in_loop wake_after_push push_functor wake_up
queue-Awake w f outside ne a = inr (inr (inr (always w.early)))
  where
    always : (b : Bool) → (b || true) ≡ true
    always true = refl
    always false = refl
queue-Awake w f testing own a = cc
queue-Awake w f polling own a = cc
queue-Awake w f (handling cs) ne a = tt
queue-Awake w f swapping own a = cc
queue-Awake w f (calling fs) ne (a, c) =
    rw a (refl, inr (inl (wake_up-signals (push_functor w.self f))))

queue-phase : (l : EventLoop) (f : ℕ) → (queue_in_loop true l f).phase ≡ l.phase
unfolding queue_in_loop wake_after_push push_functor wake_up
queue-phase l f = either l.calling_pending_functors
  where
    either :
        (b : Bool) → (if b then wake_up (push_functor l f) else push_functor l f).phase ≡ l.phase
    either true = refl
    either false = refl

quit-Awake :
    (w : World) (p : Phase)
    → is_own p ≡ true
    → Awake p w
    → Awake p (record w { self = quit_wake true (quit_store w.self) })
unfolding quit_store quit_wake
quit-Awake w outside ne a = a
quit-Awake w testing own a = cc
quit-Awake w polling own a = cc
quit-Awake w (handling cs) ne a = a
quit-Awake w swapping ne a = a
quit-Awake w (calling fs) ne a = a

Step-IsAwake : (v w : World) → Step v w → IsAwake v → IsAwake w
unfolding polled handled_all swap_functors call_next called_all wake_after_push push_functor
    quit_store quit_wake handle_next handle_read
Step-IsAwake v w (starts {l = l} e h) a = loop-IsAwake v l (IsAwake-in v outside e a) h
Step-IsAwake v w (tests e) a = turn-IsAwake v (IsAwake-in v testing e a)
Step-IsAwake v w (polls active e) a = tt
Step-IsAwake v w (handles c rest e) a = by_channel (c == v.self.wakeup_channel)
  where
    by_channel :
        (b : Bool)
        → IsAwake (record v {
          self =
              if b
              then handle_read (record (v.self) { phase = handling rest; current_active = some c })
              else record (v.self) { phase = handling rest; current_active = some c };
        })
    by_channel true = tt
    by_channel false = tt
Step-IsAwake v w (handled e) a = refl
Step-IsAwake v w (swaps e) a = (IsAwake-in v swapping e a, inl refl)
Step-IsAwake v w (calls f rest e) a = IsAwake-in v (calling (f ∷ rest)) e a
Step-IsAwake v w (called e) a = (IsAwake-in v (calling []) e a).1
Step-IsAwake v w (queues f ne) a =
    subst (λ p. Awake p w) (sym (queue-phase v.self f)) (queue-Awake v f v.self.phase ne a)
Step-IsAwake v w (quits ne) a = quit-Awake v v.self.phase ne a
Step-IsAwake v w (pushes f) a =
    Kept-IsAwake v w
      (record {
        phase = refl;
        flag = refl;
        covers = λ c. inr (inr (inl (omega arith)));
        stops = λ y. y;
      })
      a
Step-IsAwake v w (wakes {n = n} e) a = Kept-IsAwake v w (woken v w v.self refl refl refl) a
Step-IsAwake v w stores_stop a =
    Kept-IsAwake v w
      (record { phase = refl; flag = refl; covers = λ c. c; stops = λ y z. inr (omega arith) }) a
Step-IsAwake v w (wakes_to_stop e) a = Kept-IsAwake v w (woken v w v.self refl refl refl) a

Run-IsAwake : (wakeup : ℕ) (w : World) → Run (start wakeup) w → IsAwake w
unfolding init
Run-IsAwake wakeup w stays = inl refl
Run-IsAwake wakeup w (goes_on {v = v} r s) = Step-IsAwake v w s (Run-IsAwake wakeup v r)

-- Whenever the loop waits in poll, however the threads came there: if functors wait in the
-- queue, the wake-up descriptor is readable, or another thread is about to write to it, or the
-- loop's own thread queued one outside of loop since the last swap; and if m_isRunning is false,
-- the descriptor is readable or a thread that stored this in quit is about to write to it.
pub Run-Covered :
    (wakeup : ℕ) (w : World) → Run (start wakeup) w → w.self.phase ≡ polling → Covered w × Stops w
Run-Covered wakeup w r e = IsAwake-in w polling e (Run-IsAwake wakeup w r)
