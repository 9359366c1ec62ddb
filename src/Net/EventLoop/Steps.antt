-- ===== src/Net/EventLoop/Steps.antt =====
-- The loop's thread beside other threads, which queue functors and ask the loop to stop.
use czy_net_frame.Common.{ℕ, suc, ◌≡◌, Bool, true, false, ◌||◌, List, [], ◌∷◌, done}
use czy_net_frame.Net.EventLoop.{
  EventLoop, Phase, outside, testing, polling, handling, swapping, calling, init, push_functor,
  wake_after_push, queue_in_loop, quit_store, quit_wake, turn, loop, polled, handle_next,
  handled_all, swap_functors, call_next, called_all,
}

-- The loop, how many other threads stand between the two halves of `queueInLoop`, how many between
-- those of `quit`, and whether the loop's own thread queued a functor outside of `loop` since the last swap.
pub record World : Type 0 where
  pub self : EventLoop
  pub waking : ℕ
  pub stopping : ℕ
  pub early : Bool

abbrev pub is_outside : Phase → Bool
is_outside outside = true
is_outside _ = false

-- Where the loop's thread runs code of the user: before `loop`, in callbacks and in functors.
abbrev pub is_own : Phase → Bool
is_own outside = true
is_own (handling cs) = true
is_own (calling fs) = true
is_own _ = false

-- The steps. What a callback or a functor does on the loop's thread is a step of its own, taken
-- while the loop stands behind its call; so are the steps of other threads, at any time. `loop` is
-- not called from inside of itself.
pub data Step : World → World → Type 0 where
  starts :
      {w : World} {l : EventLoop}
      → w.self.phase ≡ outside
      → loop true w.self ≡ done l
      → Step w (record w { self = l })
  tests : {w : World} → w.self.phase ≡ testing → Step w (record w { self = turn w.self })
  polls :
      {w : World} (active : List ℕ)
      → w.self.phase ≡ polling
      → Step w (record w { self = polled w.self active })
  handles :
      {w : World} (c : ℕ) (rest : List ℕ)
      → w.self.phase ≡ handling (c ∷ rest)
      → Step w (record w { self = handle_next w.self c rest })
  handled :
      {w : World} → w.self.phase ≡ handling [] → Step w (record w { self = handled_all w.self })
  swaps :
      {w : World}
      → w.self.phase ≡ swapping
      → Step w (record w { self = swap_functors w.self; early = false })
  calls :
      {w : World} (f : ℕ) (rest : List ℕ)
      → w.self.phase ≡ calling (f ∷ rest)
      → Step w (record w { self = call_next w.self f rest })
  called : {w : World} → w.self.phase ≡ calling [] → Step w (record w { self = called_all w.self })
  -- `queueInLoop` and `quit` on the loop's thread.
  queues :
      {w : World} (f : ℕ)
      → is_own w.self.phase ≡ true
      → Step w (record w {
        self = queue_in_loop true w.self f;
        early = w.early || is_outside w.self.phase;
      })
  quits :
      {w : World}
      → is_own w.self.phase ≡ true
      → Step w (record w { self = quit_wake true (quit_store w.self) })
  -- The same on another thread.
  pushes :
      {w : World} (f : ℕ)
      → Step w (record w { self = push_functor w.self f; waking = suc w.waking })
  wakes :
      {w : World} {n : ℕ}
      → w.waking ≡ suc n
      → Step w (record w { self = wake_after_push false w.self; waking = n })
  stores_stop :
      {w : World} → Step w (record w { self = quit_store w.self; stopping = suc w.stopping })
  wakes_to_stop :
      {w : World} {n : ℕ}
      → w.stopping ≡ suc n
      → Step w (record w { self = quit_wake false w.self; stopping = n })

pub data Run : World → World → Type 0 where
  stays : {w : World} → Run w w
  goes_on : {u v w : World} → Run u v → Step v w → Run u w

abbrev pub start : ℕ → World
start wakeup = record { self = init wakeup; waking = 0; stopping = 0; early = false }
