-- ===== src/Net/EventLoop/Tests.antt =====
-- Runs of the loop, and the theorems at concrete ones.
use czy_net_frame.Common.{◌<◌, ◌⊎◌, ◌≡◌, refl, true, false, none, some, [], ◌∷◌}
use czy_net_frame.Net.EventLoop.{
  polling, init, turn, one_turn, push_functor, wake_after_push, wake_up, loop,
}
use czy_net_frame.Net.EventLoop.Steps.{
  World, starts, tests, pushes, wakes, Run, stays, goes_on, start,
}
use czy_net_frame.Net.EventLoop.Order.{Ordered, Run-Ordered}
use czy_net_frame.Net.EventLoop.Turn.{turn_lem}
use czy_net_frame.Net.EventLoop.Wake.{Covered, Run-Covered}

-- The loop waits in `poll` while two functors were queued: 7 by another thread, which has woken the
-- loop up, and 8 by one that has not yet.
abbrev waiting : World
waiting = record {
  self = record {
    phase = polling;
    is_running = true;
    is_handling = false;
    calling_pending_functors = false;
    channel_list = [];
    current_active = none;
    wakeup_channel = 1;
    pending = 7 ∷ 8 ∷ [];
    wake_count = 1;
    ran = [];
    queued = 7 ∷ 8 ∷ [];
  };
  waking = 1;
  stopping = 0;
  early = false;
}

waiting-Run : Run (start 1) waiting
unfolding init loop turn push_functor wake_after_push wake_up
waiting-Run =
    let polling_now : World = record (start 1) {
      self = record (init 1) { phase = polling; is_running = true };
    } in
    let s0 : Run (start 1) polling_now = goes_on (goes_on stays (starts refl refl)) (tests refl) in
    let s1 : Run (start 1)
        (record polling_now { self = push_functor polling_now.self 7; waking = 1 }) =
      goes_on s0 (pushes 7) in
    let s2 : Run (start 1)
        (record polling_now { self = wake_after_push false (push_functor polling_now.self 7) }) =
      goes_on s1 (wakes refl) in
    goes_on s2 (pushes 8)

run-Ordered_example : Ordered waiting.self
run-Ordered_example = Run-Ordered 1 waiting waiting-Run

run-Covered_example : Covered waiting × (true ≡ false → (0 < 1) ⊎ (0 < 0))
run-Covered_example = Run-Covered 1 waiting waiting-Run refl

turn_lem_example :
    Run waiting (record waiting { self = one_turn waiting.self (1 ∷ 5 ∷ []); early = false })
    × (one_turn waiting.self (1 ∷ 5 ∷ []) ≡ record (waiting.self) {
      current_active = some 5;
      wake_count = 0;
      pending = [];
      ran = 7 ∷ 8 ∷ [];
    })
turn_lem_example = turn_lem waiting (1 ∷ 5 ∷ []) refl
