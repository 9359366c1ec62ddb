-- ===== src/Net/EventLoopThreadPool/Tests.antt =====
-- The turns of a pool of three threads.
use czy_net_frame.Common.{ℕ, ◌+◌, ◌<◌, ◌≡◌, true, false, [], ◌∷◌, done}
use czy_net_frame.Net.EventLoopThreadPool.{
  EventLoopThreadPool, set_thread_num, init, start, get_next_loop, next_loops,
}
use czy_net_frame.Net.EventLoopThreadPool.Turns.{start-due}

start-due_example :
    (p : EventLoopThreadPool) × (start true (λ i. 10 + i) false (set_thread_num (init 5) 3)
      ≡ done p)
    × (0 < 3 → (p' : EventLoopThreadPool) × (next_loops 4 p ≡ done (10 ∷ 11 ∷ 12 ∷ 10 ∷ [], p')))
    × (◌≡◌ {A = ℕ} 3 0 → get_next_loop true p ≡ done (5, p))
start-due_example = start-due 5 3 4 (λ i. 10 + i) false
