-- ===== src/Net/TimerQueue/Tests.antt =====
-- The theorems about timers at a concrete queue.
use czy_net_frame.Common.{
  ℕ, ◌≤◌, ◌<◌, ◌≡◌, refl, sym, subst, ◌≢◌, ◌↔◌, ◌⊎◌, inl, inr, true, false, Option, none, some,
  List, [], ◌∷◌, ◌++◌, arith, done, update,
}
use czy_net_frame.Net.TimerQueue.{
  Pair, Timer, TimerQueue, add_timer_in_loop, cancel_in_loop, get_expired, end_read,
}
use czy_net_frame.Net.TimerQueue.Sets.{In, In-cases, true≢false}
use czy_net_frame.Net.TimerQueue.Matching.{Entry, Active, Match}
use czy_net_frame.Net.TimerQueue.Adding.{Good, add_timer_in_loop-Good, cancel_in_loop-Good}
use czy_net_frame.Net.TimerQueue.Expiry.{get_expired-Match}
use czy_net_frame.Net.TimerQueue.Renewal.{Detached, IsValid, end_read-Good}
use czy_net_frame.Net.TimerQueue.Renewed.{Renewed}

abbrev once : Timer
once = record { expiration = 50; repeat = false; interval = 0; sequence = 7 }

abbrev every : Timer
every = record { expiration = 30; repeat = true; interval = 20; sequence = 8 }

-- Timer 1 is pending at 50; timer 2 repeats, and expired at 30.
abbrev heap : ℕ → Option Timer
heap = update (update (λ a. none) 1 (some once)) 2 (some every)

abbrev queue : TimerQueue
queue = record {
  timers = heap;
  time_list = (50, 1) ∷ [];
  active = (1, 7) ∷ [];
  calling_expired = true;
  canceling = [];
  armed = some 30;
}

queue-Match : Match heap queue.time_list queue.active
queue-Match = record {
  list_sorted = (λ y i. absurd (true≢false (sym i)), tt);
  active_sorted = (λ y i. absurd (true≢false (sym i)), tt);
  sizes = refl;
  entries = λ e i. elim (In-cases e (50, 1) [] i) [
    | inl p ↦ subst (Entry heap queue.active) (sym p) (once, refl, refl, refl, omega arith)
    | inr j ↦ absurd (true≢false (sym j))
  ];
  actives = λ e i. elim (In-cases e (1, 7) [] i) [
    | inl p ↦ subst (Active heap queue.time_list) (sym p) (once, refl, refl, refl)
    | inr j ↦ absurd (true≢false (sym j))
  ];
}

queue-Good : Good queue
queue-Good = record { matching = queue-Match; on_time = (30, refl, omega arith) }

queue-IsValid : IsValid queue.time_list
queue-IsValid e i = elim (In-cases e (50, 1) [] i) [
  | inl p ↦ subst (λ (r : Pair). 0 < r.0) (sym p) (omega arith)
  | inr j ↦ absurd (true≢false (sym j))
]

add_timer_in_loop-Good_example :
    (q' : TimerQueue) × (add_timer_in_loop queue 2 ≡ done q')
    × Good q'
    × (q'.timers ≡ heap)
    × ((e : Pair) → In e q'.time_list ↔ ((e ≡ (30, 2)) ⊎ In e queue.time_list))
add_timer_in_loop-Good_example =
    add_timer_in_loop-Good queue 2 every queue-Good refl (omega arith) refl

cancel_in_loop-Good_example :
    (true ≡ true
      → (q' : TimerQueue) × (cancel_in_loop queue (1, 7) ≡ done q')
        × Good q'
        × (q'.timers ≡ update heap 1 none)
        × ((e : Pair) → In e q'.time_list ↔ (In e queue.time_list × (e.1 ≢ 1)))
        × (q'.active ≡ [])
        × (q'.canceling ≡ [])
        × (q'.calling_expired ≡ true)
        × (q'.armed ≡ some 30))
    × (true ≡ false
        → (q' : TimerQueue) × (cancel_in_loop queue (1, 7) ≡ done q')
          × Good q'
          × (true ≡ true → q' ≡ record queue { canceling = (1, 7) ∷ [] })
          × (true ≡ false → q' ≡ queue))
cancel_in_loop-Good_example = cancel_in_loop-Good queue (1, 7) queue-Good

get_expired-Match_example :
    (expired : List Pair) × (q' : TimerQueue) × (get_expired queue 60 ≡ done (expired, q'))
    × Match q'.timers q'.time_list q'.active
    × (expired ++ q'.time_list ≡ (50, 1) ∷ [])
    × (q'.timers ≡ heap)
    × ((e : Pair) → In e expired → e.0 ≤ 60)
    × ((e : Pair) → In e q'.time_list → 60 < e.0)
get_expired-Match_example = get_expired-Match queue 60 queue-Match

every-Detached : Detached heap queue.active ((30, 2) ∷ [])
every-Detached = ((every, refl), omega arith, λ s. refl, λ x i. absurd (true≢false (sym i)), tt)

end_read-Good_example :
    (q' : TimerQueue) × (end_read queue ((30, 2) ∷ []) 40 ≡ done q')
    × Good q'
    × Renewed queue ((30, 2) ∷ []) 40 q'
end_read-Good_example =
    end_read-Good queue ((30, 2) ∷ []) 40 (omega arith) queue-Match queue-IsValid every-Detached
