-- ===== src/Base/ThreadPool/Tests.antt =====
-- Base/ThreadPool on concrete runs.
use czy_net_frame.Common.{ℕ, ◌≡◌, refl, inl, inr, true, false, some, ◌==◌, Bool-cases}
use czy_net_frame.Base.ThreadPool.{
  at_test, waiting, ThreadPool, new_pool, move, push_begin, push_end, push_notify, stop_store,
  stop_notify, look, test, looks, locks, tests, waits, stops, notifies_between, holds, Run, begins,
  goes_on,
}

abbrev looked : ThreadPool
looked = look 0 new_pool

abbrev tested : ThreadPool
tested = test 0 (move 0 at_test looked)

looked-free : (j : ℕ) → holds (looked.workers j) ≡ false
looked-free j = elim (Bool-cases (j == 0)) [ inl e ↦ rw e refl | inr e ↦ rw e refl ]

tested-Run : Run false false tested
tested-Run =
    goes_on false false false false _ _
      (goes_on false false false false _ _
        (goes_on false false false false _ _ begins (looks new_pool 0 refl))
        (locks looked 0 refl looked-free))
      (tests (move 0 at_test looked) 0 refl refl)

abbrev missed : ThreadPool
missed = stop_notify (stop_store tested)

-- A stop between the test and the wait of thread 0 is missed: the thread waits, and no call wakes it.
missed_stop : Run false true (move 0 waiting missed)
missed_stop =
    goes_on false true false false _ _
      (goes_on false false false true _ _
        (goes_on false false false false _ _ tested-Run (stops tested))
        (notifies_between (stop_store tested) 0 refl refl))
      (waits missed 0 refl)

-- Thread 0 waits, a task is pushed for it, and it takes the task.
abbrev asleep_pool : ThreadPool
asleep_pool = move 0 waiting tested

abbrev offered : ThreadPool
offered = push_notify (some 0) 0 (push_end 5 0 (push_begin asleep_pool))

abbrev busy : ThreadPool
busy = test 0 (move 0 at_test offered)
