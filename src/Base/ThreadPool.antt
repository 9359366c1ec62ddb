-- ===== src/Base/ThreadPool.antt =====
-- The class template of src/base/ThreadPool.h: what its threads and its callers do, one access to
-- `m_running` or one critical section at a time, and the push that holds no mutex as its beginning and
-- its end. A task is a number.
pub mod Runs
pub mod Tests
use czy_net_frame.Common.{
  ℕ, zero, suc, ◌+◌, ◌-◌, ◌*◌, ◌/◌, ◌%◌, ◌^◌, ◌≤◌, ◌<◌, min, max, ◌≡◌, refl, sym, ap, ap₂, ◌∙◌,
  subst, ◌≢◌, ◌↔◌, ◌⊎◌, inl, inr, Bool, true, false, not, ◌&&◌, ◌||◌, Option, none, some, List, [],
  ◌∷◌, ◌++◌, map, append_assoc, append-nil, arith, ltb, leb, ◌==◌, if◌then◌else◌, ltb→lt, lt→ltb,
  le→ltb, ltb→le, leb→le, lt→leb, le→leb, Bool-cases, Option-cases, ==→eq, ==→ne, leb-suc, leb→lt,
  length, get_elem?, set, take, drop, replicate, reverse_onto, All, length-append, length-take,
  length-drop, length-replicate, take-append-drop, take-append, drop-append, take_all, drop_all,
  take-length_append, drop-length_append, drop-append_add, length-append₃, All-append,
  length-reverse_onto, get_elem?-some, get_elem?-lt, length-map, ◌>>=◌, ◌>>◌, assert, >>=-eq-done,
  Ensures, Ensures->>=, Ensures-done, done-injective, Exception, Outcome, done, assert_failed,
  aborted, undefined, thrown, length_error, bad_function_call, out_of_range, logic_error, update,
  update_self, update_ne, ==_refl, ne→==, magnitude, neg, is_negative, pos_part, neg_part, sub_ℕ,
  ◌+ℤ◌, ◌-ℤ◌, ◌*ℤ◌, quot, rem, ltb_ℤ, leb_ℤ, ◌≤ℤ◌, ◌<ℤ◌, +ℤ_parts, -ℤ_parts, *ℤ_parts, one_part,
  eq_of_parts, sub_ℕ-le, sub_ℕ-lt, +ℤ_assoc, +ℤ-sub, +ℤ-pos, -ℤ-pos, *ℤ-pos, signed_32, is_int,
  to_int_32, neg_parts, is_int-small, +ℤ-le, -ℤ-le, *ℤ-le, Within, +ℤ-Within, -ℤ-Within,
  is_int-Within, ℤ, pos, negsuc,
}

-- Where a thread stands in `runner`: at the test of the outer loop, before it has the mutex, with the
-- mutex before the test of the inner loop, between that test and the wait, in the wait, in a task.
pub data Worker : Type 0 where
  at_loop at_lock at_test before_wait waiting : Worker
  in_task : ℕ → Worker
  ended : Worker

-- `pushing` counts the callers inside `m_taskQueue.push`, which holds no lock, and `owed` those that
-- then come to `notify_one`. `notice_due` says that a `stop` is between its store and its
-- `notify_all`. The ghost fields are all tasks that were pushed, and those that threads have taken,
-- in order.
pub record ThreadPool : Type 0 where
  pub task_queue : List ℕ
  pub running : Bool
  pub notice_due : Bool
  pub pushing : ℕ
  pub owed : ℕ
  pub workers : ℕ → Worker
  pub pushed : List ℕ
  pub taken : List ℕ

-- The constructor starts the threads; `m_running` is true from the beginning.
abbrev pub new_pool : ThreadPool
new_pool = record {
  task_queue = [];
  running = true;
  notice_due = false;
  pushing = 0;
  owed = 0;
  workers = λ i. at_loop;
  pushed = [];
  taken = [];
}

abbrev pub move : ℕ → Worker → ThreadPool → ThreadPool
move i w p = record p { workers = update p.workers i w }

abbrev pub notified : Worker → Worker
notified waiting = at_lock
notified w = w

-- `notify_one`: a thread that waits, if the argument names one.
abbrev pub notify_one : Option ℕ → ThreadPool → ThreadPool
notify_one none p = p
notify_one (some i) p = record p { workers = update p.workers i (notified (p.workers i)) }

abbrev pub notify_all : ThreadPool → ThreadPool
notify_all p = record p { workers = λ i. notified (p.workers i) }

-- `pushTask`, which takes no lock: it enters `push`, leaves it, and notifies.
abbrev pub push_begin : ThreadPool → ThreadPool
push_begin p = record p { pushing = suc p.pushing }

abbrev pub push_end : ℕ → ℕ → ThreadPool → ThreadPool
push_end t others p = record p {
  task_queue = p.task_queue ++ (t ∷ []);
  pushed = p.pushed ++ (t ∷ []);
  pushing = others;
  owed = suc p.owed;
}

abbrev pub push_notify : Option ℕ → ℕ → ThreadPool → ThreadPool
push_notify chosen others p = notify_one chosen (record p { owed = others })

-- `stop` up to the joins, in two accesses, and `strat`.
abbrev pub stop_store : ThreadPool → ThreadPool
stop_store p = record p { running = false; notice_due = true }

abbrev pub stop_notify : ThreadPool → ThreadPool
stop_notify p = notify_all (record p { notice_due = false })

abbrev pub start : ThreadPool → ThreadPool
start p = record p { running = true }

-- The outer loop's test.
abbrev pub look : ℕ → ThreadPool → ThreadPool
look i p = if p.running then move i at_lock p else move i ended p

-- The critical section from the inner loop's test on.
abbrev pub test_from : ℕ → List ℕ → ThreadPool → ThreadPool
test_from i [] p = if p.running then move i before_wait p else move i ended p
test_from i (t ∷ ts) p =
    if p.running
    then move i (in_task t) (record p { task_queue = ts; taken = p.taken ++ (t ∷ []) })
    else move i ended p

abbrev pub test : ℕ → ThreadPool → ThreadPool
test i p = test_from i p.task_queue p

-- Who has the mutex.
abbrev pub holds : Worker → Bool
holds at_test = true
holds before_wait = true
holds w = false

-- `notify_one` reaches a thread if any waits.
abbrev pub Chooses : Option ℕ → ThreadPool → Type 0
Chooses none p = (i : ℕ) → p.workers i ≢ waiting
Chooses (some i) p = p.workers i ≡ waiting

-- The first flag of a step says that two accesses to the queue overlap, one of them from `pushTask`,
-- which is undefined in C++ and told here as if one came after the other; the second, that the
-- notice of a `stop` falls between a thread's test and its wait.
pub data Step : Bool → Bool → ThreadPool → ThreadPool → Type 0 where
  begins_push :
      (p : ThreadPool)
      → p.pushing ≡ 0
      → ((i : ℕ) → p.workers i ≢ at_test)
      → Step false false p (push_begin p)
  begins_push_beside : (p : ThreadPool) → Step true false p (push_begin p)
  ends_push :
      (p : ThreadPool) (t others : ℕ)
      → p.pushing ≡ suc others
      → Step false false p (push_end t others p)
  notifies_one :
      (p : ThreadPool) (o : Option ℕ) (others : ℕ)
      → p.owed ≡ suc others
      → Chooses o p
      → Step false false p (push_notify o others p)
  starts : (p : ThreadPool) → Step false false p (start p)
  looks : (p : ThreadPool) (i : ℕ) → p.workers i ≡ at_loop → Step false false p (look i p)
  locks :
      (p : ThreadPool) (i : ℕ)
      → p.workers i ≡ at_lock
      → ((j : ℕ) → holds (p.workers j) ≡ false)
      → Step false false p (move i at_test p)
  tests :
      (p : ThreadPool) (i : ℕ)
      → p.workers i ≡ at_test
      → p.pushing ≡ 0
      → Step false false p (test i p)
  tests_beside : (p : ThreadPool) (i : ℕ) → p.workers i ≡ at_test → Step true false p (test i p)
  waits :
      (p : ThreadPool) (i : ℕ) → p.workers i ≡ before_wait → Step false false p (move i waiting p)
  -- A wait may end of itself.
  wakes : (p : ThreadPool) (i : ℕ) → p.workers i ≡ waiting → Step false false p (move i at_lock p)
  returns :
      (p : ThreadPool) (i t : ℕ) → p.workers i ≡ in_task t → Step false false p (move i at_loop p)
  stops : (p : ThreadPool) → Step false false p (stop_store p)
  notifies :
      (p : ThreadPool)
      → p.notice_due ≡ true
      → ((i : ℕ) → p.workers i ≢ before_wait)
      → Step false false p (stop_notify p)
  notifies_between :
      (p : ThreadPool) (i : ℕ)
      → p.notice_due ≡ true
      → p.workers i ≡ before_wait
      → Step false true p (stop_notify p)

-- Runs, and whether one of their steps has each flag.
pub data Run : Bool → Bool → ThreadPool → Type 0 where
  begins : Run false false new_pool
  goes_on :
      (b c b' c' : Bool) (p q : ThreadPool) → Run b c p → Step b' c' p q → Run (b' || b) (c' || c) q
