-- ===== src/Base/ThreadPool/Runs.antt =====
-- Runs of the threads of Base/ThreadPool: the order of the tasks, and what a stop leaves.
use native.Mathlib.Decide.{ℕ_discrete}
use czy_net_frame.Common.{
  ℕ, ◌≡◌, refl, sym, ap, ◌∙◌, subst, ◌≢◌, inl, inr, Bool, true, false, ◌||◌, Option, none, some,
  List, [], ◌∷◌, ◌++◌, append_assoc, if◌then◌else◌, Bool-cases, update, update_self, update_ne,
}
use czy_net_frame.Base.ThreadPool.{
  Worker, at_loop, at_lock, at_test, before_wait, waiting, in_task, ended, ThreadPool, move,
  notified, push_notify, look, test_from, Step, begins_push, begins_push_beside, ends_push,
  notifies_one, starts, looks, locks, tests, tests_beside, waits, wakes, returns, stops, notifies,
  notifies_between, Run, begins, goes_on,
}

-- On the way into the wait, or in it.
abbrev pub asleep : Worker → Bool
asleep before_wait = true
asleep waiting = true
asleep w = false

-- The flags say that accesses to the queue overlapped, and that the notice of a stop fell between a
-- test and a wait.
pub record Good (overlap raced : Bool) (p : ThreadPool) : Type 0 where
  pub order : overlap ≡ false → p.taken ++ p.task_queue ≡ p.pushed
  pub all_awake :
      raced ≡ false
      → p.running ≡ false
      → p.notice_due ≡ false
      → (i : ℕ) → asleep (p.workers i) ≡ false

move_awake :
    (ws : ℕ → Worker) (i : ℕ) (w : Worker)
    → asleep w ≡ false
    → ((j : ℕ) → asleep (ws j) ≡ false)
    → (j : ℕ) → asleep (update ws i w j) ≡ false
move_awake ws i w e h j = elim (ℕ_discrete j i) [
  | yes same ↦ ap (λ k. asleep (update ws i w k)) same ∙ ap asleep (update_self ws i w) ∙ e
  | no ne ↦ ap asleep (update_ne ws i w j ne) ∙ h j
]

notified_awake : (w : Worker) → asleep w ≡ false → asleep (notified w) ≡ false
notified_awake at_loop h = refl
notified_awake at_lock h = refl
notified_awake at_test h = refl
notified_awake before_wait h = h
notified_awake waiting h = refl
notified_awake (in_task t) h = refl
notified_awake ended h = refl

stopped_awake : (w : Worker) → w ≢ before_wait → asleep (notified w) ≡ false
stopped_awake at_loop h = refl
stopped_awake at_lock h = refl
stopped_awake at_test h = refl
stopped_awake before_wait h = absurd (h refl)
stopped_awake waiting h = refl
stopped_awake (in_task t) h = refl
stopped_awake ended h = refl

module _ (a b : Bool) (p : ThreadPool) (g : Good a b p) where
  -- A thread that goes on awake.
  move-Good : (i : ℕ) (w : Worker) → asleep w ≡ false → Good a b (move i w p)
  move-Good i w e = record {
    order = g.order;
    all_awake = λ n r d. move_awake p.workers i w e (g.all_awake n r d);
  }

  -- No thread is stopped yet.
  running-Good :
      (q : ThreadPool)
      → p.running ≡ true
      → q.running ≡ p.running
      → (a ≡ false → q.taken ++ q.task_queue ≡ q.pushed)
      → Good a b q
  running-Good q e same o = record {
    order = o;
    all_awake = λ n r d. absurd (let c : true ≡ false = sym e ∙ sym same ∙ r in cc);
  }

  push_notify-Good : (o : Option ℕ) (others : ℕ) → Good a b (push_notify o others p)
  push_notify-Good none others = record { order = g.order; all_awake = g.all_awake }
  push_notify-Good (some i) others = record {
    order = g.order;
    all_awake = λ n r d.
        let h = g.all_awake n r d in
        move_awake p.workers i _ (notified_awake (p.workers i) (h i)) h;
  }

  look-Good : (i : ℕ) → Good a b (look i p)
  look-Good i = elim (Bool-cases p.running) [
    | inl e ↦
        subst (Good a b) (ap (λ r. if r then move i at_lock p else move i ended p) (sym e))
          (move-Good i at_lock refl)
    | inr e ↦
        subst (Good a b) (ap (λ r. if r then move i at_lock p else move i ended p) (sym e))
          (move-Good i ended refl)
  ]

  test_from-Good : (i : ℕ) (ts : List ℕ) → p.task_queue ≡ ts → Good a b (test_from i ts p)
  test_from-Good i [] q = elim (Bool-cases p.running) [
    | inl e ↦
        subst (Good a b) (ap (λ r. if r then move i before_wait p else move i ended p) (sym e))
          (running-Good (move i before_wait p) e refl g.order)
    | inr e ↦
        subst (Good a b) (ap (λ r. if r then move i before_wait p else move i ended p) (sym e))
          (move-Good i ended refl)
  ]
  test_from-Good i (t ∷ ts) q =
      let took : ThreadPool =
        move i (in_task t) (record p { task_queue = ts; taken = p.taken ++ (t ∷ []) }) in
      elim (Bool-cases p.running) [
        | inl e ↦ subst (Good a b) (ap (λ r. if r then took else move i ended p) (sym e)) (
            running-Good took e refl
              (λ z. append_assoc p.taken (t ∷ []) ts ∙ ap (◌++◌ p.taken) (sym q) ∙ g.order z))
        | inr e ↦
            subst (Good a b) (ap (λ r. if r then took else move i ended p) (sym e))
              (move-Good i ended refl)
      ]

true_false {ℓ} : {A : Type ℓ} → true ≡ false → A
true_false e = absurd (let c : true ≡ false = e in cc)

-- Where accesses overlap nothing is said of the order.
overlapped : (a b : Bool) (p : ThreadPool) → Good a b p → Good true b p
overlapped a b p g = record { order = λ z. true_false z; all_awake = g.all_awake }

Step-Good :
    (a b a' b' : Bool) (p q : ThreadPool) → Step a' b' p q → Good a b p → Good (a' || a) (b' || b) q
Step-Good a b _ _ _ _ (begins_push p quiet alone) g = record {
  order = g.order;
  all_awake = g.all_awake;
}
Step-Good a b _ _ _ _ (begins_push_beside p) g = record {
  order = λ z. true_false z;
  all_awake = g.all_awake;
}
Step-Good a b _ _ _ _ (ends_push p t others h) g = record {
  order =
      λ z. sym (append_assoc p.taken p.task_queue (t ∷ [])) ∙ ap (λ l. l ++ (t ∷ [])) (g.order z);
  all_awake = g.all_awake;
}
Step-Good a b _ _ _ _ (notifies_one p o others h c) g = push_notify-Good a b p g o others
Step-Good a b _ _ _ _ (starts p) g = record { order = g.order; all_awake = λ n r d. true_false r }
Step-Good a b _ _ _ _ (looks p i h) g = look-Good a b p g i
Step-Good a b _ _ _ _ (locks p i h free) g = move-Good a b p g i at_test refl
Step-Good a b _ _ _ _ (tests p i h quiet) g = test_from-Good a b p g i p.task_queue refl
Step-Good a b _ _ _ _ (tests_beside p i h) g =
    overlapped a b _ (test_from-Good a b p g i p.task_queue refl)
Step-Good a b _ _ _ _ (waits p i h) g = record {
  order = g.order;
  all_awake = λ n r d. true_false (ap asleep (sym h) ∙ g.all_awake n r d i);
}
Step-Good a b _ _ _ _ (wakes p i h) g = move-Good a b p g i at_lock refl
Step-Good a b _ _ _ _ (returns p i t h) g = move-Good a b p g i at_loop refl
Step-Good a b _ _ _ _ (stops p) g = record { order = g.order; all_awake = λ n r d. true_false d }
Step-Good a b _ _ _ _ (notifies p due h) g = record {
  order = g.order;
  all_awake = λ n r d i. stopped_awake (p.workers i) (h i);
}
Step-Good a b _ _ _ _ (notifies_between p i due h) g = record {
  order = g.order;
  all_awake = λ n r d. true_false n;
}

pub Run-Good : (a b : Bool) (p : ThreadPool) → Run a b p → Good a b p
Run-Good _ _ _ begins = record { order = λ z. refl; all_awake = λ n r d i. refl }
Run-Good _ _ _ (goes_on a b a' b' p q r s) = Step-Good a b a' b' p q s (Run-Good a b p r)
