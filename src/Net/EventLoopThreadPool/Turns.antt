-- ===== src/Net/EventLoopThreadPool/Turns.antt =====
-- `getNextLoop` of Net/EventLoopThreadPool, called again and again after `start`.
use native.Mathlib.Nat.{mod-eq_of_lt, mod-add-mod, mod-lt}
use czy_net_frame.Common.{
  ℕ, zero, suc, ◌+◌, ◌%◌, ◌<◌, ◌≡◌, refl, sym, ap, ap₂, ◌∙◌, ◌≢◌, Bool, true, ◌&&◌, none, some,
  List, [], ◌∷◌, arith, ◌==◌, if◌then◌else◌, get_elem?, ◌>>◌, assert, Outcome, done,
}
use czy_net_frame.Net.EventLoopThreadPool.{
  EventLoopThreadPool, set_thread_num, init, in_loop_thread, start_loops, start, loop_at, next_of,
  get_next_loop, next_loops,
}

-- What `start` leaves: the loops of `n` threads, of which `spawn (m % n)` is the next.
pub record IsStarted (spawn : ℕ → ℕ) (n m : ℕ) (p : EventLoopThreadPool) : Type 0 where
  pub is_started : p.started ≡ true
  pub num : p.thread_num ≡ n
  pub all_loops : p.loops ≡ start_loops spawn 0 n
  pub position : p.next_idx ≡ m % n

-- The loops that are due from the `m`-th call on.
abbrev pub due : (ℕ → ℕ) → ℕ → ℕ → ℕ → List ℕ
due spawn n m zero = []
due spawn n m (suc k) = spawn (m % n) ∷ due spawn n (suc m) k

get_elem?-start_loops :
    (spawn : ℕ → ℕ) (i n j : ℕ) → j < n → get_elem? (start_loops spawn i n) j ≡ some (spawn (i + j))
unfolding start_loops
get_elem?-start_loops spawn i zero j h = absurd (omega arith)
get_elem?-start_loops spawn i (suc n) zero h = ap (λ t. some (spawn t)) same
  where
    same : i ≡ i + 0
    same = omega arith
get_elem?-start_loops spawn i (suc n) (suc j) h =
    get_elem?-start_loops spawn (suc i) n j (omega arith) ∙ ap (λ t. some (spawn t)) (shift i j)
  where
    shift : (i j : ℕ) → suc i + j ≡ i + suc j
    shift i j = omega arith

one_call :
    (spawn : ℕ → ℕ) (n m : ℕ) (p : EventLoopThreadPool)
    → 0 < n
    → IsStarted spawn n m p
    → (p' : EventLoopThreadPool) × (get_next_loop true p ≡ done (spawn (m % n), p'))
      × IsStarted spawn n (suc m) p'
unfolding get_next_loop in_loop_thread next_of loop_at
one_call spawn n m p some_threads s =
    let q : EventLoopThreadPool = record p { next_idx = (p.next_idx + 1) % p.thread_num } in
    (
      q,
      checked p.started (next_of p.loops p) s.is_started
          ∙ by_loops p.loops refl (get_elem?-start_loops spawn 0 n (m % n) (mod-lt m some_threads)),
      record {
        is_started = s.is_started;
        num = s.num;
        all_loops = s.all_loops;
        position =
            ap (λ t. (p.next_idx + 1) % t) s.num
            ∙ ap (λ t. (t + 1) % n) s.position
            ∙ mod-add-mod m n 1
            ∙ ap (λ t. t % n) (next m);
      },
    )
  where
    checked : (b : Bool) (o : Outcome (ℕ × EventLoopThreadPool)) → b ≡ true → (assert b >> o) ≡ o
    checked b o e = rw e refl

    none-some : {x : ℕ} → none ≢ some x
    none-some h = cc

    next : (m : ℕ) → m + 1 ≡ suc m
    next m = omega arith

    found :
        (ls : List ℕ)
        → p.loops ≡ ls
        → get_elem? (start_loops spawn 0 n) (m % n) ≡ some (spawn (0 + m % n))
        → get_elem? ls p.next_idx ≡ some (spawn (0 + m % n))
    found ls e f = ap₂ get_elem? (sym e ∙ s.all_loops) s.position ∙ f

    plus : (k : ℕ) → 0 + k ≡ k
    plus k = omega arith

    by_loops :
        (ls : List ℕ)
        → p.loops ≡ ls
        → get_elem? (start_loops spawn 0 n) (m % n) ≡ some (spawn (0 + m % n))
        → next_of ls p
          ≡ done (spawn (m % n), record p { next_idx = (p.next_idx + 1) % p.thread_num })
    by_loops [] e f = absurd (none-some (found [] e f))
    by_loops (l ∷ ls) e f = rw (found (l ∷ ls) e f) (
        ap (λ t. done (spawn t, record p { next_idx = (p.next_idx + 1) % p.thread_num }))
          (plus (m % n)))

-- Further calls in a row.
next_loops-due :
    (k : ℕ) (spawn : ℕ → ℕ) (n m : ℕ) (p : EventLoopThreadPool)
    → 0 < n
    → IsStarted spawn n m p
    → (p' : EventLoopThreadPool) × (next_loops k p ≡ done (due spawn n m k, p'))
unfolding next_loops
next_loops-due zero spawn n m p h s = (p, refl)
next_loops-due (suc k) spawn n m p h s =
    let (q, e, t) = one_call spawn n m p h s in
    let (r, f) = next_loops-due k spawn n (suc m) q h t in (r, rw (e, f) refl)

-- A new pool of `n` threads, `n` above 0, once it is started on the base loop's thread: `k` calls of
-- `getNextLoop` there return the loops of thread 0, 1, and so on in turn, the `i`-th call that of
-- thread `i % n`, and none reads outside of the vector. Without threads the base loop is returned.
pub start-due :
    (base n k : ℕ) (spawn : ℕ → ℕ) (has_cb : Bool)
    → (p : EventLoopThreadPool) × (start true spawn has_cb (set_thread_num (init base) n) ≡ done p)
      × (0 < n → (p' : EventLoopThreadPool) × (next_loops k p ≡ done (due spawn n 0 k, p')))
      × (n ≡ 0 → get_next_loop true p ≡ done (base, p))
unfolding start set_thread_num init in_loop_thread get_next_loop next_of
start-due base n k spawn has_cb = (
  p,
  refl,
  λ h.
      next_loops-due k spawn n 0 p h (record {
        is_started = refl;
        num = refl;
        all_loops = refl;
        position = sym (mod-eq_of_lt h);
      }),
  λ z. alone z,
)
  where
    p : EventLoopThreadPool
    p = record {
      thread_num = n;
      base_loop = base;
      next_idx = 0;
      started = true;
      loops = start_loops spawn 0 n;
      initialized = if (n == 0) && has_cb then base ∷ [] else [];
    }

    alone : n ≡ 0 → next_of (start_loops spawn 0 n) p ≡ done (base, p)
    alone z = ap (λ t. next_of (start_loops spawn 0 t) p) z
