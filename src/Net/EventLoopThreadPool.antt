-- ===== src/Net/EventLoopThreadPool.antt =====
-- src/net/EventLoopThreadPool.h and EventLoopThreadPool.cc: the loops of the pool's threads, handed
-- out in turn. A loop is a number. The loop that a new thread runs, which `EventLoopThread::startLoop`
-- returns, is an argument by the thread's index.
-- A method says in its first argument whether the calling thread is the base loop's.
pub mod Turns
pub mod Tests
use czy_net_frame.Common.{
  ℕ, zero, suc, ◌+◌, ◌-◌, ◌*◌, ◌/◌, ◌%◌, ◌^◌, ◌≤◌, ◌<◌, min, max, ◌≡◌, refl, sym, ap, ap₂, ◌∙◌,
  subst, ◌≢◌, ◌↔◌, ◌⊎◌, inl, inr, Bool, true, false, not, ◌&&◌, ◌||◌, Option, none, some, List, [],
  ◌∷◌, ◌++◌, map, append_assoc, append-nil, arith, ltb, leb, ◌==◌, if◌then◌else◌, ltb→lt, lt→ltb,
  le→ltb, ltb→le, leb→le, lt→leb, le→leb, Bool-cases, Option-cases, length, get_elem?, set, take,
  drop, replicate, reverse_onto, All, length-append, length-take, length-drop, length-replicate,
  take-append-drop, take-append, drop-append, take_all, drop_all, take-length_append,
  drop-length_append, drop-append_add, length-append₃, All-append, length-reverse_onto, ◌>>=◌, ◌>>◌,
  assert, >>=-eq-done, Exception, Outcome, done, assert_failed, aborted, undefined, thrown,
  length_error, bad_function_call, out_of_range, logic_error, update, update_self, update_ne,
  ==_refl, ne→==,
}

-- `initialized` lists the loops for which `start` itself called the callback.
pub record EventLoopThreadPool : Type 0 where
  pub thread_num : ℕ
  pub base_loop : ℕ
  pub next_idx : ℕ
  pub started : Bool
  pub loops : List ℕ
  pub initialized : List ℕ

unfoldable pub init : ℕ → EventLoopThreadPool
init base = record {
  thread_num = 0;
  base_loop = base;
  next_idx = 0;
  started = false;
  loops = [];
  initialized = [];
}

unfoldable pub set_thread_num : EventLoopThreadPool → ℕ → EventLoopThreadPool
set_thread_num p n = record p { thread_num = n }

unfoldable pub in_loop_thread : Bool → Outcome (Unit {0})
in_loop_thread true = done tt
in_loop_thread false = aborted

-- The loops of the threads from `i` on, `n` of them.
unfoldable pub start_loops : (ℕ → ℕ) → ℕ → ℕ → List ℕ
start_loops spawn i zero = []
start_loops spawn i (suc n) = spawn i ∷ start_loops spawn (suc i) n

unfoldable pub start : Bool → (ℕ → ℕ) → Bool → EventLoopThreadPool → Outcome EventLoopThreadPool
unfolding in_loop_thread start_loops
start in_loop spawn has_cb p = do
  assert (not p.started)
  in_loop_thread in_loop
  done (record p {
    started = true;
    loops = p.loops ++ start_loops spawn 0 p.thread_num;
    initialized = if (p.thread_num == 0) && has_cb then p.base_loop ∷ [] else [];
  })

-- `m_vecLoops[m_nextIdx]`; outside of the vector it is undefined.
unfoldable pub loop_at : Option ℕ → Outcome ℕ
loop_at none = undefined
loop_at (some l) = done l

unfoldable pub next_of : List ℕ → EventLoopThreadPool → Outcome (ℕ × EventLoopThreadPool)
unfolding loop_at
next_of [] p = done (p.base_loop, p)
next_of (l ∷ ls) p = do
  loop ← loop_at (get_elem? (l ∷ ls) p.next_idx)
  done (loop, record p { next_idx = (p.next_idx + 1) % p.thread_num })

unfoldable pub get_next_loop : Bool → EventLoopThreadPool → Outcome (ℕ × EventLoopThreadPool)
unfolding in_loop_thread next_of
get_next_loop in_loop p = do in_loop_thread in_loop; assert p.started; next_of p.loops p

-- Calls in a row, and the loops that they return.
pub next_loops : ℕ → EventLoopThreadPool → Outcome (List ℕ × EventLoopThreadPool)
unfolding get_next_loop
next_loops zero p = done ([], p)
next_loops (suc k) p = do
  (l, p') ← get_next_loop true p
  (ls, p'') ← next_loops k p'
  done (l ∷ ls, p'')
