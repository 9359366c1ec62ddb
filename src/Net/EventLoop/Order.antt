-- ===== src/Net/EventLoop/Order.antt =====
-- The functors of `queueInLoop` in Net/EventLoop: the order of their calls, and one turn of the loop.
use czy_net_frame.Common.{
  ℕ, ◌≡◌, refl, sym, ap, ◌∙◌, subst, Bool, true, false, not, List, [], ◌∷◌, ◌++◌, append_assoc,
  append-nil, if◌then◌else◌, ◌>>◌, assert, Outcome, done,
}
use czy_net_frame.Net.EventLoop.{
  EventLoop, Phase, outside, testing, polling, handling, swapping, calling, init, turn,
  push_functor, wake_after_push, wake_up, handle_read, queue_in_loop, quit_store, quit_wake, loop,
  polled, handle_next, handled_all, swap_functors, call_next, called_all,
}
use czy_net_frame.Net.EventLoop.Steps.{
  World, Step, starts, tests, polls, handles, handled, swaps, calls, called, queues, quits, pushes,
  wakes, stores_stop, wakes_to_stop, Run, stays, goes_on, start,
}

-- The functors of the current batch that are not called yet.
abbrev pub left : Phase → List ℕ
left (calling fs) = fs
left _ = []

-- Those that were called, then those of the batch, then those that wait.
abbrev pub Ordered : EventLoop → Type 0
Ordered l = l.ran ++ (left l.phase ++ l.pending) ≡ l.queued

push-Ordered : (l : EventLoop) (f : ℕ) → Ordered l → Ordered (push_functor l f)
unfolding push_functor
push-Ordered l f o =
    ap (◌++◌ l.ran) (sym (append_assoc (left l.phase) l.pending (f ∷ [])))
    ∙ sym (append_assoc l.ran _ (f ∷ []))
    ∙ ap (λ t. t ++ (f ∷ [])) o

-- What only moves the phase between phases without a batch.
moved-Ordered :
    (l : EventLoop) (p : Phase) (fs : List ℕ)
    → left l.phase ≡ fs
    → left p ≡ fs
    → Ordered l
    → Ordered (record l { phase = p })
moved-Ordered l p fs e f o = ap (λ t. l.ran ++ (t ++ l.pending)) (f ∙ sym e) ∙ o

if-Ordered : (b : Bool) (l m : EventLoop) → Ordered l → Ordered m → Ordered (if b then l else m)
if-Ordered true l m o p = o
if-Ordered false l m o p = p

wake_after_push-Ordered : (b : Bool) (l : EventLoop) → Ordered l → Ordered (wake_after_push b l)
unfolding wake_after_push wake_up
wake_after_push-Ordered b l o = if-Ordered _ _ _ o o

turn-Ordered : (l : EventLoop) → left l.phase ≡ [] → Ordered l → Ordered (turn l)
unfolding turn
turn-Ordered l e o =
    if-Ordered l.is_running _ _ (moved-Ordered l polling [] e refl o)
      (moved-Ordered l outside [] e refl o)

loop-Ordered : (l m : EventLoop) → left l.phase ≡ [] → Ordered l → loop true l ≡ done m → Ordered m
unfolding loop
loop-Ordered l m e o h = started (not l.is_running) h
  where
    value : Outcome EventLoop → EventLoop
    value (done x) = x
    value _ = m

    started :
        (b : Bool)
        → (assert b >> done (record l { phase = testing; is_running = true })) ≡ done m
        → Ordered m
    started true h = subst Ordered (ap value h) (moved-Ordered l testing [] e refl o)
    started false h = cc

handle_next-Ordered :
    (l : EventLoop) (c : ℕ) (rest : List ℕ)
    → left l.phase ≡ []
    → Ordered l
    → Ordered (handle_next l c rest)
unfolding handle_next handle_read
handle_next-Ordered l c rest e o =
    if-Ordered _ _ _ (moved-Ordered l (handling rest) [] e refl o)
      (moved-Ordered l (handling rest) [] e refl o)

quit_wake-Ordered : (b : Bool) (l : EventLoop) → Ordered l → Ordered (quit_wake b l)
unfolding quit_wake wake_up
quit_wake-Ordered b l o = if-Ordered b _ _ o o

Step-Ordered : (v w : World) → Step v w → Ordered v.self → Ordered w.self
unfolding polled handled_all swap_functors call_next called_all queue_in_loop quit_store
Step-Ordered v w (starts {l = l} e h) o = loop-Ordered v.self l (ap left e) o h
Step-Ordered v w (tests e) o = turn-Ordered v.self (ap left e) o
Step-Ordered v w (polls active e) o = moved-Ordered v.self (handling active) [] (ap left e) refl o
Step-Ordered v w (handles c rest e) o = handle_next-Ordered v.self c rest (ap left e) o
Step-Ordered v w (handled e) o = moved-Ordered v.self swapping [] (ap left e) refl o
Step-Ordered v w (swaps e) o =
    ap (◌++◌ v.self.ran) (append-nil v.self.pending)
    ∙ ap (λ t. v.self.ran ++ (t ++ v.self.pending)) (sym (ap left e))
    ∙ o
Step-Ordered v w (calls f rest e) o =
    append_assoc v.self.ran (f ∷ []) _
    ∙ ap (λ t. v.self.ran ++ (t ++ v.self.pending)) (sym (ap left e))
    ∙ o
Step-Ordered v w (called e) o = moved-Ordered v.self testing [] (ap left e) refl o
Step-Ordered v w (queues f ne) o =
    wake_after_push-Ordered true (push_functor v.self f) (push-Ordered v.self f o)
Step-Ordered v w (quits ne) o = quit_wake-Ordered true (record (v.self) { is_running = false }) o
Step-Ordered v w (pushes f) o = push-Ordered v.self f o
Step-Ordered v w (wakes e) o = wake_after_push-Ordered false v.self o
Step-Ordered v w stores_stop o = o
Step-Ordered v w (wakes_to_stop e) o = quit_wake-Ordered false v.self o

-- Whatever the loop's thread and the other threads do, in any order: the functors called so far,
-- followed by the rest of the current batch and by those that wait, are all functors ever queued,
-- in the order of queueing. So each is called once, in that order, and none is lost.
pub Run-Ordered : (wakeup : ℕ) (w : World) → Run (start wakeup) w → Ordered w.self
unfolding init
Run-Ordered wakeup w stays = refl
Run-Ordered wakeup w (goes_on {v = v} r s) = Step-Ordered v w s (Run-Ordered wakeup v r)
