-- ===== src/Net/EventLoop.antt =====
-- src/net/EventLoop.h and EventLoop.cc: the turn of the loop, the queue of functors and the wake-up
-- descriptor. A functor and a channel are numbers; what a functor does is a further step. The loop's
-- poller is that of Net/Poller, and its timers those of Net/TimerQueue.
-- A method says in its first argument whether the calling thread is the loop's.
pub mod Steps
pub mod Order
pub mod Turn
pub mod Wake
pub mod Tests
use czy_net_frame.Common.{
  ℕ, zero, suc, ◌+◌, ◌-◌, ◌*◌, ◌/◌, ◌%◌, ◌^◌, ◌≤◌, ◌<◌, min, max, ◌≡◌, refl, sym, ap, ap₂, ◌∙◌,
  subst, ◌≢◌, ◌↔◌, ◌⊎◌, inl, inr, Bool, true, false, not, ◌&&◌, ◌||◌, Option, none, some, List, [],
  ◌∷◌, ◌++◌, map, append_assoc, append-nil, arith, ltb, leb, ◌==◌, if◌then◌else◌, ltb→lt, lt→ltb,
  le→ltb, ltb→le, leb→le, lt→leb, le→leb, Bool-cases, Option-cases, ==→eq, ==→ne, leb-suc, leb→lt,
  length, get_elem?, set, take, drop, replicate, reverse_onto, All, length-append, length-take,
  length-drop, length-replicate, take-append-drop, take-append, drop-append, take_all, drop_all,
  take-length_append, drop-length_append, drop-append_add, length-append₃, All-append,
  length-reverse_onto, get_elem?-some, get_elem?-lt, length-map, ◌>>=◌, ◌>>◌, assert, >>=-eq-done,
  Ensures, Ensures->>=, Ensures-done, done-injective, Exception, Outcome, done, assert_failed,
  aborted, undefined, thrown, length_error, bad_function_call, out_of_range, logic_error, update,
  update_self, update_ne, ==_refl, ne→==, magnitude, neg, is_negative, pos_part, neg_part, sub_ℕ,
  ◌+ℤ◌, ◌-ℤ◌, ◌*ℤ◌, quot, rem, ltb_ℤ, leb_ℤ, ◌≤ℤ◌, ◌<ℤ◌, +ℤ_parts, -ℤ_parts, *ℤ_parts, one_part,
  eq_of_parts, sub_ℕ-le, sub_ℕ-lt, +ℤ_assoc, +ℤ-sub, +ℤ-pos, -ℤ-pos, *ℤ-pos, signed_32, is_int,
  to_int_32, neg_parts, is_int-small, +ℤ-le, -ℤ-le, *ℤ-le, Within, +ℤ-Within, -ℤ-Within,
  is_int-Within, ℤ, pos, negsuc,
}
use native.Mathlib.Decide.{ℕ_discrete}

-- Where the loop's thread stands in `loop` and `doPendingFunc`.
pub data Phase : Type 0 where
  -- `loop` was not called, or has returned.
  outside : Phase
  -- Before the test of `while (m_isRunning)`.
  testing : Phase
  -- In `poll`.
  polling : Phase
  -- Before the channels that are left.
  handling : List ℕ → Phase
  -- Before the swap of `doPendingFunc`, and before the functors that are left.
  swapping : Phase
  calling : List ℕ → Phase

-- `wake_count` is the counter of the eventfd. `ran` lists the functors that were called, and
-- `queued` those that were ever put into the queue, the earliest first.
pub record EventLoop : Type 0 where
  pub phase : Phase
  pub is_running : Bool
  pub is_handling : Bool
  pub calling_pending_functors : Bool
  pub channel_list : List ℕ
  pub current_active : Option ℕ
  pub wakeup_channel : ℕ
  pub pending : List ℕ
  pub wake_count : ℕ
  pub ran : List ℕ
  pub queued : List ℕ

pub init : ℕ → EventLoop
init wakeup = record {
  phase = outside;
  is_running = false;
  is_handling = false;
  calling_pending_functors = false;
  channel_list = [];
  current_active = none;
  wakeup_channel = wakeup;
  pending = [];
  wake_count = 0;
  ran = [];
  queued = [];
}

-- `wakeUp` writes 1 to the non-blocking eventfd, which refuses to go above 2 ^ 64 - 2.
pub wake_up : EventLoop → EventLoop
wake_up l = record l {
  wake_count = if ltb l.wake_count (2 ^ 64 - 2) then suc l.wake_count else l.wake_count;
}

-- `handleRead` reads the eventfd, which resets it.
pub handle_read : EventLoop → EventLoop
handle_read l = record l { wake_count = 0 }

-- The two halves of `queueInLoop`, between which another thread may be overtaken.
pub push_functor : EventLoop → ℕ → EventLoop
push_functor l f = record l { pending = l.pending ++ (f ∷ []); queued = l.queued ++ (f ∷ []) }

pub wake_after_push : Bool → EventLoop → EventLoop
unfolding wake_up
wake_after_push in_loop l = if not in_loop || l.calling_pending_functors then wake_up l else l

pub queue_in_loop : Bool → EventLoop → ℕ → EventLoop
unfolding push_functor wake_after_push
queue_in_loop in_loop l f = wake_after_push in_loop (push_functor l f)

-- `runInLoop`: the functor is called at once, or queued.
pub run_in_loop : Bool → EventLoop → ℕ → EventLoop ⊎ EventLoop
unfolding queue_in_loop
run_in_loop true l f = inl l
run_in_loop false l f = inr (queue_in_loop false l f)

-- The two statements of `quit`, which takes no lock.
pub quit_store : EventLoop → EventLoop
quit_store l = record l { is_running = false }

pub quit_wake : Bool → EventLoop → EventLoop
unfolding wake_up
quit_wake in_loop l = if in_loop then l else wake_up l

-- The test of `while (m_isRunning)`, and the clearing of the list in front of `poll`.
pub turn : EventLoop → EventLoop
turn l =
    if l.is_running
    then record l { phase = polling; channel_list = [] }
    else record l { phase = outside }

-- The call of `loop`, up to the first test. A stop that was asked for before is overwritten.
pub loop : Bool → EventLoop → Outcome EventLoop
loop in_loop l = do
  assert (not l.is_running)
  if in_loop then done (record l { phase = testing; is_running = true }) else aborted

-- `poll` has filled the list.
pub polled : EventLoop → List ℕ → EventLoop
polled l active = record l { phase = handling active; is_handling = true; channel_list = active }

-- The next channel, whose callback is then called; that of the wake-up channel is `handleRead`.
pub handle_next : EventLoop → ℕ → List ℕ → EventLoop
unfolding handle_read
handle_next l c rest =
    let l1 : EventLoop = record l { phase = handling rest; current_active = some c } in
    if c == l.wakeup_channel then handle_read l1 else l1

-- After the last channel, to the first line of `doPendingFunc`.
pub handled_all : EventLoop → EventLoop
handled_all l = record l { phase = swapping; is_handling = false; calling_pending_functors = true }

pub swap_functors : EventLoop → EventLoop
swap_functors l = record l { phase = calling l.pending; pending = [] }

pub call_next : EventLoop → ℕ → List ℕ → EventLoop
call_next l f rest = record l { phase = calling rest; ran = l.ran ++ (f ∷ []) }

-- The end of `doPendingFunc`.
pub called_all : EventLoop → EventLoop
called_all l = record l { phase = testing; calling_pending_functors = false }

-- The loops over the channels and over the functors, where the callbacks do nothing to the loop.
pub handle_all : EventLoop → List ℕ → EventLoop
unfolding handle_next
handle_all l [] = l
handle_all l (c ∷ cs) = handle_all (handle_next l c cs) cs

pub call_all : EventLoop → List ℕ → EventLoop
unfolding call_next
call_all l [] = l
call_all l (f ∷ fs) = call_all (call_next l f fs) fs

-- The body of `while (m_isRunning)` from the return of `poll` on, and the next test.
pub do_pending : EventLoop → EventLoop
unfolding swap_functors call_all called_all
do_pending l = called_all (call_all (swap_functors l) l.pending)

pub one_turn : EventLoop → List ℕ → EventLoop
unfolding turn polled handle_all handled_all do_pending
one_turn l active = turn (do_pending (handled_all (handle_all (polled l active) active)))

is_current : Option ℕ → ℕ → Bool
is_current none c = false
is_current (some d) c = d == c

is_listed : ℕ → List ℕ → Bool
is_listed c [] = false
is_listed c (d ∷ ds) = (d == c) || is_listed c ds

-- The assertions of `removeChannel` in front of the poller's.
pub check_remove : Bool → EventLoop → ℕ → Outcome (Unit {0})
unfolding is_current is_listed
check_remove in_loop l c = do
  if in_loop then done tt else aborted
  if l.is_handling
      then assert (is_current l.current_active c || not (is_listed c l.channel_list))
      else done tt
