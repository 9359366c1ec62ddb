-- ===== src/Net/TimerQueue.antt =====
-- src/net/TimerQueue.h and TimerQueue.cc with src/net/Timer.h and TimerId.h: the pending timers by
-- expiration, the set of active ones, and the timer descriptor.
-- A time is its microseconds, a `Timer *` is a number, and a deleted timer is gone from the heap. A
-- timer that repeats has its interval in microseconds.
pub mod Sets
pub mod Matching
pub mod Adding
pub mod Expiry
pub mod Renewed
pub mod Renewal
pub mod Tests
use czy_net_frame.Common.{
  ℕ, zero, suc, ◌+◌, ◌-◌, ◌*◌, ◌/◌, ◌%◌, ◌^◌, ◌≤◌, ◌<◌, min, max, ◌≡◌, refl, sym, ap, ap₂, ◌∙◌,
  subst, ◌≢◌, ◌↔◌, ◌⊎◌, inl, inr, Bool, true, false, not, ◌&&◌, ◌||◌, Option, none, some, List, [],
  ◌∷◌, ◌++◌, map, append_assoc, append-nil, arith, ltb, leb, ◌==◌, if◌then◌else◌, ltb→lt, lt→ltb,
  le→ltb, ltb→le, leb→le, lt→leb, le→leb, Bool-cases, Option-cases, length, get_elem?, set, take,
  drop, replicate, reverse_onto, All, length-append, length-take, length-drop, length-replicate,
  take-append-drop, take-append, drop-append, take_all, drop_all, take-length_append,
  drop-length_append, drop-append_add, length-append₃, All-append, length-reverse_onto, ◌>>=◌, ◌>>◌,
  assert, >>=-eq-done, Exception, Outcome, done, assert_failed, aborted, undefined, thrown,
  length_error, bad_function_call, out_of_range, logic_error, update, update_self, update_ne,
  ==_refl, ne→==,
}

abbrev pub Pair : Type 0
Pair = ℕ × ℕ

-- `std::pair`'s order and equality.
abbrev pub before : Pair → Pair → Bool
before x y = ltb x.0 y.0 || ((x.0 == y.0) && ltb x.1 y.1)

abbrev pub same : Pair → Pair → Bool
same x y = (x.0 == y.0) && (x.1 == y.1)

-- `find`, `insert` and `erase` of a `std::set`, as the list of its elements in order.
abbrev pub has : Pair → List Pair → Bool
has e [] = false
has e (x ∷ xs) = same e x || has e xs

abbrev pub set_insert : Pair → List Pair → List Pair
set_insert e [] = e ∷ []
set_insert e (x ∷ xs) =
    let rest = set_insert e xs in
    if before e x then e ∷ x ∷ xs else if before x e then x ∷ rest else x ∷ xs

abbrev pub set_erase : Pair → List Pair → List Pair
set_erase e [] = []
set_erase e (x ∷ xs) = let rest = set_erase e xs in if same e x then xs else x ∷ rest

pub record Timer : Type 0 where
  pub expiration : ℕ
  pub repeat : Bool
  pub interval : ℕ
  pub sequence : ℕ

-- `m_timeList` of expirations and timers, `m_activeTimers` and `m_cancelingTimer` of timers and
-- sequence numbers, and the time for which the descriptor was last set.
pub record TimerQueue : Type 0 where
  pub timers : ℕ → Option Timer
  pub time_list : List Pair
  pub active : List Pair
  pub calling_expired : Bool
  pub canceling : List Pair
  pub armed : Option ℕ

-- A use of a timer that was deleted is undefined.
deref : Option Timer → Outcome Timer
deref none = undefined
deref (some t) = done t

sizes_agree : TimerQueue → Bool
sizes_agree q = length q.time_list == length q.active

is_earliest : ℕ → List Pair → Bool
is_earliest time [] = true
is_earliest time (e ∷ es) = ltb time e.0

-- `insert`: whether the earliest expiration has changed, and the queue.
pub insert : TimerQueue → ℕ → Outcome (Bool × TimerQueue)
unfolding deref sizes_agree is_earliest
insert q a = do
  assert (sizes_agree q)
  t ← deref (q.timers a)
  assert (not (has (t.expiration, a) q.time_list))
  assert (not (has (a, t.sequence) q.active))
  let q' : TimerQueue = record q {
    time_list = set_insert (t.expiration, a) q.time_list;
    active = set_insert (a, t.sequence) q.active;
  }
  assert (sizes_agree q')
  done (is_earliest t.expiration q.time_list, q')

-- `addTimerInLoop`, on the loop's thread.
pub add_timer_in_loop : TimerQueue → ℕ → Outcome TimerQueue
unfolding insert deref
add_timer_in_loop q a = do
  (changed, q') ← insert q a
  t ← deref (q'.timers a)
  done (if changed then record q' { armed = some t.expiration } else q')

-- The branch of `cancelInLoop` for an active timer, which is deleted.
cancel_active : TimerQueue → Pair → Outcome TimerQueue
unfolding deref
cancel_active q id = do
  t ← deref (q.timers id.0)
  assert (has (t.expiration, id.0) q.time_list)
  done (record q {
    timers = update q.timers id.0 none;
    time_list = set_erase (t.expiration, id.0) q.time_list;
    active = set_erase id q.active;
  })

cancel_other : TimerQueue → Pair → TimerQueue
cancel_other q id =
    if q.calling_expired then record q { canceling = set_insert id q.canceling } else q

-- `cancelInLoop`, with the timer and the sequence number of the TimerId.
pub cancel_in_loop : TimerQueue → Pair → Outcome TimerQueue
unfolding sizes_agree cancel_active cancel_other
cancel_in_loop q id = do
  assert (sizes_agree q)
  q' ← if has id q.active then cancel_active q id else done (cancel_other q id)
  assert (sizes_agree q')
  done q'

-- `lower_bound`: the elements before `e`, and the others.
pub split_at : Pair → List Pair → List Pair × List Pair
split_at e [] = ([], [])
split_at e (x ∷ xs) =
    let rest = split_at e xs in if before x e then (x ∷ rest.0, rest.1) else ([], x ∷ xs)

is_later : ℕ → List Pair → Bool
is_later now [] = true
is_later now (e ∷ es) = ltb now e.0

-- The expired timers leave the active set, each with an assertion.
erase_active : (ℕ → Option Timer) → List Pair → List Pair → Outcome (List Pair)
unfolding deref
erase_active timers [] active = done active
erase_active timers (e ∷ es) active = do
  t ← deref (timers e.1)
  assert (has (e.1, t.sequence) active)
  erase_active timers es (set_erase (e.1, t.sequence) active)

-- `getExpired`; UINTPTR_MAX is above every address.
pub get_expired : TimerQueue → ℕ → Outcome (List Pair × TimerQueue)
unfolding split_at is_later erase_active sizes_agree
get_expired q now = do
  let (expired, rest) = split_at (now, 2 ^ 64 - 1) q.time_list
  assert (is_later now rest)
  active ← erase_active q.timers expired q.active
  let q' : TimerQueue = record q { time_list = rest; active = active }
  assert (sizes_agree q')
  done (expired, q')

-- `Timer::restart`, of a timer that repeats.
restart : TimerQueue → ℕ → Timer → ℕ → TimerQueue
restart q a t now = record q {
  timers = update q.timers a (some (record t { expiration = now + t.interval }));
}

-- The loop of `reset`: a timer that repeats and was not cancelled begins again, another is deleted.
renew : TimerQueue → List Pair → ℕ → Outcome TimerQueue
unfolding deref insert restart
renew q [] now = done q
renew q (e ∷ es) now = do
  t ← deref (q.timers e.1)
  q' ←
      if t.repeat && not (has (e.1, t.sequence) q.canceling)
      then (insert (restart q e.1 t now) e.1 >>= λ r. done r.1)
      else done (record q { timers = update q.timers e.1 none })
  renew q' es now

-- The descriptor is set for the first expiration; one of 0 is not valid.
rearm : TimerQueue → List Pair → TimerQueue
rearm q [] = q
rearm q (e ∷ es) = if ltb 0 e.0 then record q { armed = some e.0 } else q

pub reset : TimerQueue → List Pair → ℕ → Outcome TimerQueue
unfolding renew rearm
reset q expired now = do q' ← renew q expired now; done (rearm q' q'.time_list)

-- The two halves of `handleRead`, around the callbacks of the expired timers, which may add and
-- cancel timers.
pub begin_read : TimerQueue → ℕ → Outcome (List Pair × TimerQueue)
begin_read q now = do
  (expired, q') ← get_expired q now
  done (expired, record q' { calling_expired = true })

pub end_read : TimerQueue → List Pair → ℕ → Outcome TimerQueue
end_read q expired now = reset (record q { calling_expired = false }) expired now
