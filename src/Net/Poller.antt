-- ===== src/Net/Poller.antt =====
-- src/net/EpollPoller.h and EpollPoller.cc over the channels of Net/Channel, with the methods of
-- Channel that go through the loop (`update`, `remove`, `enableRead` and the like).
-- `EventLoop::updateChannel` passes the call on, and `removeChannel` too where its own assertions,
-- on the loop's thread and on the channel being handled, hold.
-- A channel's address is a number; the store maps it to the object.
pub mod Kernel
pub mod Changes
pub mod Removal
pub mod Active
pub mod Masks
pub mod Tests
use czy_net_frame.Common.{
  ℕ, zero, suc, ◌+◌, ◌-◌, ◌*◌, ◌/◌, ◌%◌, ◌^◌, ◌≤◌, ◌<◌, min, max, ◌≡◌, refl, sym, ap, ap₂, ◌∙◌,
  subst, ◌≢◌, ◌↔◌, ◌⊎◌, inl, inr, Bool, true, false, not, ◌&&◌, ◌||◌, Option, none, some, List, [],
  ◌∷◌, ◌++◌, map, append_assoc, append-nil, arith, ltb, leb, ◌==◌, if◌then◌else◌, ltb→lt, lt→ltb,
  le→ltb, ltb→le, leb→le, lt→leb, le→leb, Bool-cases, Option-cases, length, get_elem?, set, take,
  drop, replicate, All, length-append, length-take, length-drop, length-replicate, take-append-drop,
  take-append, drop-append, take_all, drop_all, take-length_append, drop-length_append,
  drop-append_add, length-append₃, All-append, ◌>>=◌, ◌>>◌, assert, >>=-eq-done, Exception, Outcome,
  done, assert_failed, aborted, undefined, thrown, length_error, bad_function_call, out_of_range,
  logic_error, update, update_self, update_ne, ==_refl, ne→==,
}
use czy_net_frame.Net.Channel.{
  Channel, Index, new, deleted, added, add_events, drop_events, read_event, write_event, none_event,
  is_none_event,
}

pub data CtlOp : Type 0 where
  ctl_add ctl_mod ctl_del : CtlOp

-- One call of `epoll_ctl`. Its return value is only logged.
pub record Ctl : Type 0 where
  pub op : CtlOp
  pub fd : ℕ
  pub events : ℕ

-- `m_mapFdToChannel`, the channels, and the calls of `epoll_ctl` so far, the latest first.
pub record Poller : Type 0 where
  pub by_fd : ℕ → Option ℕ
  pub channels : ℕ → Channel
  pub calls : List Ctl

-- Whether the file descriptor's entry is this channel.
pub is_entry : Option ℕ → ℕ → Bool
is_entry none c = false
is_entry (some d) c = d == c

-- `hasChannel` of src/net/Poller.cc.
pub has_channel : Poller → ℕ → Bool
unfolding is_entry
has_channel p c = is_entry (p.by_fd (p.channels c).fd) c

-- `EpollPoller::update`: one call of `epoll_ctl`.
pub ctl : CtlOp → Poller → ℕ → Poller
ctl op p c = record p {
  calls = record { op = op; fd = (p.channels c).fd; events = (p.channels c).events } ∷ p.calls;
}

pub set_index : Poller → ℕ → Index → Poller
set_index p c i = record p { channels = update p.channels c (record (p.channels c) { index = i }) }

is_absent : Option ℕ → Bool
is_absent none = true
is_absent (some d) = false

-- The three branches of `updateChannel`.
register : Poller → ℕ → Outcome Poller
unfolding is_absent set_index ctl
register p c = do
  assert (is_absent (p.by_fd (p.channels c).fd))
  let q : Poller = record p { by_fd = update p.by_fd (p.channels c).fd (some c) }
  done (ctl ctl_add (set_index q c added) c)

register_again : Poller → ℕ → Outcome Poller
unfolding has_channel set_index ctl
register_again p c = do assert (has_channel p c); done (ctl ctl_add (set_index p c added) c)

adjust : Poller → ℕ → Outcome Poller
unfolding has_channel set_index ctl
adjust p c = do
  assert (has_channel p c)
  done (
      if is_none_event (p.channels c)
      then set_index (ctl ctl_del p c) c deleted
      else ctl ctl_mod p c)

update_by : Index → Poller → ℕ → Outcome Poller
update_by new = register
update_by deleted = register_again
update_by added = adjust

pub update_channel : Poller → ℕ → Outcome Poller
unfolding update_by register register_again adjust
update_channel p c = update_by (p.channels c).index p c

-- The DEL call of `removeChannel`, for a channel that epoll still watches.
drop_watch : Index → Poller → ℕ → Poller
unfolding ctl
drop_watch added p c = ctl ctl_del p c
drop_watch _ p c = p

is_deleted : Index → Bool
is_deleted deleted = true
is_deleted _ = false

pub remove_channel : Poller → ℕ → Outcome Poller
unfolding has_channel drop_watch is_deleted set_index
remove_channel p c = do
  assert (has_channel p c)
  assert (not (is_deleted (p.channels c).index))
  let q : Poller = record p { by_fd = update p.by_fd (p.channels c).fd none }
  done (set_index (drop_watch (q.channels c).index q c) c deleted)

-- A change of `m_events`, and the call of `update` behind it.
pub set_events : Poller → ℕ → ℕ → Poller
set_events p c events = record p {
  channels = update p.channels c (record (p.channels c) { events = events });
}

pub change_events : Poller → ℕ → ℕ → Outcome Poller
unfolding set_events
change_events p c events = update_channel (set_events p c events) c

pub enable_read : Poller → ℕ → Outcome Poller
unfolding change_events
enable_read p c = change_events p c (add_events (p.channels c).events read_event)

-- `enableWrite` calls `update` twice.
pub enable_write : Poller → ℕ → Outcome Poller
unfolding change_events
enable_write p c = do
  q ← change_events p c (add_events (p.channels c).events write_event)
  update_channel q c

pub disable_read : Poller → ℕ → Outcome Poller
unfolding change_events
disable_read p c = change_events p c (drop_events (p.channels c).events read_event)

pub disable_write : Poller → ℕ → Outcome Poller
unfolding change_events
disable_write p c = change_events p c (drop_events (p.channels c).events write_event)

pub disable_all : Poller → ℕ → Outcome Poller
unfolding change_events
disable_all p c = change_events p c none_event

-- `Channel::remove`.
pub remove : Poller → ℕ → Outcome Poller
remove p c = do
  assert (is_none_event (p.channels c))
  remove_channel
      (record p {
        channels = update p.channels c (record (p.channels c) { added_to_loop = false });
      })
      c

-- `fillActiveList` over the events that `epoll_wait` returned, each the channel and its events: the
-- active channels in that order, and the poller with their `m_revents` set.
pub fill_active_list : Poller → List (ℕ × ℕ) → Outcome (List ℕ × Poller)
unfolding has_channel
fill_active_list p [] = done ([], p)
fill_active_list p ((c, events) ∷ rest) = do
  assert (has_channel p c)
  (list, q) ←
      fill_active_list
        (record p { channels = update p.channels c (record (p.channels c) { revents = events }) })
        rest
  done (c ∷ list, q)

-- What `epoll_wait` reports: an errno, or events.
pub data Waited : Type 0 where
  wait_failed : ℕ → Waited
  ready : List (ℕ × ℕ) → Waited

-- `poll`: the active channels, the poller, and the size of `m_vecEvents` afterwards.
pub poll : Poller → ℕ → Waited → Outcome (List ℕ × Poller × ℕ)
unfolding fill_active_list
poll p size (wait_failed errno) = done ([], p, size)
poll p size (ready []) = done ([], p, size)
poll p size (ready (e ∷ es)) = do
  assert (leb (length (e ∷ es)) size)
  (list, q) ← fill_active_list p (e ∷ es)
  done (list, q, if length (e ∷ es) == size then 2 * size else size)
