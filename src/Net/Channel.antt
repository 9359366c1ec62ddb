-- ===== src/Net/Channel.antt =====
-- The class of src/net/Channel.h and Channel.cc but for its calls of the loop, which are in
-- Net/Poller: the two event masks, and which callback an event reaches.
use Prim.Native.Nat.{bit_and, bit_or}
use czy_net_frame.Common.{
  ℕ, ◌-◌, ◌^◌, ◌≡◌, ◌≢◌, ◌↔◌, Bool, true, false, not, ◌&&◌, ◌||◌, Option, none, some, arith, ◌==◌,
  if◌then◌else◌, set, Outcome, done, thrown, bad_function_call,
}

-- `m_idxs`: KNEW, KDEL and KADDED of src/net/EpollPoller.cc.
pub data Index : Type 0 where
  new deleted added : Index

-- Callbacks are told apart by their kind; the four flags say whether one is set.
pub data Callback : Type 0 where
  read write close error : Callback

pub record Channel : Type 0 where
  pub fd : ℕ
  pub events : ℕ
  pub revents : ℕ
  pub index : Index
  pub has_read_cb : Bool
  pub has_write_cb : Bool
  pub has_close_cb : Bool
  pub has_err_cb : Bool
  pub added_to_loop : Bool
  pub tied : Bool

abbrev pub pollin : ℕ
pollin = 1

abbrev pub pollout : ℕ
pollout = 4

abbrev pub pollerr : ℕ
pollerr = 8

abbrev pub pollhup : ℕ
pollhup = 16

abbrev pub pollnval : ℕ
pollnval = 32

abbrev pub none_event : ℕ
none_event = 0

-- POLLIN | POLLPRI.
abbrev pub read_event : ℕ
read_event = 3

abbrev pub write_event : ℕ
write_event = 4

-- The constructor.
pub init : ℕ → Channel
init fd = record {
  fd = fd;
  events = 0;
  revents = 0;
  index = new;
  has_read_cb = false;
  has_write_cb = false;
  has_close_cb = false;
  has_err_cb = false;
  added_to_loop = true;
  tied = false;
}

-- `m_events |= mask` and `m_events &= ~mask` on a 32-bit int.
abbrev pub add_events : ℕ → ℕ → ℕ
add_events events mask = bit_or events mask

abbrev pub drop_events : ℕ → ℕ → ℕ
drop_events events mask = bit_and events (2 ^ 32 - 1 - mask)

abbrev pub has_event : ℕ → ℕ → Bool
has_event events mask = not (bit_and events mask == 0)

abbrev pub is_writing : Channel → Bool
is_writing c = has_event c.events write_event

abbrev pub is_reading : Channel → Bool
is_reading c = has_event c.events read_event

abbrev pub is_none_event : Channel → Bool
is_none_event c = c.events == none_event

pub tie : Channel → Channel
tie c = record c { tied = true }

-- `handleEventWithGraund`: the callback that is called, if any. Calling a read callback that was
-- never set throws.
pub handle_event_with_guard : Channel → Outcome (Option Callback)
handle_event_with_guard c =
    if has_event c.revents pollnval
    then done none
    else if has_event c.revents pollerr
    then done (if c.has_err_cb then some error else none)
    else if has_event c.revents pollin
    then (if c.has_read_cb then done (some read) else thrown bad_function_call)
    else if has_event c.revents pollout
    then done (if c.has_write_cb then some write else none)
    else done none

-- `handleEvent`; `alive` says whether the tied object still exists.
pub handle_event : Bool → Channel → Outcome (Option Callback)
unfolding handle_event_with_guard
handle_event alive c =
    if c.tied
    then (if alive then handle_event_with_guard c else done none)
    else handle_event_with_guard c

-- Whether an event gets through to the callbacks at all.
abbrev pub IsOpen : Bool → Channel → Type 0
IsOpen alive c = (c.tied ≡ true → alive ≡ true) × (has_event c.revents pollnval ≡ false)

-- What `handle_event` reaches when the read callback is set, over the plain tests.
reached : (tied alive nval err inn out has_err has_write : Bool) → Option Callback
reached tied alive nval err inn out has_err has_write =
    if (tied && not alive) || nval
    then none
    else if err
    then (if has_err then some error else none)
    else if inn
    then some read
    else if out && has_write
    then some write
    else none

module _ (t a n e i o he hw : Bool) where
  reached_error :
      (reached t a n e i o he hw ≡ some error)
      ↔ (((t ≡ true → a ≡ true) × (n ≡ false)) × (e ≡ true) × (he ≡ true))
  unfolding reached
  reached_error = ground arith

  reached_read :
      (reached t a n e i o he hw ≡ some read)
      ↔ (((t ≡ true → a ≡ true) × (n ≡ false)) × (e ≡ false) × (i ≡ true))
  unfolding reached
  reached_read = ground arith

  reached_write : (reached t a n e i o he hw ≡ some write) ↔ (
      ((t ≡ true → a ≡ true) × (n ≡ false)) × (e ≡ false) × (i ≡ false) × (o ≡ true) × (hw ≡ true))
  unfolding reached
  reached_write = ground arith

  reached-ne-close : reached t a n e i o he hw ≢ some close
  unfolding reached
  reached-ne-close = ground arith

abbrev reached_by : Bool → Channel → Option Callback
reached_by alive c =
    reached c.tied alive (has_event c.revents pollnval) (has_event c.revents pollerr)
      (has_event c.revents pollin) (has_event c.revents pollout) c.has_err_cb c.has_write_cb

handle_event-reached :
    (alive : Bool) (c : Channel)
    → c.has_read_cb ≡ true
    → handle_event alive c ≡ done (reached_by alive c)
unfolding handle_event reached
handle_event-reached alive c set = ground arith

-- Which callback one event reaches, for a channel whose read callback is set: an error hides
-- everything else, a readable channel is not asked to write in the same round, and the close
-- callback is reached by no event, a hang-up included.
pub handle_event_calls :
    (alive : Bool) (c : Channel)
    → c.has_read_cb ≡ true
    → (r : Option Callback) × (handle_event alive c ≡ done r)
      × ((r ≡ some error)
          ↔ (IsOpen alive c × (has_event c.revents pollerr ≡ true) × (c.has_err_cb ≡ true)))
      × ((r ≡ some read) ↔ (
          IsOpen alive c
          × (has_event c.revents pollerr ≡ false)
          × (has_event c.revents pollin ≡ true)))
      × ((r ≡ some write) ↔ (
          IsOpen alive c
          × (has_event c.revents pollerr ≡ false)
          × (has_event c.revents pollin ≡ false)
          × (has_event c.revents pollout ≡ true)
          × (c.has_write_cb ≡ true)))
      × (r ≢ some close)
handle_event_calls alive c set = (
  reached_by alive c,
  handle_event-reached alive c set,
  reached_error c.tied alive _ _ _ _ _ _,
  reached_read c.tied alive _ _ _ _ _ _,
  reached_write c.tied alive _ _ _ _ _ _,
  reached-ne-close c.tied alive _ _ _ _ _ _,
)
