-- ===== src/Net/Acceptor.antt =====
-- The class of src/net/Acceptor.h and Acceptor.cc. Its channel is one of the poller in Net/Poller.
-- What `accept` and `open` answer is an argument; what is done with descriptors is recorded.
use czy_net_frame.Common.{
  ℕ, Bool, true, false, Option, none, some, List, [], ◌∷◌, ◌==◌, if◌then◌else◌, ◌>>=◌, ◌>>◌,
  Outcome, done, assert_failed, aborted,
}
use czy_net_frame.Net.Poller.{Poller, enable_read, disable_all, remove}

-- `given_out` is a call of m_acceptCb with a descriptor.
pub data Event : Type 0 where
  listens : Event
  given_out closed : ℕ → Event
  close_failed : Event

-- `none` as `idle_fd` is -1.
pub record Acceptor : Type 0 where
  pub on_loop_thread : Bool
  pub poller : Poller
  pub channel : ℕ
  pub has_accept_cb : Bool
  pub is_listen : Bool
  pub idle_fd : Option ℕ
  pub log : List Event

-- The result of `accept(2)`: a descriptor or an errno.
pub data Accepted : Type 0 where
  accepted : ℕ → Accepted
  accept_failed : ℕ → Accepted

abbrev pub add_event : Acceptor → Event → Acceptor
add_event a e = record a { log = e ∷ a.log }

abbrev pub assert_in_loop_thread : Acceptor → Outcome (Unit {0})
assert_in_loop_thread a = if a.on_loop_thread then done tt else aborted

-- `close` of a descriptor; of -1 it fails.
abbrev pub close_fd : Option ℕ → Acceptor → Acceptor
close_fd none a = add_event a close_failed
close_fd (some fd) a = add_event a (closed fd)

-- The constructor, with the memory's contents of `m_isListen` and what `open` gives.
pub construct : Poller → ℕ → Bool → Option ℕ → Outcome Acceptor
construct p channel is_listen none = assert_failed
construct p channel is_listen (some fd) = done (record {
  on_loop_thread = true;
  poller = p;
  channel = channel;
  has_accept_cb = false;
  is_listen = is_listen;
  idle_fd = some fd;
  log = [];
})

pub destructor : Acceptor → Outcome Acceptor
destructor a = do
  p ← disable_all a.poller a.channel
  q ← remove p a.channel
  done (close_fd a.idle_fd (record a { poller = q }))

pub set_new_connection_call_back : Acceptor → Acceptor
set_new_connection_call_back a = record a { has_accept_cb = true }

pub listen : Acceptor → Outcome Acceptor
listen a = do
  assert_in_loop_thread a
  let b : Acceptor = add_event (record a { is_listen = true }) listens
  p ← enable_read b.poller b.channel
  done (record b { poller = p })

-- `errno` EMFILE: the idle descriptor is given up to take the connection and close it, and is opened
-- again.
pub drop_connection : Option ℕ → Option ℕ → Acceptor → Acceptor
drop_connection again reopened a =
    let b = close_fd again (record (close_fd a.idle_fd a) { idle_fd = again }) in
    record b { idle_fd = reopened }

abbrev pub emfile : ℕ
emfile = 24

-- `handleRead`; `again` and `reopened` are what `accept` and `open` give in the last branch.
pub handle_read : Accepted → Option ℕ → Option ℕ → Acceptor → Outcome Acceptor
unfolding drop_connection
handle_read (accepted fd) again reopened a = do
  assert_in_loop_thread a
  done (if a.has_accept_cb then add_event a (given_out fd) else close_fd (some fd) a)
handle_read (accept_failed errno) again reopened a = do
  assert_in_loop_thread a
  done (if errno == emfile then drop_connection again reopened a else a)
