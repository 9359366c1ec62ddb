-- ===== src/Net/TcpConnection.antt =====
-- The class of src/net/TcpConnection.h and TcpConnection.cc. The connection's buffers are those of
-- Net/Buffer, and its channel is one of the poller in Net/Poller, with the loop's poller as a part
-- of the state.
-- What a method asks of others is recorded: callbacks and system calls in `log`, tasks for the loop
-- in `pending`. A callback of the user may call the connection again; that is a further step.
-- A queued `send` holds the bytes themselves; the code holds a pointer to the caller's.
pub mod Sending
pub mod Tasks
pub mod Stream
pub mod WriteOut
pub mod ReadIn
pub mod Lifetime
pub mod Closing
pub mod Tests
use czy_net_frame.Common.{
  ℕ, zero, suc, ◌+◌, ◌-◌, ◌*◌, ◌/◌, ◌%◌, ◌^◌, ◌≤◌, ◌<◌, min, max, ◌≡◌, refl, sym, ap, ap₂, ◌∙◌,
  subst, ◌≢◌, ◌↔◌, ◌⊎◌, inl, inr, Bool, true, false, not, ◌&&◌, ◌||◌, Option, none, some, List, [],
  ◌∷◌, ◌++◌, map, append_assoc, append-nil, arith, ltb, leb, ◌==◌, if◌then◌else◌, ltb→lt, lt→ltb,
  le→ltb, ltb→le, leb→le, lt→leb, le→leb, Bool-cases, Option-cases, ==→eq, ==→ne, leb-suc, leb→lt,
  length, get_elem?, set, take, drop, replicate, reverse_onto, All, length-append, length-take,
  length-drop, length-replicate, take-append-drop, take-append, drop-append, take_all, drop_all,
  take-length_append, drop-length_append, drop-append_add, length-append₃, All-append,
  length-reverse_onto, get_elem?-some, get_elem?-lt, ◌>>=◌, ◌>>◌, assert, >>=-eq-done, Ensures,
  Ensures->>=, Ensures-done, done-injective, Exception, Outcome, done, assert_failed, aborted,
  undefined, thrown, length_error, bad_function_call, out_of_range, logic_error, update,
  update_self, update_ne, ==_refl, ne→==, magnitude, neg, is_negative, pos_part, neg_part, sub_ℕ,
  ◌+ℤ◌, ◌-ℤ◌, ◌*ℤ◌, quot, rem, ltb_ℤ, leb_ℤ, ◌≤ℤ◌, ◌<ℤ◌, +ℤ_parts, -ℤ_parts, *ℤ_parts, one_part,
  eq_of_parts, sub_ℕ-le, sub_ℕ-lt, +ℤ_assoc, +ℤ-sub, +ℤ-pos, -ℤ-pos, *ℤ-pos, signed_32, to_int_32,
  neg_parts, ℤ, pos, negsuc,
}
use czy_net_frame.Net.Buffer.{
  init, initial_size, Buffer, sub_size, readable_bytes, read_at, peek_all, retrieve, retrieve_all,
  retrieve_all_as_string, append, Received, ReadResult, read_fd,
}
use czy_net_frame.Net.Channel.{Channel, is_reading, is_writing}
use czy_net_frame.Net.Poller.{
  Poller, enable_read, enable_write, disable_read, disable_write, disable_all, remove,
}

-- KCONNECT, KCONNECTING, KDISCONNECTED and KDISCONNECTING.
pub data ConnectionStat : Type 0 where
  connected connecting disconnected disconnecting : ConnectionStat

pub data Task : Type 0 where
  send_finish_task : Task
  high_water_task : ℕ → Task
  send_task : List ℕ → Task
  shutdown_task force_close_task start_read_task stop_read_task : Task

-- `sent` is what the kernel took of a `write`. The callbacks of the user are `up_or_down`
-- (m_connectionCb), `message`, `close_notice` (m_closeCb), `send_finished` and `high_water`.
pub data Event : Type 0 where
  sent : List ℕ → Event
  up_or_down message close_notice send_finished : Event
  high_water : ℕ → Event
  shut_down_write error_seen force_close_timer : Event

-- `on_loop_thread` says whether the calling thread is the loop's.
pub record TcpConnection : Type 0 where
  pub stat : ConnectionStat
  pub reading : Bool
  pub on_loop_thread : Bool
  pub poller : Poller
  pub channel : ℕ
  pub input : Buffer
  pub output : Buffer
  pub high_water_mark : ℕ
  pub has_send_finish_cb : Bool
  pub has_high_water_cb : Bool
  pub log : List Event
  pub pending : List Task

-- What `write(2)` returns: the number of bytes taken, or an errno.
pub data Written : Type 0 where
  wrote : ℕ → Written
  write_failed : ℕ → Written

-- The return value in a `size_t`: -1 is the largest one.
abbrev pub as_size : Written → ℕ
as_size (wrote n) = n
as_size (write_failed errno) = 2 ^ 64 - 1

abbrev pub own_channel : TcpConnection → Channel
own_channel c = c.poller.channels c.channel

abbrev pub add_event : TcpConnection → Event → TcpConnection
add_event c e = record c { log = e ∷ c.log }

-- `m_loop->queueInLoop`.
abbrev pub queue_in_loop : TcpConnection → Task → TcpConnection
queue_in_loop c t = record c { pending = c.pending ++ (t ∷ []) }

-- `m_loop->assertInLoopThread`, which ends in LOG_FATAL.
abbrev pub assert_in_loop_thread : TcpConnection → Outcome (Unit {0})
assert_in_loop_thread c = if c.on_loop_thread then done tt else aborted

abbrev pub is_stat : ConnectionStat → ConnectionStat → Bool
is_stat connected connected = true
is_stat connecting connecting = true
is_stat disconnected disconnected = true
is_stat disconnecting disconnecting = true
is_stat _ _ = false

abbrev pub is_open : ConnectionStat → Bool
is_open s = is_stat s connected || is_stat s disconnecting

abbrev pub with_poller : TcpConnection → Outcome Poller → Outcome TcpConnection
with_poller c m = m >>= λ p. done (record c { poller = p })

-- `shutdownInLoop`.
pub shutdown_in_loop : TcpConnection → Outcome TcpConnection
shutdown_in_loop c = do
  assert_in_loop_thread c
  done (if is_writing (own_channel c) then add_event c shut_down_write else c)

-- `handleClose`.
pub handle_close : TcpConnection → Outcome TcpConnection
handle_close c = do
  assert_in_loop_thread c
  assert (is_open c.stat)
  done (add_event (add_event (record c { stat = disconnected }) up_or_down) close_notice)

pub force_close_in_loop : TcpConnection → Outcome TcpConnection
unfolding handle_close
force_close_in_loop c = do
  assert_in_loop_thread c
  if is_open c.stat then handle_close c else done c

-- `handleRead`: `n` is a `size_t`, so a failed read, -1, is above 0.
count_of : Option ℕ → ℕ
count_of none = 2 ^ 64 - 1
count_of (some n) = n

after_read : ℕ → TcpConnection → Outcome TcpConnection
unfolding handle_close
after_read n c =
    if ltb 0 n
    then done (add_event c message)
    else if n == 0
    then handle_close c
    else done (add_event c error_seen)

pub handle_read : (List ℕ → Received) → TcpConnection → Outcome TcpConnection
unfolding count_of after_read
handle_read readv c = do
  assert_in_loop_thread c
  r ← read_fd readv c.input
  after_read (count_of r.count) (record c { input = r.after })

-- The tail of `handleWrite` once the output buffer is empty.
after_drain : TcpConnection → Outcome TcpConnection
unfolding shutdown_in_loop
after_drain c =
    let c1 = if c.has_send_finish_cb then queue_in_loop c send_finish_task else c in
    if is_stat c1.stat disconnecting then shutdown_in_loop c1 else done c1

drained : TcpConnection → Outcome TcpConnection
unfolding after_drain
drained c = do c1 ← with_poller c (disable_write c.poller c.channel); after_drain c1

-- What the kernel took of the bytes that were offered to it.
taken : List ℕ → Written → TcpConnection → TcpConnection
taken bytes (wrote n) c = add_event c (sent (take n bytes))
taken bytes (write_failed errno) c = c

-- What the kernel took leaves the output buffer.
after_write : TcpConnection → ℕ → Outcome TcpConnection
unfolding drained
after_write c n = do
  out ← retrieve c.output n
  let c1 : TcpConnection = record c { output = out }
  if readable_bytes out == 0 then drained c1 else done c1

write_out : (List ℕ → Written) → TcpConnection → Outcome TcpConnection
unfolding taken after_write
write_out write c = do
  bytes ← peek_all c.output
  let c1 = taken bytes (write bytes) c
  if ltb 0 (as_size (write bytes)) then after_write c1 (as_size (write bytes)) else done c1

pub handle_write : (List ℕ → Written) → TcpConnection → Outcome TcpConnection
unfolding write_out
handle_write write c = do
  assert_in_loop_thread c
  if is_writing (own_channel c) then write_out write c else done c

-- The store of `shutDown`, `forceClose` and `forceCloseWithDelay` behind their test of the state. No
-- lock holds the two together: a call on the loop's thread has no other store in between, and one
-- on another thread may have those of the loop's.
abbrev pub set_disconnecting : TcpConnection → TcpConnection
set_disconnecting c = record c { stat = disconnecting }

abbrev pub shut_down_run : TcpConnection → Outcome TcpConnection
shut_down_run c =
    if c.on_loop_thread then shutdown_in_loop c else done (queue_in_loop c shutdown_task)

-- A call in which nothing comes between the test and the store.
pub shut_down : TcpConnection → Outcome TcpConnection
unfolding shutdown_in_loop
shut_down c = if is_stat c.stat connected then shut_down_run (set_disconnecting c) else done c

pub force_close : TcpConnection → TcpConnection
force_close c = if is_open c.stat then queue_in_loop (set_disconnecting c) force_close_task else c

pub force_close_with_delay : TcpConnection → TcpConnection
force_close_with_delay c =
    if is_open c.stat then add_event (set_disconnecting c) force_close_timer else c

pub start_read_in_loop : TcpConnection → Outcome TcpConnection
start_read_in_loop c = do
  assert_in_loop_thread c
  if not c.reading || not (is_reading (own_channel c))
      then (do
        c1 ← with_poller c (enable_read c.poller c.channel)
        done (record c1 { reading = true }))
      else done c

pub stop_read_in_loop : TcpConnection → Outcome TcpConnection
stop_read_in_loop c = do
  assert_in_loop_thread c
  if c.reading || is_reading (own_channel c)
      then (do
        c1 ← with_poller c (disable_read c.poller c.channel)
        done (record c1 { reading = false }))
      else done c

-- `startRead` and `stopRead`.
pub start_read : TcpConnection → Outcome TcpConnection
unfolding start_read_in_loop
start_read c =
    if c.on_loop_thread then start_read_in_loop c else done (queue_in_loop c start_read_task)

pub stop_read : TcpConnection → Outcome TcpConnection
unfolding stop_read_in_loop
stop_read c =
    if c.on_loop_thread then stop_read_in_loop c else done (queue_in_loop c stop_read_task)

-- `connectionEstablished`; the tie is a flag of the channel.
tie_own : TcpConnection → TcpConnection
tie_own c = record c {
  poller = record (c.poller) {
    channels = update c.poller.channels c.channel (record (own_channel c) { tied = true });
  };
}

pub connection_established : TcpConnection → Outcome TcpConnection
unfolding tie_own
connection_established c = do
  assert_in_loop_thread c
  assert (is_stat c.stat connecting)
  let c1 = tie_own (record c { stat = connected })
  c2 ← with_poller c1 (enable_read c1.poller c1.channel)
  done (add_event c2 up_or_down)

-- `connectionDestory`.
pub connection_destroy : TcpConnection → Outcome TcpConnection
connection_destroy c = do
  assert_in_loop_thread c
  c1 ←
      if is_stat c.stat connected
      then (do
        c2 ← with_poller (record c { stat = disconnected }) (disable_all c.poller c.channel)
        done (add_event c2 up_or_down))
      else done c
  with_poller c1 (remove c1.poller c1.channel)

-- The constructor, over the poller that has the new channel. It leaves `m_reading` as the memory has
-- it.
pub construct : Poller → ℕ → Bool → TcpConnection
construct p channel reading = record {
  stat = connecting;
  reading = reading;
  on_loop_thread = true;
  poller = p;
  channel = channel;
  input = init initial_size;
  output = init initial_size;
  high_water_mark = 64 * 1024 * 1024;
  has_send_finish_cb = false;
  has_high_water_cb = false;
  log = [];
  pending = [];
}

-- The destructor's assertion.
pub destructor : TcpConnection → Outcome (Unit {0})
destructor c = assert (is_stat c.stat disconnected)
