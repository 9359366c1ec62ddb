-- ===== src/Net/TcpConnection/Sending.antt =====
-- The methods of src/net/TcpConnection.cc that send, over the connection of Net/TcpConnection.
use czy_net_frame.Common.{
  ℕ, ◌+◌, Bool, false, not, ◌&&◌, ◌||◌, List, ltb, leb, ◌==◌, if◌then◌else◌, length, ◌>>=◌, ◌>>◌,
  assert, Outcome, done,
}
use czy_net_frame.Net.Buffer.{
  Buffer, sub_size, readable_bytes, read_at, to_string_piece, retrieve_all, retrieve_all_as_string,
  append,
}
use czy_net_frame.Net.Channel.{is_writing}
use czy_net_frame.Net.Poller.{enable_write}
use czy_net_frame.Net.TcpConnection.{
  TcpConnection, Written, connected, disconnected, send_finish_task, high_water_task, send_task,
  wrote, write_failed, as_size, own_channel, queue_in_loop, assert_in_loop_thread, is_stat,
  with_poller, taken,
}

-- How far `sendInLoop` came with writing at once.
pub record Attempt : Type 0 where
  pub conn : TcpConnection
  pub nwrote : ℕ
  pub remaining : ℕ
  pub fault : Bool

unfoldable pub untried : TcpConnection → List ℕ → Attempt
untried c bytes = record { conn = c; nwrote = 0; remaining = length bytes; fault = false }

-- EWOULDBLOCK, EPIPE and ECONNRESET on Linux.
is_fault : Written → Bool
is_fault (wrote n) = false
is_fault (write_failed errno) = not (errno == 11) && (errno == 32 || errno == 104)

-- `nwroted` is a `size_t`, so that the first test always passes.
unfoldable pub tried : TcpConnection → List ℕ → Written → Attempt
unfolding taken is_fault
tried c bytes w =
    if leb 0 (as_size w)
    then (let remaining = sub_size (length bytes) (as_size w) in
        let c1 = taken bytes w c in
        record {
          conn =
              if remaining == 0 && c1.has_send_finish_cb
              then queue_in_loop c1 send_finish_task
              else c1;
          nwrote = as_size w;
          remaining = remaining;
          fault = false;
        })
    else record { conn = c; nwrote = 0; remaining = length bytes; fault = is_fault w }

-- `m_highWaterCb` is queued when the buffer is about to pass the mark.
unfoldable pub note_high_water : TcpConnection → ℕ → TcpConnection
note_high_water c remaining =
    let old_len = readable_bytes c.output in
    if leb c.high_water_mark (old_len + remaining)
      && (ltb old_len c.high_water_mark && c.has_high_water_cb)
    then queue_in_loop c (high_water_task (old_len + remaining))
    else c

unfoldable pub store_rest : TcpConnection → List ℕ → Outcome TcpConnection
store_rest c rest = do
  out ← append c.output rest
  let c1 : TcpConnection = record c { output = out }
  if is_writing (own_channel c1)
      then done c1
      else with_poller c1 (enable_write c1.poller c1.channel)

-- The bytes that were not written go to the output buffer.
unfoldable pub keep_rest : TcpConnection → List ℕ → ℕ → ℕ → Outcome TcpConnection
unfolding note_high_water store_rest
keep_rest c bytes nwrote remaining = do
  let c1 = note_high_water c remaining
  rest ← read_at bytes nwrote remaining
  store_rest c1 rest

unfoldable pub finish_send : List ℕ → Attempt → Outcome TcpConnection
unfolding keep_rest
finish_send bytes a = do
  assert (leb a.remaining (length bytes))
  if not a.fault && ltb 0 a.remaining
      then keep_rest a.conn bytes a.nwrote a.remaining
      else done a.conn

unfoldable pub send_in_loop : (List ℕ → Written) → TcpConnection → List ℕ → Outcome TcpConnection
unfolding untried tried finish_send
send_in_loop write c bytes = do
  assert_in_loop_thread c
  if is_stat c.stat disconnected
      then done c
      else if not (is_writing (own_channel c)) && (readable_bytes c.output == 0)
      then finish_send bytes (tried c bytes (write bytes))
      else finish_send bytes (untried c bytes)

-- `send(const StringPiece &)`.
unfoldable pub send : (List ℕ → Written) → TcpConnection → List ℕ → Outcome TcpConnection
send write c bytes =
    if is_stat c.stat connected
    then (if c.on_loop_thread
        then send_in_loop write c bytes
        else done (queue_in_loop c (send_task bytes)))
    else done c

-- `send(Buffer *)`: the connection and the caller's buffer.
unfoldable pub send_buffer :
    (List ℕ → Written) → TcpConnection → Buffer → Outcome (TcpConnection × Buffer)
send_buffer write c b =
    if is_stat c.stat connected
    then if c.on_loop_thread
      then (do
        bytes ← to_string_piece b
        c' ← send_in_loop write c bytes
        done (c', retrieve_all b))
      else (do (bytes, b') ← retrieve_all_as_string b; done (queue_in_loop c (send_task bytes), b'))
    else done (c, b)
