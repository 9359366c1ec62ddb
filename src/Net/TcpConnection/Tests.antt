-- ===== src/Net/TcpConnection/Tests.antt =====
-- The theorems about connections at concrete ones.
use czy_net_frame.Common.{
  ℕ, ◌≤◌, min, ◌≡◌, refl, ap, ◌⊎◌, inl, inr, true, false, List, [], ◌∷◌, arith, length, replicate,
  ◌>>=◌, done, assert_failed,
}
use czy_net_frame.Net.Buffer.{Buffer, Received, received, failed}
use czy_net_frame.Net.Buffer.Contents.{Inv}
use czy_net_frame.Net.Channel.{Channel}
use czy_net_frame.Net.Poller.Tests.{reader, table, table-InSync}
use czy_net_frame.Net.TcpConnection.{
  TcpConnection, connected, disconnected, sent, message, up_or_down, close_notice, handle_read,
  Written, wrote, write_failed, handle_write, handle_close, force_close, force_close_in_loop,
  set_disconnecting,
}
use czy_net_frame.Net.TcpConnection.Sending.{send_in_loop}
use czy_net_frame.Net.TcpConnection.Stream.{Good, Leads, send_in_loop-Leads}
use czy_net_frame.Net.TcpConnection.WriteOut.{
  LeadsWith, handle_write-Leads, send_in_loop-write_failed,
}
use czy_net_frame.Net.TcpConnection.ReadIn.{TakesIn, handle_read_cases}
use czy_net_frame.Net.Buffer.ReadFd.{Obeys}
use czy_net_frame.Net.TcpConnection.Lifetime.{rank, closes, stays, goes_on, forces_close}
use czy_net_frame.Net.TcpConnection.Lifetime.Runs.{run_lem}

abbrev empty : Buffer
empty = record { buffer = replicate 16 0; reader_index = 8; writer_index = 8 }

-- Four bytes that wait.
abbrev waiting : Buffer
waiting = record {
  buffer = 0 ∷ 0 ∷ 0 ∷ 0 ∷ 0 ∷ 0 ∷ 0 ∷ 0 ∷ 1 ∷ 2 ∷ 3 ∷ 4 ∷ 0 ∷ 0 ∷ [];
  reader_index = 8;
  writer_index = 12;
}

abbrev connection : Channel → Buffer → TcpConnection
connection ch out = record {
  stat = connected;
  reading = true;
  on_loop_thread = true;
  poller = table ch;
  channel = 1;
  input = empty;
  output = out;
  high_water_mark = 6;
  has_send_finish_cb = true;
  has_high_water_cb = true;
  log = [];
  pending = [];
}

-- Nothing was sent so far, and the channel asks for reading only.
abbrev fresh : TcpConnection
fresh = connection reader empty

-- Bytes wait, and the channel asks for writing too.
abbrev busy : TcpConnection
busy = connection (record reader { events = 7 }) waiting

empty-Inv : Inv empty
empty-Inv = record {
  in_order = omega arith;
  in_bounds = omega arith;
  has_prepend = omega arith;
  fits = omega arith;
}

fresh-Good : Good fresh []
fresh-Good = record {
  wired = record { sync = table-InSync reader refl refl; ready = refl; mask = inl (inr refl) };
  output_inv = empty-Inv;
  stream = refl;
  waits = refl;
}

busy-Good : Good busy (1 ∷ 2 ∷ 3 ∷ 4 ∷ [])
busy-Good = record {
  wired = record {
    sync = table-InSync (record reader { events = 7 }) refl refl;
    ready = refl;
    mask = inr (inr refl);
  };
  output_inv = record {
    in_order = omega arith;
    in_bounds = omega arith;
    has_prepend = omega arith;
    fits = omega arith;
  };
  stream = refl;
  waits = refl;
}

-- A kernel that takes up to two bytes, and one that fails with EWOULDBLOCK.
abbrev two_at_most : List ℕ → Written
two_at_most bytes = wrote (min 2 (length bytes))

abbrev blocked : List ℕ → Written
blocked bytes = write_failed 11

send_in_loop-Leads_example :
    Leads (send_in_loop two_at_most fresh (5 ∷ 6 ∷ 7 ∷ [])) (5 ∷ 6 ∷ 7 ∷ [])
send_in_loop-Leads_example =
    send_in_loop-Leads two_at_most fresh [] (5 ∷ 6 ∷ 7 ∷ []) 2 fresh-Good refl refl refl
      (omega arith) (omega arith)

handle_write-Leads_example :
    LeadsWith
      (handle_write two_at_most busy)
      (1 ∷ 2 ∷ 3 ∷ 4 ∷ [])
      busy
      (sent (1 ∷ 2 ∷ []) ∷ [])
      false
handle_write-Leads_example =
    handle_write-Leads two_at_most busy (1 ∷ 2 ∷ 3 ∷ 4 ∷ []) 2 busy-Good refl refl refl
      (omega arith)

send_in_loop-write_failed_example :
    (true ≡ true
      → blocked (5 ∷ []) ≡ write_failed 11
      → send_in_loop blocked fresh (5 ∷ []) ≡ assert_failed)
    × (true ≡ false → blocked [] ≡ write_failed 11 → handle_write blocked fresh ≡ assert_failed)
send_in_loop-write_failed_example =
    send_in_loop-write_failed blocked fresh [] (5 ∷ []) 11 fresh-Good refl refl (omega arith)

abbrev no_input : List ℕ → Received
no_input lens = received []

run_lem_example :
    let d = force_close fresh in
    (1 ≤ rank d.stat) × ((closes d.log ≡ 0) ⊎ ((closes d.log ≡ 1) × (d.stat ≡ disconnected)))
run_lem_example = run_lem fresh (force_close fresh) (goes_on stays (forces_close refl)) refl

silent-Obeys : Obeys no_input
silent-Obeys lens bytes e = omega (arith, ap count e)
  where
    count : Received → ℕ
    count (received bs) = length bs
    count (failed n) = 0

handle_read_cases_example :
    ((x : ℕ) (bytes : List ℕ)
      → received [] ≡ received (x ∷ bytes)
      → TakesIn (handle_read no_input fresh) fresh (x ∷ bytes) connected (message ∷ []))
    × (received [] ≡ received []
        → TakesIn
            (handle_read no_input fresh)
            fresh
            []
            disconnected
            (close_notice ∷ up_or_down ∷ []))
    × ((errno : ℕ)
        → received [] ≡ failed errno
        → TakesIn (handle_read no_input fresh) fresh [] connected (message ∷ []))
handle_read_cases_example =
    handle_read_cases no_input fresh silent-Obeys empty-Inv (omega arith) refl refl

-- Another thread has tested the state in `forceClose`, the loop's thread closes the connection, and
-- then the other thread stores `KDISCONNECTING`: the close callback is called twice.
closed_twice :
    (handle_close fresh >>= λ c.
    force_close_in_loop (set_disconnecting c) >>= λ d. done (closes d.log))
    ≡ done 2
unfolding handle_close force_close_in_loop
closed_twice = refl
