-- ===== src/Net/TcpConnection/Lifetime/Calls.antt =====
-- Each call of Net/TcpConnection/Lifetime: the callbacks of the channel and the tasks.
use czy_net_frame.Common.{
  ℕ, ◌+◌, ◌≡◌, refl, inl, inr, Bool, true, false, not, ◌&&◌, List, arith, ltb, leb, ◌==◌,
  if◌then◌else◌, Bool-cases, length, ◌>>◌, Outcome, done,
}
use czy_net_frame.Net.Buffer.{
  Received, retrieve, append, read_at, peek_all, read_fd, readable_bytes,
}
use czy_net_frame.Net.Channel.{is_writing}
use czy_net_frame.Net.Poller.{disable_write}
use czy_net_frame.Net.TcpConnection.{
  TcpConnection, disconnected, disconnecting, Task, send_finish_task, high_water_task,
  shut_down_write, Written, wrote, write_failed, as_size, own_channel, add_event, queue_in_loop,
  assert_in_loop_thread, is_stat, is_open, after_drain, drained, taken, after_write, write_out,
  handle_write, count_of, after_read, handle_read, shutdown_in_loop, handle_close,
  force_close_in_loop,
}
use czy_net_frame.Net.TcpConnection.Sending.{
  note_high_water, store_rest, Attempt, untried, tried, keep_rest, finish_send, send_in_loop,
}
use czy_net_frame.Net.TcpConnection.Lifetime.{
  closes, AgesIn, Ages-same, Ages-done, Ages-then, Ages-if, Ages-assert, Ages-from, Ages-poller,
  Ages-wired, is_open-rank,
}

-- Neither the state nor what the close callback was told.
abbrev pub Alike : TcpConnection → TcpConnection → Type 0
Alike c d = (d.stat ≡ c.stat) × (closes d.log ≡ closes c.log)

pub Alike-done : (c d : TcpConnection) → Alike c d → AgesIn c (done d)
Alike-done c d a = Ages-done c d (Ages-same c d a.0 a.1)

Alike-if :
    (c d : TcpConnection) (b : Bool) (t : Task)
    → Alike c d
    → Alike c (if b then queue_in_loop d t else d)
Alike-if c d true t a = a
Alike-if c d false t a = a

Alike-taken : (c : TcpConnection) (bytes : List ℕ) (w : Written) → Alike c (taken bytes w c)
unfolding taken
Alike-taken c bytes (wrote n) = (refl, refl)
Alike-taken c bytes (write_failed e) = (refl, refl)

pub on_loop :
    (c : TcpConnection) (f : Outcome TcpConnection)
    → AgesIn c f
    → AgesIn c (assert_in_loop_thread c >> f)
on_loop c f h = Ages-then c (assert_in_loop_thread c) (λ _. f) (λ _. h)

pub shutdown_in_loop-Ages : (c : TcpConnection) → AgesIn c (shutdown_in_loop c)
unfolding shutdown_in_loop
shutdown_in_loop-Ages c = on_loop c _ (Alike-done c _ (cases (asks c)))
  where
    asks : TcpConnection → Bool
    asks c = is_writing (own_channel c)

    cases : (b : Bool) → Alike c (if b then add_event c shut_down_write else c)
    cases true = (refl, refl)
    cases false = (refl, refl)

pub handle_close-Ages : (c : TcpConnection) → AgesIn c (handle_close c)
unfolding handle_close
handle_close-Ages c = on_loop c _ (
    Ages-assert c (is_open c.stat) _ (λ h. Ages-done c _ (record {
      later = omega (arith, is_open-rank c.stat h);
      told = inr (refl, is_open-rank c.stat h, refl);
    })))

pub force_close_in_loop-Ages : (c : TcpConnection) → AgesIn c (force_close_in_loop c)
unfolding force_close_in_loop
force_close_in_loop-Ages c =
    on_loop c _
      (Ages-if c (is_open c.stat) _ _ (λ h. handle_close-Ages c) (Alike-done c c (refl, refl)))

pub handle_read-Ages :
    (readv : List ℕ → Received) (c : TcpConnection) → AgesIn c (handle_read readv c)
unfolding handle_read after_read
handle_read-Ages readv c = on_loop c _ (
    Ages-then c (read_fd readv c.input) _ (λ r.
      Ages-from c (record c { input = r.after }) _ refl refl
        (Ages-if _ (ltb 0 (count_of r.count)) _ _ (λ h. Alike-done _ _ (refl, refl))
          (Ages-if _ (count_of r.count == 0) _ _ (λ h. handle_close-Ages _)
            (Alike-done _ _ (refl, refl))))))

after_drain-Ages : (c : TcpConnection) → AgesIn c (after_drain c)
unfolding after_drain
after_drain-Ages c =
    let d = if c.has_send_finish_cb then queue_in_loop c send_finish_task else c in
    let a = Alike-if c c c.has_send_finish_cb send_finish_task (refl, refl) in
    Ages-from c d _ a.0 a.1 (
      Ages-if d (is_stat d.stat disconnecting) _ _ (λ h. shutdown_in_loop-Ages d)
        (Alike-done d d (refl, refl)))

drained-Ages : (c : TcpConnection) → AgesIn c (drained c)
unfolding drained
drained-Ages c = Ages-wired c c (disable_write c.poller c.channel) after_drain (λ p.
    let d : TcpConnection = record c { poller = p } in
    Ages-from c d (after_drain d) refl refl (after_drain-Ages d))

pub handle_write-Ages :
    (write : List ℕ → Written) (c : TcpConnection) → AgesIn c (handle_write write c)
unfolding handle_write write_out after_write
handle_write-Ages write c = on_loop c _ (
    Ages-if c (is_writing (own_channel c)) _ _
      (λ h. Ages-then c (peek_all c.output) _ (λ bytes.
        let d = taken bytes (write bytes) c in
        let a = Alike-taken c bytes (write bytes) in
        Ages-from c d _ a.0 a.1 (
          Ages-if d (ltb 0 (as_size (write bytes))) _ _
            (λ k. Ages-then d (retrieve d.output (as_size (write bytes))) _ (λ out.
              let e : TcpConnection = record d { output = out } in
              Ages-from d e _ refl refl (
                Ages-if e (readable_bytes out == 0) _ _ (λ z. drained-Ages e)
                  (Alike-done e e (refl, refl)))))
            (Alike-done d d (refl, refl)))))
      (Alike-done c c (refl, refl)))

store_rest-Ages : (c : TcpConnection) (rest : List ℕ) → AgesIn c (store_rest c rest)
unfolding store_rest
store_rest-Ages c rest = Ages-then c (append c.output rest) _ (λ out.
    Ages-if c (is_writing (own_channel (record c { output = out }))) _ _
      (λ h. Alike-done c _ (refl, refl)) (Ages-poller c (record c { output = out }) _ refl refl))

noted-Alike :
    (c d : TcpConnection) (remaining : ℕ) → Alike c d → Alike c (note_high_water d remaining)
unfolding note_high_water
noted-Alike c d remaining =
    Alike-if c d
      (leb d.high_water_mark (readable_bytes d.output + remaining)
        && (ltb (readable_bytes d.output) d.high_water_mark && d.has_high_water_cb))
      (high_water_task (readable_bytes d.output + remaining))

finish_send-Ages :
    (c : TcpConnection) (bytes : List ℕ) (a : Attempt)
    → Alike c a.conn
    → AgesIn c (finish_send bytes a)
unfolding finish_send keep_rest
finish_send-Ages c bytes a like = Ages-assert c (leb a.remaining (length bytes)) _ (λ h.
    Ages-if c (not a.fault && ltb 0 a.remaining) _ _
      (λ k. Ages-then c (read_at bytes a.nwrote a.remaining) _ (λ rest.
        let e = note_high_water a.conn a.remaining in
        let q = noted-Alike c a.conn a.remaining like in
        Ages-from c e (store_rest e rest) q.0 q.1 (store_rest-Ages e rest)))
      (Alike-done c a.conn like))

tried-Alike : (c : TcpConnection) (bytes : List ℕ) (w : Written) → Alike c (tried c bytes w).conn
unfolding tried
tried-Alike c bytes (wrote n) = elim (Bool-cases (leb 0 n)) [
  | inl y ↦
      rw y (Alike-if c (taken bytes (wrote n) c) _ send_finish_task (Alike-taken c bytes (wrote n)))
  | inr z ↦ rw z (refl, refl)
]
tried-Alike c bytes (write_failed e) =
    Alike-if c (taken bytes (write_failed e) c) _ send_finish_task
      (Alike-taken c bytes (write_failed e))

pub send_in_loop-Ages :
    (write : List ℕ → Written) (c : TcpConnection) (bytes : List ℕ)
    → AgesIn c (send_in_loop write c bytes)
unfolding send_in_loop untried
send_in_loop-Ages write c bytes = on_loop c _ (
    Ages-if c (is_stat c.stat disconnected) _ _ (λ h. Alike-done c c (refl, refl))
      (Ages-if c (not (is_writing (own_channel c)) && (readable_bytes c.output == 0)) _ _
        (λ h. finish_send-Ages c bytes _ (tried-Alike c bytes (write bytes)))
        (finish_send-Ages c bytes (untried c bytes) (refl, refl))))
