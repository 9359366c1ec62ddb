-- ===== src/Net/TcpConnection/WriteOut.antt =====
-- `handleWrite`, and what the two writing methods make of a write that fails.
use czy_net_frame.Common.{
  ℕ, ◌-◌, ◌^◌, ◌≤◌, ◌<◌, ◌≡◌, refl, sym, ap, ◌∙◌, subst, inl, inr, Bool, true, false, not, ◌&&◌,
  List, [], ◌∷◌, ◌++◌, append_assoc, append-nil, arith, ltb, ◌==◌, if◌then◌else◌, ltb→le, lt→leb,
  Bool-cases, length, take, drop, take-append-drop, ◌>>◌, Outcome, done, assert_failed, aborted,
}
use czy_net_frame.Net.Buffer.{max_size, sub_size, readable_bytes}
use czy_net_frame.Net.Buffer.Contents.{Inv, contents, readable-contents, peek_all-contents}
use czy_net_frame.Net.Buffer.Read.{retrieve-contents}
use czy_net_frame.Net.Poller.{Poller}
use czy_net_frame.Net.Poller.Masks.{Wired, asks_read, asks_write, disable_write-Rewires}
use czy_net_frame.Net.TcpConnection.{
  TcpConnection, disconnected, disconnecting, Task, send_finish_task, Event, sent, Written, wrote,
  write_failed, add_event, queue_in_loop, is_stat, after_drain, drained, taken, after_write,
  write_out, handle_write, shutdown_in_loop,
}
use czy_net_frame.Net.TcpConnection.Sending.{untried, tried, finish_send, send_in_loop}
use czy_net_frame.Net.TcpConnection.Stream.{
  delivered, is_empty, Good, readable-is_empty, queue-Good,
}

-- The tasks that wait, with `m_sendFinishCb` behind them if everything was sent.
abbrev pub finish_pending : TcpConnection → Bool → List Task
finish_pending c all =
    if all && c.has_send_finish_cb then c.pending ++ (send_finish_task ∷ []) else c.pending

-- The call succeeds and leaves a good connection, which differs in its poller and its output buffer,
-- in its log and in the tasks that wait, and whose channel asks for reading if it did.
abbrev pub LeadsWith : Outcome TcpConnection → List ℕ → TcpConnection → List Event → Bool → Type 0
LeadsWith o accepted c log all =
    (d : TcpConnection) × (o ≡ done d)
    × Good d accepted
    × (d ≡ record c {
      poller = d.poller;
      output = d.output;
      log = log;
      pending = finish_pending c all;
    })
    × (asks_read d.poller c.channel ≡ asks_read c.poller c.channel)

finished :
    (b : Bool) (c : TcpConnection) (q : Poller)
    → let c1 : TcpConnection = record c { poller = q } in
      let d = if b then queue_in_loop c1 send_finish_task else c1 in
      d ≡ record c {
        poller = d.poller;
        output = d.output;
        pending = if b then c.pending ++ (send_finish_task ∷ []) else c.pending;
      }
finished true c q = refl
finished false c q = refl

queue-kept :
    (b : Bool) (c : TcpConnection) (t : Task)
    → let d = if b then queue_in_loop c t else c in
      (d.on_loop_thread ≡ c.on_loop_thread)
      × (d.log ≡ c.log)
      × (is_stat d.stat disconnecting ≡ is_stat c.stat disconnecting)
      × (asks_write d.poller d.channel ≡ asks_write c.poller c.channel)
      × (asks_read d.poller c.channel ≡ asks_read c.poller c.channel)
queue-kept true c t = (refl, refl, refl, refl, refl)
queue-kept false c t = (refl, refl, refl, refl, refl)

-- `shutdownInLoop` does nothing on a channel that does not ask for writing.
shutdown-idle :
    (c : TcpConnection)
    → c.on_loop_thread ≡ true
    → asks_write c.poller c.channel ≡ false
    → shutdown_in_loop c ≡ done c
unfolding shutdown_in_loop
shutdown-idle c on_thread idle = steps _ _ _ _ on_thread idle
  where
    steps :
        (a b : Bool) (x y : TcpConnection)
        → a ≡ true
        → b ≡ false
        → ((if a then done tt else aborted) >> done (if b then x else y)) ≡ done y
    steps a b x y p q = rw (p, q) refl

-- The tail of `handleWrite`: the channel no longer asks for writing, and nothing is shut down.
drained-Leads :
    (c : TcpConnection) (acc : List ℕ)
    → Wired c.poller c.channel
    → Inv c.output
    → delivered c.log ++ contents c.output ≡ acc
    → is_empty (contents c.output) ≡ true
    → c.on_loop_thread ≡ true
    → LeadsWith (drained c) acc c c.log true
unfolding drained after_drain
drained-Leads c acc w v s none_left on_thread =
    let (q, e, w', r, idle) = disable_write-Rewires c.poller c.channel w in
    let c1 : TcpConnection = record c { poller = q } in
    let g : Good c1 acc = record {
      wired = w';
      output_inv = v;
      stream = s;
      waits = idle ∙ sym (ap not none_left);
    } in
    let c2 = if c1.has_send_finish_cb then queue_in_loop c1 send_finish_task else c1 in
    let kept = queue-kept c1.has_send_finish_cb c1 send_finish_task in
    let still : (if is_stat c2.stat disconnecting then shutdown_in_loop c2 else done c2) ≡ done c2 =
      either (is_stat c2.stat disconnecting)
        (shutdown-idle c2 (kept.0 ∙ on_thread) (kept.3 ∙ idle)) in
    (
      c2,
      rw e still,
      queue-Good c1.has_send_finish_cb c1 send_finish_task acc g,
      finished c.has_send_finish_cb c q,
      kept.4 ∙ r,
    )
  where
    either :
        (b : Bool) {o : Outcome TcpConnection} {d : TcpConnection}
        → o ≡ done d
        → (if b then o else done d) ≡ done d
    either true e = e
    either false e = refl

-- The kernel took `n` bytes of what waits, and they leave the output buffer.
after_write-Leads :
    (c : TcpConnection) (acc : List ℕ) (n : ℕ)
    → Wired c.poller c.channel
    → Inv c.output
    → delivered c.log ++ drop n (contents c.output) ≡ acc
    → asks_write c.poller c.channel ≡ true
    → n ≤ length (contents c.output)
    → c.on_loop_thread ≡ true
    → LeadsWith (after_write c n) acc c c.log (is_empty (drop n (contents c.output)))
unfolding after_write
after_write-Leads c acc n w v s asking le on_thread =
    let (out, e, v', m) = (retrieve-contents c.output n v).0 le in
    let c1 : TcpConnection = record c { output = out } in
    let s' : delivered c.log ++ contents out ≡ acc = ap (◌++◌ (delivered c.log)) m ∙ s in
    rw (e, readable-is_empty out v')
      (elim (Bool-cases (is_empty (contents out))) [
        | inl y ↦ rw (y, ap is_empty (sym m) ∙ y) (drained-Leads c1 acc w v' s' y on_thread)
        | inr z ↦
            rw (z, ap is_empty (sym m) ∙ z)
              (
                c1,
                refl,
                record { wired = w; output_inv = v'; stream = s'; waits = asking ∙ sym (ap not z) },
                refl,
                refl,
              )
      ])

-- When bytes wait and the kernel takes the first n of them, handleWrite, on the loop's thread,
-- passes every assertion; the bytes that wait are then the others, the channel asks for writing
-- exactly when some are left, and for reading as before. If none is left and m_sendFinishCb is
-- set, it is queued. Nothing else of the connection changes but the log of the write: the state
-- stays, and the write side is not shut down, not even when a disconnecting connection has sent
-- everything.
pub handle_write-Leads :
    (write : List ℕ → Written) (c : TcpConnection) (acc : List ℕ) (n : ℕ)
    → Good c acc
    → c.on_loop_thread ≡ true
    → is_empty (contents c.output) ≡ false
    → write (contents c.output) ≡ wrote n
    → n ≤ length (contents c.output)
    → LeadsWith
        (handle_write write c)
        acc
        c
        (sent (take n (contents c.output)) ∷ c.log)
        (is_empty (drop n (contents c.output)))
unfolding handle_write write_out taken
handle_write-Leads write c acc n g on_thread waiting taking le =
    subst
      (λ o.
        LeadsWith o acc c (sent (take n (contents c.output)) ∷ c.log)
          (is_empty (drop n (contents c.output))))
      (sym chosen)
      (elim (Bool-cases (ltb 0 n)) [
        | inl y ↦ rw y (
            after_write-Leads c1 acc n g.wired g.output_inv rest (g.waits ∙ ap not waiting) le
              on_thread)
        | inr z ↦
            rw (z, left_all z)
              (
                c1,
                refl,
                record {
                  wired = g.wired;
                  output_inv = g.output_inv;
                  stream = all z;
                  waits = g.waits;
                },
                refl,
                refl,
              )
      ])
  where
    c1 : TcpConnection
    c1 = add_event c (sent (take n (contents c.output)))

    rest : delivered c1.log ++ drop n (contents c.output) ≡ acc
    rest =
        append_assoc (delivered c.log) _ _
        ∙ ap (◌++◌ (delivered c.log)) (take-append-drop n (contents c.output))
        ∙ g.stream

    left_all : ltb 0 n ≡ false → is_empty (drop n (contents c.output)) ≡ false
    left_all z = ap (λ k. is_empty (drop k (contents c.output))) (no_bytes (ltb→le 0 n z)) ∙ waiting
      where
        no_bytes : n ≤ 0 → n ≡ 0
        no_bytes h = omega arith

    all : ltb 0 n ≡ false → delivered c1.log ++ contents c.output ≡ acc
    all z =
        ap (λ t. (delivered c.log ++ take t (contents c.output)) ++ contents c.output)
          (none_taken (ltb→le 0 n z))
        ∙ ap (λ t. t ++ contents c.output) (append-nil _)
        ∙ g.stream
      where
        none_taken : n ≤ 0 → n ≡ 0
        none_taken h = omega arith

    chosen : handle_write write c ≡ (if ltb 0 n then after_write c1 n else done c1)
    chosen =
        steps c.on_loop_thread (asks_write c.poller c.channel) on_thread (g.waits ∙ ap not waiting)
        ∙ told
      where
        steps :
            (a b : Bool)
            → a ≡ true
            → b ≡ true
            → ((if a then done tt else aborted) >> (if b then write_out write c else done c))
              ≡ write_out write c
        steps a b p q = rw (p, q) refl

        told : write_out write c ≡ (if ltb 0 n then after_write c1 n else done c1)
        told = rw (peek_all-contents c.output g.output_inv, taking) refl

-- A write that fails, whatever the errno, stops the program, since -1 is kept in a `size_t`:
-- `sendInLoop` at `assert(remianing <= len)` when it writes at once, and `handleWrite` at the
-- assertion of `retrieve` when bytes wait.
pub send_in_loop-write_failed :
    (write : List ℕ → Written) (c : TcpConnection) (acc message : List ℕ) (errno : ℕ)
    → Good c acc
    → c.on_loop_thread ≡ true
    → is_stat c.stat disconnected ≡ false
    → length message ≤ max_size
    → (is_empty (contents c.output) ≡ true
        → write message ≡ write_failed errno
        → send_in_loop write c message ≡ assert_failed)
      × (is_empty (contents c.output) ≡ false
          → write (contents c.output) ≡ write_failed errno
          → handle_write write c ≡ assert_failed)
unfolding send_in_loop handle_write write_out taken after_write finish_send tried
send_in_loop-write_failed write c acc message errno g on_thread not_closed fit = (at_once, later)
  where
    steps :
        (a b d : Bool) (x y z : Outcome TcpConnection)
        → a ≡ true
        → b ≡ false
        → d ≡ true
        → ((if a then done tt else aborted) >> (if b then x else if d then y else z)) ≡ y
    steps a b d x y z p q r = rw (p, q, r) refl

    idle_now :
        is_empty (contents c.output) ≡ true
        → (not (asks_write c.poller c.channel) && (readable_bytes c.output == 0)) ≡ true
    idle_now e = rw (g.waits, readable-is_empty c.output g.output_inv, e) refl

    attempt : finish_send message (tried c message (write_failed errno)) ≡ assert_failed
    attempt =
        rw (lt→leb (sub_size (length message) (2 ^ 64 - 1)) (length message) (omega (arith, fit)))
          refl

    at_once :
        is_empty (contents c.output) ≡ true
        → write message ≡ write_failed errno
        → send_in_loop write c message ≡ assert_failed
    at_once e f =
        steps c.on_loop_thread (is_stat c.stat disconnected) _ (done c) _
          (finish_send message (untried c message)) on_thread not_closed (idle_now e)
        ∙ ap (λ w. finish_send message (tried c message w)) f
        ∙ attempt

    few : length (contents c.output) < 2 ^ 64 - 1
    few = omega (
      arith,
      readable-contents c.output g.output_inv,
      g.output_inv.in_order,
      g.output_inv.in_bounds,
      g.output_inv.fits,
    )

    told : write (contents c.output) ≡ write_failed errno → write_out write c ≡ assert_failed
    told f =
        rw
          (
            peek_all-contents c.output g.output_inv,
            f,
            (retrieve-contents c.output (2 ^ 64 - 1) g.output_inv).1 few,
          )
          refl

    later :
        is_empty (contents c.output) ≡ false
        → write (contents c.output) ≡ write_failed errno
        → handle_write write c ≡ assert_failed
    later e f =
        steps c.on_loop_thread false (asks_write c.poller c.channel) (done c) (write_out write c)
          (done c) on_thread refl (g.waits ∙ ap not e)
        ∙ told f
