-- ===== src/Net/TcpConnection/Stream.antt =====
-- The bytes that a connection sends: those accepted, those that the kernel took, and those that wait
-- in the output buffer.
use czy_net_frame.Common.{
  ℕ, ◌+◌, ◌-◌, ◌≤◌, ◌<◌, ◌≡◌, refl, sym, ap, ap₂, ◌∙◌, subst, inl, inr, Bool, true, false, not,
  ◌&&◌, List, [], ◌∷◌, ◌++◌, append_assoc, append-nil, arith, ltb, leb, ◌==◌, if◌then◌else◌, ltb→lt,
  ltb→le, le→leb, Bool-cases, length, take, drop, length-take, length-drop, take-append-drop,
  take_all, ◌>>◌, Outcome, done, aborted,
}
use czy_net_frame.Net.Buffer.{Buffer, max_size, sub_size, readable_bytes, read_at}
use czy_net_frame.Net.Buffer.Contents.{Inv, contents, readable-contents, read_at-middle}
use czy_net_frame.Net.Buffer.Write.{append-contents}
use czy_net_frame.Net.Poller.Masks.{Wired, asks_write, enable_write-Rewires}
use czy_net_frame.Net.TcpConnection.{
  TcpConnection, disconnected, Task, send_finish_task, high_water_task, Event, sent, Written, wrote,
  add_event, queue_in_loop, is_stat, taken,
}
use czy_net_frame.Net.TcpConnection.Sending.{
  note_high_water, store_rest, untried, tried, keep_rest, finish_send, send_in_loop,
}

-- The bytes that the kernel took, in order; the log has the latest event first.
abbrev pub delivered : List Event → List ℕ
delivered [] = []
delivered (sent bytes ∷ earlier) = delivered earlier ++ bytes
delivered (_ ∷ earlier) = delivered earlier

abbrev pub is_empty : List ℕ → Bool
is_empty [] = true
is_empty (x ∷ xs) = false

-- A connection between two steps, that accepted the bytes `accepted` so far: the channel asks for
-- writing exactly while bytes wait in the output buffer.
pub record Good (c : TcpConnection) (accepted : List ℕ) : Type 0 where
  pub wired : Wired c.poller c.channel
  pub output_inv : Inv c.output
  pub stream : delivered c.log ++ contents c.output ≡ accepted
  pub waits : asks_write c.poller c.channel ≡ not (is_empty (contents c.output))

-- The step succeeds and leads to a good connection.
abbrev pub Leads : Outcome TcpConnection → List ℕ → Type 0
Leads o accepted = (d : TcpConnection) × (o ≡ done d) × Good d accepted

pub is_empty-zero : (xs : List ℕ) → (length xs == 0) ≡ is_empty xs
is_empty-zero [] = refl
is_empty-zero (x ∷ xs) = ground arith

pub readable-is_empty : (b : Buffer) → Inv b → (readable_bytes b == 0) ≡ is_empty (contents b)
readable-is_empty b v = rw (readable-contents b v) (is_empty-zero (contents b))

is_empty-append : (xs ys : List ℕ) → 0 < length ys → is_empty (xs ++ ys) ≡ false
is_empty-append [] [] h = absurd (omega arith)
is_empty-append [] (y ∷ ys) h = refl
is_empty-append (x ∷ xs) ys h = refl

-- A queued task changes nothing of this.
pub queue-Good :
    (b : Bool) (c : TcpConnection) (t : Task) (acc : List ℕ)
    → Good c acc
    → Good (if b then queue_in_loop c t else c) acc
queue-Good true c t acc g = record {
  wired = g.wired;
  output_inv = g.output_inv;
  stream = g.stream;
  waits = g.waits;
}
queue-Good false c t acc g = g

queue-output :
    (b : Bool) (c : TcpConnection) (t : Task)
    → (if b then queue_in_loop c t else c).output ≡ c.output
queue-output true c t = refl
queue-output false c t = refl

-- The bytes that wait are appended, and the channel asks for writing.
store_rest-Leads :
    (c : TcpConnection) (acc rest : List ℕ)
    → Good c acc
    → 0 < length rest
    → c.output.writer_index + length rest ≤ max_size
    → Leads (store_rest c rest) (acc ++ rest)
unfolding store_rest
store_rest-Leads c acc rest g some_left fit =
    let (out, e, v, m) = append-contents c.output rest g.output_inv fit in
    rw e (elim (Bool-cases (asks_write c.poller c.channel)) [
      | inl y ↦ rw y (
        record c { output = out },
        refl,
        record {
          wired = g.wired;
          output_inv = v;
          stream = joined out m;
          waits = y ∙ sym (ap not (ap is_empty m ∙ is_empty-append _ rest some_left));
        },
      )
      | inr n ↦
          let (q, f, w, r, asks) = enable_write-Rewires c.poller c.channel g.wired in
          rw (n, f)
            (
              record c { output = out; poller = q },
              refl,
              record {
                wired = w;
                output_inv = v;
                stream = joined out m;
                waits = asks ∙ sym (ap not (ap is_empty m ∙ is_empty-append _ rest some_left));
              },
            )
    ])
  where
    joined :
        (out : Buffer)
        → contents out ≡ contents c.output ++ rest
        → delivered c.log ++ contents out ≡ acc ++ rest
    joined out m =
        ap (◌++◌ (delivered c.log)) m
        ∙ sym (append_assoc (delivered c.log) _ rest)
        ∙ ap (λ t. t ++ rest) g.stream

-- `assert(remianing <= len)` and what follows, when the kernel took the first `n` bytes.
finish_send-Leads :
    (d : TcpConnection) (acc bytes : List ℕ) (n : ℕ)
    → Good d (acc ++ take n bytes)
    → n ≤ length bytes
    → d.output.writer_index + length bytes ≤ max_size
    → Leads
        (finish_send bytes
          (record { conn = d; nwrote = n; remaining = length bytes - n; fault = false }))
        (acc ++ bytes)
unfolding finish_send keep_rest note_high_water
finish_send-Leads d acc bytes n g le fit =
    rw (le→leb (length bytes - n) (length bytes) (omega arith))
      (elim (Bool-cases (ltb 0 (length bytes - n))) [
        | inl y ↦
            rw (y, rest_read)
              (subst (Leads _) (append_assoc acc _ _ ∙ ap (◌++◌ acc) (take-append-drop n bytes)) (
                store_rest-Leads _ _ (drop n bytes) (queue-Good _ d _ _ g)
                  (omega (arith, length-drop n bytes, ltb→lt _ _ y))
                  (rw
                    (queue-output (high d) d
                      (high_water_task (readable_bytes d.output + (length bytes - n))))
                    (omega (arith, length-drop n bytes, fit)))))
        | inr z ↦ rw z (
          d,
          refl,
          subst (λ t. Good d (acc ++ t)) (take_all n bytes (omega (arith, ltb→le _ _ z))) g,
        )
      ])
  where
    high : TcpConnection → Bool
    high d =
        leb d.high_water_mark (readable_bytes d.output + (length bytes - n))
        && (ltb (readable_bytes d.output) d.high_water_mark && d.has_high_water_cb)

    rest_read : read_at bytes n (length bytes - n) ≡ done (drop n bytes)
    rest_read =
        ap (λ t. read_at t n (length bytes - n))
          (sym (take-append-drop n bytes)
            ∙ ap (◌++◌ (take n bytes)) (sym (append-nil (drop n bytes))))
        ∙ read_at-middle (take n bytes) (drop n bytes) [] n _ (omega (arith, length-take n bytes))
            (sym (length-drop n bytes))

-- Sending on the loop's thread, while the connection is not closed and the kernel takes `n` of the
-- bytes whenever it is asked: no assertion fails, and the bytes are accepted, in order, behind
-- those accepted earlier. The channel then asks for writing exactly when bytes wait in the output
-- buffer. The output buffer's write position moved by the message has to stay within the largest
-- vector.
pub send_in_loop-Leads :
    (write : List ℕ → Written) (c : TcpConnection) (acc message : List ℕ) (n : ℕ)
    → Good c acc
    → c.on_loop_thread ≡ true
    → is_stat c.stat disconnected ≡ false
    → write message ≡ wrote n
    → n ≤ length message
    → c.output.writer_index + length message ≤ max_size
    → Leads (send_in_loop write c message) (acc ++ message)
unfolding send_in_loop tried taken untried
send_in_loop-Leads write c acc message n g on_thread not_closed taking le fit =
    subst (λ o. Leads o (acc ++ message)) (sym chosen)
      (elim (Bool-cases (is_empty (contents c.output))) [
        | inl idle ↦
            subst (λ b. Leads (pick b) (acc ++ message)) (sym idle)
              (subst (λ w. Leads (finish_send message (tried c message w)) (acc ++ message))
                (sym taking) (at_once idle))
        | inr busy ↦
            subst (λ b. Leads (pick b) (acc ++ message)) (sym busy)
              (subst
                (λ r.
                  Leads
                    (finish_send message
                      (record { conn = c; nwrote = 0; remaining = r; fault = false }))
                    (acc ++ message))
                none_taken
                (finish_send-Leads c acc message 0 (subst (Good c) (sym (append-nil acc)) g)
                  (omega arith) fit))
      ])
  where
    pick : Bool → Outcome TcpConnection
    pick b =
        if b
        then finish_send message (tried c message (write message))
        else finish_send message (untried c message)

    steps :
        (a b e : Bool)
        → a ≡ true
        → b ≡ false
        → ((if a then done tt else aborted) >> (if b then done c else pick e)) ≡ pick e
    steps a b e p q = rw (p, q) refl

    collapse : (b : Bool) → (not (not b) && b) ≡ b
    collapse true = refl
    collapse false = refl

    chosen : send_in_loop write c message ≡ pick (is_empty (contents c.output))
    chosen =
        steps c.on_loop_thread (is_stat c.stat disconnected) _ on_thread not_closed
        ∙ ap pick
            (ap₂ (λ a b. not a && b) g.waits (readable-is_empty c.output g.output_inv) ∙ collapse _)

    empty_contents : (xs : List ℕ) → is_empty xs ≡ true → xs ≡ []
    empty_contents [] e = refl
    empty_contents (x ∷ xs) e = cc

    left : sub_size (length message) n ≡ length message - n
    left = omega (arith, le, fit)

    written :
        (idle : is_empty (contents c.output) ≡ true)
        → Good (add_event c (sent (take n message))) (acc ++ take n message)
    written idle = record {
      wired = g.wired;
      output_inv = g.output_inv;
      stream =
          let none_left = empty_contents _ idle in
          ap (λ t. (delivered c.log ++ take n message) ++ t) none_left
          ∙ append-nil _
          ∙ ap (λ t. t ++ take n message)
              (sym (append-nil _) ∙ sym (ap (◌++◌ (delivered c.log)) none_left) ∙ g.stream);
      waits = g.waits;
    }

    none_taken : length message - 0 ≡ length message
    none_taken = omega arith

    done_now : Bool
    done_now = (length message - n == 0) && c.has_send_finish_cb

    attempt : tried c message (wrote n) ≡ record {
      conn =
          if done_now
          then queue_in_loop (add_event c (sent (take n message))) send_finish_task
          else add_event c (sent (take n message));
      nwrote = n;
      remaining = length message - n;
      fault = false;
    }
    attempt = rw (le→leb 0 n (omega arith), left) refl

    at_once :
        is_empty (contents c.output) ≡ true
        → Leads (finish_send message (tried c message (wrote n))) (acc ++ message)
    at_once idle =
        subst (λ a. Leads (finish_send message a) (acc ++ message)) (sym attempt)
          (finish_send-Leads _ acc message n
            (queue-Good done_now _ send_finish_task _ (written idle)) le
            (rw (queue-output done_now (add_event c (sent (take n message))) send_finish_task) fit))
