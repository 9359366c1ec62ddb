-- ===== src/Net/TcpConnection/ReadIn.antt =====
-- `handleRead` on what `readFd` returned.
use czy_net_frame.Common.{
  ℕ, suc, ◌+◌, ◌≤◌, ◌≡◌, refl, sym, ap, ◌∙◌, Bool, true, none, some, List, [], ◌∷◌, ◌++◌,
  append-nil, arith, if◌then◌else◌, lt→ltb, length, ◌>>=◌, ◌>>◌, assert, Outcome, done, aborted,
}
use czy_net_frame.Net.Buffer.{
  max_size, extra_size, offered, Received, received, failed, ReadResult, read_fd,
}
use czy_net_frame.Net.Buffer.Contents.{Inv, contents}
use czy_net_frame.Net.Buffer.ReadFd.{Obeys, Fed, read_fd-contents}
use czy_net_frame.Net.TcpConnection.{
  TcpConnection, ConnectionStat, disconnected, Event, message, up_or_down, close_notice, add_event,
  is_open, count_of, after_read, handle_read, handle_close,
}

-- The call succeeds, and has added these bytes to what waits to be read and these events.
abbrev pub TakesIn :
    Outcome TcpConnection → TcpConnection → List ℕ → ConnectionStat → List Event → Type 0
TakesIn o c bytes stat events =
    (d : TcpConnection) × (o ≡ done d)
    × Inv d.input
    × (contents d.input ≡ contents c.input ++ bytes)
    × (d.stat ≡ stat)
    × (d.log ≡ events ++ c.log)

-- What the loop's thread does for a readable open connection: it hands over the bytes that arrived,
-- behind those that the user has not taken yet; it closes the connection when there are none; and
-- when reading failed it calls the message callback, over the old contents, and never notes an
-- error. The input buffer's vector has room to grow by the extra buffer of `readFd`.
pub handle_read_cases :
    (readv : List ℕ → Received) (c : TcpConnection)
    → Obeys readv
    → Inv c.input
    → length c.input.buffer + extra_size ≤ max_size
    → c.on_loop_thread ≡ true
    → is_open c.stat ≡ true
    → ((x : ℕ) (bytes : List ℕ)
        → readv (offered c.input) ≡ received (x ∷ bytes)
        → TakesIn (handle_read readv c) c (x ∷ bytes) c.stat (message ∷ []))
      × (readv (offered c.input) ≡ received []
          → TakesIn (handle_read readv c) c [] disconnected (close_notice ∷ up_or_down ∷ []))
      × ((errno : ℕ)
          → readv (offered c.input) ≡ failed errno
          → TakesIn (handle_read readv c) c [] c.stat (message ∷ []))
unfolding handle_read after_read count_of handle_close
handle_read_cases readv c obeys v room on_thread opened = (arrives, ends, fails)
  where
    cases :
        ((bytes : List ℕ)
          → readv (offered c.input) ≡ received bytes
          → Fed (read_fd readv c.input) (contents c.input) bytes)
        × ((e : ℕ)
            → readv (offered c.input) ≡ failed e
            → read_fd readv c.input
              ≡ done (record { count = none; saved_errno = some e; after = c.input }))
    cases = read_fd-contents readv c.input obeys v room

    begin :
        (t : Bool) (r : ReadResult)
        → t ≡ true
        → read_fd readv c.input ≡ done r
        → ((if t then done tt else aborted)
            >> (read_fd readv c.input >>= λ r.
                after_read (count_of r.count) (record c { input = r.after })))
          ≡ after_read (count_of r.count) (record c { input = r.after })
    begin t r p q = rw (p, q) refl

    arrives :
        (x : ℕ) (bytes : List ℕ)
        → readv (offered c.input) ≡ received (x ∷ bytes)
        → TakesIn (handle_read readv c) c (x ∷ bytes) c.stat (message ∷ [])
    arrives x bytes e =
        let (r, f, n, _, w, m) = cases.0 (x ∷ bytes) e in
        let d : TcpConnection = record c { input = r.after } in
        (
          add_event d message,
          begin c.on_loop_thread r on_thread f
              ∙ ap (λ k. after_read (count_of k) d) n
              ∙ rw (lt→ltb 0 (suc (length bytes)) (omega arith)) refl,
          w,
          m,
          refl,
          refl,
        )

    ends :
        readv (offered c.input) ≡ received []
        → TakesIn (handle_read readv c) c [] disconnected (close_notice ∷ up_or_down ∷ [])
    ends e =
        let (r, f, n, _, w, m) = cases.0 [] e in
        let d : TcpConnection = record c { input = r.after } in
        (
          add_event (add_event (record d { stat = disconnected }) up_or_down) close_notice,
          begin c.on_loop_thread r on_thread f
              ∙ ap (λ k. after_read (count_of k) d) n
              ∙ closed c.on_loop_thread (is_open c.stat) on_thread opened,
          w,
          m,
          refl,
          refl,
        )
      where
        closed :
            (t o : Bool) {d : TcpConnection}
            → t ≡ true
            → o ≡ true
            → ((if t then done tt else aborted) >> (assert o >> done d)) ≡ done d
        closed t o p q = rw (p, q) refl

    fails :
        (errno : ℕ)
        → readv (offered c.input) ≡ failed errno
        → TakesIn (handle_read readv c) c [] c.stat (message ∷ [])
    fails errno e = (
      add_event c message,
      begin c.on_loop_thread _ on_thread (cases.1 errno e),
      v,
      sym (append-nil (contents c.input)),
      refl,
      refl,
    )
