-- ===== src/Net/TcpConnection/Closing.antt =====
-- `shutDown`, and the way from `handleClose` to `connectionDestory`.
use czy_net_frame.Common.{
  ℕ, ◌≡◌, refl, sym, ap, ◌∙◌, ◌≢◌, inl, Bool, true, false, not, List, if◌then◌else◌, set, ◌>>=◌,
  ◌>>◌, Outcome, done, assert_failed, aborted,
}
use czy_net_frame.Net.Buffer.Contents.{contents}
use czy_net_frame.Net.Channel.{added, has_event, read_event}
use czy_net_frame.Net.Poller.{Poller, disable_all, remove}
use czy_net_frame.Net.Poller.Removal.{remove_cases, remove-disable_all}
use czy_net_frame.Net.Poller.Masks.{Wired, asks_read}
use czy_net_frame.Net.TcpConnection.{
  TcpConnection, ConnectionStat, connected, disconnected, disconnecting, shutdown_task,
  queue_in_loop, shut_down_write, up_or_down, close_notice, own_channel, add_event, is_stat,
  is_open, with_poller, shutdown_in_loop, shut_down, handle_close, connection_destroy,
}
use czy_net_frame.Net.TcpConnection.Stream.{is_empty, Good}

-- Shutting down a connected connection on the loop's thread: the write side is shut down at once if
-- bytes still wait in the output buffer, and is not shut down if none do.
pub shut_down_lem :
    (c : TcpConnection) (acc : List ℕ)
    → Good c acc
    → c.on_loop_thread ≡ true
    → c.stat ≡ connected
    → (is_empty (contents c.output) ≡ false
        → shut_down c ≡ done (add_event (record c { stat = disconnecting }) shut_down_write))
      × (is_empty (contents c.output) ≡ true
          → shut_down c ≡ done (record c { stat = disconnecting }))
unfolding shut_down shutdown_in_loop
shut_down_lem c acc g on_thread up = (
  λ e. steps c.stat c.on_loop_thread _ true up on_thread (g.waits ∙ ap not e),
  λ e. steps c.stat c.on_loop_thread _ false up on_thread (g.waits ∙ ap not e),
)
  where
    d : TcpConnection
    d = record c { stat = disconnecting }

    shut : Bool → TcpConnection
    shut b = if b then add_event d shut_down_write else d

    steps :
        (s : ConnectionStat) (t a b : Bool)
        → s ≡ connected
        → t ≡ true
        → a ≡ b
        → (if is_stat s connected
            then (if t
                then ((if t then done tt else aborted) >> done (shut a))
                else done (queue_in_loop d shutdown_task))
            else done c)
          ≡ done (shut b)
    steps s t a b p q r = rw (p, q, r) refl

remove-busy : (p : Poller) (c : ℕ) → Wired p c → asks_read p c ≡ true → remove p c ≡ assert_failed
remove-busy p c w asks =
    (remove_cases p c w.sync w.ready).1
      (inl (λ z. none_true (sym (ap (λ e. has_event e read_event) z) ∙ asks)))
  where
    none_true : has_event 0 read_event ≢ true
    none_true e = cc

-- Taking the connection down on the loop's thread aborts the program, for a connection that is
-- still connected as well as for one that `handleClose` closed before: an assertion of `Channel::remove`
-- or of `removeChannel` fails. The channel is one that epoll watches, for reading at least.
pub connection_destroy-assert :
    (c : TcpConnection)
    → Wired c.poller c.channel
    → (own_channel c).index ≡ added
    → asks_read c.poller c.channel ≡ true
    → c.on_loop_thread ≡ true
    → (connection_destroy c ≡ assert_failed)
      × (is_open c.stat ≡ true
          → (d : TcpConnection) × (handle_close c ≡ done d)
            × (d.stat ≡ disconnected)
            × (connection_destroy d ≡ assert_failed))
unfolding connection_destroy handle_close
connection_destroy-assert c w watched asks on_thread = (
  destroyed c w watched asks on_thread,
  λ h. (
    add_event (add_event (record c { stat = disconnected }) up_or_down) close_notice,
    rw (on_thread, h) refl,
    refl,
    destroyed (add_event (add_event (record c { stat = disconnected }) up_or_down) close_notice) w
        watched asks on_thread,
  ),
)
  where
    down : TcpConnection → Outcome TcpConnection
    down c =
        with_poller (record c { stat = disconnected }) (disable_all c.poller c.channel) >>= λ c2.
        done (add_event c2 up_or_down)

    taken_off : TcpConnection → Outcome TcpConnection
    taken_off c = with_poller c (remove c.poller c.channel)

    by_stat :
        (c : TcpConnection) (b : Bool)
        → (down c >>= taken_off) ≡ assert_failed
        → taken_off c ≡ assert_failed
        → ((if b then down c else done c) >>= taken_off) ≡ assert_failed
    by_stat c true p q = p
    by_stat c false p q = q

    first :
        (t : Bool) (o : Outcome TcpConnection)
        → t ≡ true
        → o ≡ assert_failed
        → ((if t then done tt else aborted) >> o) ≡ assert_failed
    first t o p q = rw (p, q) refl

    destroyed :
        (c : TcpConnection)
        → Wired c.poller c.channel
        → (own_channel c).index ≡ added
        → asks_read c.poller c.channel ≡ true
        → c.on_loop_thread ≡ true
        → connection_destroy c ≡ assert_failed
    destroyed c w watched asks on_thread =
        let (q, set, failed) = remove-disable_all c.poller c.channel w.sync w.ready watched in
        first c.on_loop_thread _ on_thread (
          by_stat c (is_stat c.stat connected) (rw (set, failed) refl)
            (rw (remove-busy c.poller c.channel w asks) refl))
