-- ===== src/Net/TcpConnection/Lifetime.antt =====
-- The life of a connection as a step relation: the states it goes through, and how often the close
-- callback is told.
pub mod Calls
pub mod Runs
use czy_net_frame.Common.{
  ℕ, zero, suc, ◌+◌, ◌-◌, ◌*◌, ◌/◌, ◌%◌, ◌^◌, ◌≤◌, ◌<◌, min, max, ◌≡◌, refl, sym, ap, ap₂, ◌∙◌,
  subst, ◌≢◌, ◌↔◌, ◌⊎◌, inl, inr, Bool, true, false, not, ◌&&◌, ◌||◌, Option, none, some, List, [],
  ◌∷◌, ◌++◌, map, append_assoc, append-nil, arith, ltb, leb, ◌==◌, if◌then◌else◌, ltb→lt, lt→ltb,
  le→ltb, ltb→le, leb→le, lt→leb, le→leb, Bool-cases, Option-cases, length, get_elem?, set, take,
  drop, replicate, All, length-append, length-take, length-drop, length-replicate, take-append-drop,
  take-append, drop-append, take_all, drop_all, take-length_append, drop-length_append,
  drop-append_add, length-append₃, All-append, ◌>>=◌, ◌>>◌, assert, >>=-eq-done, Exception, Outcome,
  done, assert_failed, aborted, undefined, thrown, length_error, bad_function_call, out_of_range,
  logic_error, update, update_self, update_ne, ==_refl, ne→==,
}
use czy_net_frame.Net.Buffer.{Buffer, Received}
use czy_net_frame.Net.Poller.{Poller}
use czy_net_frame.Net.TcpConnection.{
  TcpConnection, ConnectionStat, connected, connecting, disconnected, disconnecting, Task,
  send_finish_task, high_water_task, send_task, shutdown_task, force_close_task, start_read_task,
  stop_read_task, Event, sent, up_or_down, message, close_notice, send_finished, high_water,
  shut_down_write, error_seen, force_close_timer, Written, wrote, write_failed, as_size,
  own_channel, add_event, queue_in_loop, assert_in_loop_thread, is_stat, is_open, with_poller,
  after_drain, drained, taken, after_write, write_out, handle_write, count_of, after_read,
  handle_read, shutdown_in_loop, shut_down, handle_close, force_close_in_loop, force_close,
  force_close_with_delay, start_read_in_loop, stop_read_in_loop, start_read, stop_read, tie_own,
  connection_established, connection_destroy,
}
use czy_net_frame.Net.TcpConnection.Sending.{
  note_high_water, store_rest, Attempt, untried, tried, keep_rest, finish_send, send_in_loop, send,
  send_buffer,
}
use czy_net_frame.Net.TcpConnection.Tasks.{run_task}

-- The order in which a connection goes through its states.
abbrev pub rank : ConnectionStat → ℕ
rank connecting = 0
rank connected = 1
rank disconnecting = 2
rank disconnected = 3

-- How often `m_closeCb` was called.
abbrev pub closes : List Event → ℕ
closes [] = 0
closes (close_notice ∷ earlier) = suc (closes earlier)
closes (_ ∷ earlier) = closes earlier

-- One call of a method, by the loop or by the user; the thread that calls may change in between, and
-- each call of the kernel has its own answer. The methods that store the state, `shutDown` and
-- those that force a close, are called on the loop's thread, as are the others that store it, so
-- that no store of another thread comes between their test and their own.
pub data Step : TcpConnection → TcpConnection → Type 0 where
  switches : {c : TcpConnection} (b : Bool) → Step c (record c { on_loop_thread = b })
  reads :
      {c d : TcpConnection} (readv : List ℕ → Received) → handle_read readv c ≡ done d → Step c d
  writes :
      {c d : TcpConnection} (write : List ℕ → Written) → handle_write write c ≡ done d → Step c d
  sends :
      {c d : TcpConnection} (write : List ℕ → Written) (bytes : List ℕ)
      → send write c bytes ≡ done d
      → Step c d
  sends_buffer :
      {c d : TcpConnection} (write : List ℕ → Written) (b b' : Buffer)
      → send_buffer write c b ≡ done (d, b')
      → Step c d
  shuts_down : {c d : TcpConnection} → c.on_loop_thread ≡ true → shut_down c ≡ done d → Step c d
  forces_close : {c : TcpConnection} → c.on_loop_thread ≡ true → Step c (force_close c)
  forces_close_later :
      {c : TcpConnection} → c.on_loop_thread ≡ true → Step c (force_close_with_delay c)
  starts_read : {c d : TcpConnection} → start_read c ≡ done d → Step c d
  stops_read : {c d : TcpConnection} → stop_read c ≡ done d → Step c d
  establishes : {c d : TcpConnection} → connection_established c ≡ done d → Step c d
  destroys : {c d : TcpConnection} → connection_destroy c ≡ done d → Step c d
  runs :
      {c d : TcpConnection} (write : List ℕ → Written) (t : Task) (rest : List Task)
      → c.pending ≡ t ∷ rest
      → run_task write (record c { pending = rest }) t ≡ done d
      → Step c d

pub data Run : TcpConnection → TcpConnection → Type 0 where
  stays : {c : TcpConnection} → Run c c
  goes_on : {c d e : TcpConnection} → Run c d → Step d e → Run c e

-- What one call may do to the state and to the close callback.
pub record Ages (c d : TcpConnection) : Type 0 where
  pub later : rank c.stat ≤ rank d.stat
  pub told :
      (closes d.log ≡ closes c.log)
      ⊎ ((closes d.log ≡ suc (closes c.log)) × (rank c.stat < 3) × (rank d.stat ≡ 3))

-- Whatever the call returns is such a state.
abbrev pub AgesIn : TcpConnection → Outcome TcpConnection → Type 0
AgesIn c o = (d : TcpConnection) → o ≡ done d → Ages c d

pub Ages-same : (c d : TcpConnection) → d.stat ≡ c.stat → closes d.log ≡ closes c.log → Ages c d
Ages-same c d p q = record { later = omega (arith, ap rank p); told = inl q }

pub Ages-done : (c d : TcpConnection) → Ages c d → AgesIn c (done d)
Ages-done c d a e h = subst (Ages c) (got h) a
  where
    value : Outcome TcpConnection → TcpConnection
    value (done x) = x
    value _ = d

    got : done d ≡ done e → d ≡ e
    got h = ap value h

pub Ages-then {ℓ} :
    {A : Type ℓ} (c : TcpConnection) (m : Outcome A) (f : A → Outcome TcpConnection)
    → ((a : A) → AgesIn c (f a))
    → AgesIn c (m >>= f)
Ages-then c (done a) f h d e = h a d e
Ages-then c assert_failed f h d e = cc
Ages-then c aborted f h d e = cc
Ages-then c undefined f h d e = cc
Ages-then c (thrown x) f h d e = cc

pub Ages-if :
    (c : TcpConnection) (b : Bool) (x y : Outcome TcpConnection)
    → (b ≡ true → AgesIn c x)
    → AgesIn c y
    → AgesIn c (if b then x else y)
Ages-if c true x y h k = h refl
Ages-if c false x y h k = k

pub Ages-assert :
    (c : TcpConnection) (b : Bool) (f : Outcome TcpConnection)
    → (b ≡ true → AgesIn c f)
    → AgesIn c (assert b >> f)
Ages-assert c true f h d e = h refl d e
Ages-assert c false f h d e = cc

-- From `c`, by way of a later state that was told the same.
pub Ages-aged :
    (c c' : TcpConnection) (o : Outcome TcpConnection)
    → rank c.stat ≤ rank c'.stat
    → closes c'.log ≡ closes c.log
    → AgesIn c' o
    → AgesIn c o
Ages-aged c c' o p q h d e = record {
  later = omega (arith, p, (h d e).later);
  told = elim (h d e).told [
    | inl s ↦ inl (s ∙ q)
    | inr (s, t, u) ↦ inr (s ∙ ap suc q, omega (arith, p, t), u)
  ];
}

pub Ages-from :
    (c c' : TcpConnection) (o : Outcome TcpConnection)
    → c'.stat ≡ c.stat
    → closes c'.log ≡ closes c.log
    → AgesIn c' o
    → AgesIn c o
Ages-from c c' o p = Ages-aged c c' o (omega (arith, ap rank p))

pub Ages-poller :
    (c d : TcpConnection) (m : Outcome Poller)
    → d.stat ≡ c.stat
    → closes d.log ≡ closes c.log
    → AgesIn c (with_poller d m)
Ages-poller c d m p q =
    Ages-then c m _ (λ r. Ages-done c (record d { poller = r }) (Ages-same c _ p q))

-- The poller is asked first, and then the connection goes on as `d` with the new poller.
pub Ages-wired :
    (c d : TcpConnection) (m : Outcome Poller) (f : TcpConnection → Outcome TcpConnection)
    → ((p : Poller) → AgesIn c (f (record d { poller = p })))
    → AgesIn c (with_poller d m >>= f)
Ages-wired c d (done p) f h e q = h p e q
Ages-wired c d assert_failed f h e q = cc
Ages-wired c d aborted f h e q = cc
Ages-wired c d undefined f h e q = cc
Ages-wired c d (thrown x) f h e q = cc

pub is_stat-eq : (s t : ConnectionStat) → is_stat s t ≡ true → s ≡ t
is_stat-eq connected connected h = refl
is_stat-eq connecting connecting h = refl
is_stat-eq disconnected disconnected h = refl
is_stat-eq disconnecting disconnecting h = refl
is_stat-eq connected connecting h = cc
is_stat-eq connected disconnected h = cc
is_stat-eq connected disconnecting h = cc
is_stat-eq connecting connected h = cc
is_stat-eq connecting disconnected h = cc
is_stat-eq connecting disconnecting h = cc
is_stat-eq disconnected connected h = cc
is_stat-eq disconnected connecting h = cc
is_stat-eq disconnected disconnecting h = cc
is_stat-eq disconnecting connected h = cc
is_stat-eq disconnecting connecting h = cc
is_stat-eq disconnecting disconnected h = cc

pub is_open-rank : (s : ConnectionStat) → is_open s ≡ true → rank s < 3
is_open-rank connected h = omega arith
is_open-rank disconnecting h = omega arith
is_open-rank connecting h = cc
is_open-rank disconnected h = cc
