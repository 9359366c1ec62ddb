-- ===== src/Net/TcpServer.antt =====
-- The class of src/net/TcpServer.h and TcpServer.cc: the pool of loops and the table of connections.
-- A connection is named by a fixed text and the decimal number `m_nextConnId`, so the number stands
-- for the name, and, as each is used once, for the connection. The connections' own state is that of
-- Net/TcpConnection; here their methods that a loop is given to call are recorded.
-- A loop is a number; `caller` is the loop on whose thread a method is called.
pub mod Table
pub mod Consistency
pub mod Removing
pub mod Runs
pub mod Tests
use czy_net_frame.Common.{
  ℕ, zero, suc, ◌+◌, ◌-◌, ◌*◌, ◌/◌, ◌%◌, ◌^◌, ◌≤◌, ◌<◌, min, max, ◌≡◌, refl, sym, ap, ap₂, ◌∙◌,
  subst, ◌≢◌, ◌↔◌, ◌⊎◌, inl, inr, Bool, true, false, not, ◌&&◌, ◌||◌, Option, none, some, List, [],
  ◌∷◌, ◌++◌, map, append_assoc, append-nil, arith, ltb, leb, ◌==◌, if◌then◌else◌, ltb→lt, lt→ltb,
  le→ltb, ltb→le, leb→le, lt→leb, le→leb, Bool-cases, Option-cases, ==→eq, ==→ne, leb-suc, leb→lt,
  length, get_elem?, set, take, drop, replicate, reverse_onto, All, length-append, length-take,
  length-drop, length-replicate, take-append-drop, take-append, drop-append, take_all, drop_all,
  take-length_append, drop-length_append, drop-append_add, length-append₃, All-append,
  length-reverse_onto, get_elem?-some, get_elem?-lt, ◌>>=◌, ◌>>◌, assert, >>=-eq-done, Ensures,
  Ensures->>=, Ensures-done, Exception, Outcome, done, assert_failed, aborted, undefined, thrown,
  length_error, bad_function_call, out_of_range, logic_error, update, update_self, update_ne,
  ==_refl, ne→==, magnitude, neg, is_negative, pos_part, neg_part, sub_ℕ, ◌+ℤ◌, ◌-ℤ◌, ◌*ℤ◌, quot,
  rem, ltb_ℤ, leb_ℤ, ◌≤ℤ◌, ◌<ℤ◌, +ℤ_parts, -ℤ_parts, *ℤ_parts, one_part, eq_of_parts, sub_ℕ-le,
  sub_ℕ-lt, +ℤ_assoc, +ℤ-sub, +ℤ-pos, -ℤ-pos, *ℤ-pos, signed_32, to_int_32, neg_parts, ℤ, pos,
  negsuc,
}
use czy_net_frame.Net.EventLoopThreadPool.{
  EventLoopThreadPool, init, set_thread_num, start, get_next_loop,
}

pub record Connection : Type 0 where
  pub name : ℕ
  pub io_loop : ℕ
  pub sockfd : ℕ

-- What a loop is given to do: connectionEstablished and connectionDestory of a connection,
-- removeConnectionInLoop of the server, and listen of the acceptor.
pub data Task : Type 0 where
  establish destroy remove_in_loop : Connection → Task
  listen : Task

-- `calls` are the tasks of connections and of the acceptor that were run, the last one first, and
-- `posted` those that wait, each with its loop.
pub record TcpServer : Type 0 where
  pub loop : ℕ
  pub pool : EventLoopThreadPool
  pub has_thread_init_cb : Bool
  pub acceptor_listening : Bool
  pub started : ℕ
  pub next_conn_id : ℕ
  pub connections : List Connection
  pub calls : List Task
  pub posted : List (ℕ × Task)

-- The constructor; `m_isListen` of the acceptor is what the memory holds.
pub construct : ℕ → Bool → TcpServer
construct loop is_listen = record {
  loop = loop;
  pool = init loop;
  has_thread_init_cb = false;
  acceptor_listening = is_listen;
  started = 0;
  next_conn_id = 1;
  connections = [];
  calls = [];
  posted = [];
}

abbrev pub assert_in_loop_thread : ℕ → TcpServer → Outcome (Unit {0})
assert_in_loop_thread caller s = if caller == s.loop then done tt else aborted

abbrev pub post : ℕ → Task → TcpServer → TcpServer
post loop t s = record s { posted = s.posted ++ ((loop, t) ∷ []) }

abbrev pub call : Task → TcpServer → TcpServer
call t s = record s { calls = t ∷ s.calls }

-- `runInLoop` of a task that is not the server's own.
abbrev pub run_in_loop : ℕ → ℕ → Task → TcpServer → TcpServer
run_in_loop caller loop t s = if caller == loop then call t s else post loop t s

-- `m_connections.erase(name)`, which leaves the others, and the number of those erased.
abbrev pub erase : ℕ → List Connection → List Connection
erase name [] = []
erase name (c ∷ cs) = if c.name == name then erase name cs else c ∷ erase name cs

abbrev pub erased : ℕ → List Connection → ℕ
erased name [] = 0
erased name (c ∷ cs) = if c.name == name then suc (erased name cs) else erased name cs

-- `m_connections[name] = conn`.
abbrev pub put : Connection → List Connection → List Connection
put c cs = c ∷ erase c.name cs

pub new_connection : ℕ → ℕ → TcpServer → Outcome TcpServer
new_connection caller sockfd s = do
  assert_in_loop_thread caller s
  (io_loop, pool) ← get_next_loop (caller == s.loop) s.pool
  let conn : Connection = record { name = s.next_conn_id; io_loop = io_loop; sockfd = sockfd }
  let s1 : TcpServer = record s {
    pool = pool;
    next_conn_id = s.next_conn_id + 1;
    connections = put conn s.connections;
  }
  done (run_in_loop caller io_loop (establish conn) s1)

pub remove_connection_in_loop : ℕ → Connection → TcpServer → Outcome TcpServer
remove_connection_in_loop caller conn s = do
  assert_in_loop_thread caller s
  assert (erased conn.name s.connections == 1)
  done (post conn.io_loop (destroy conn) (record s { connections = erase conn.name s.connections }))

-- `removeConnection`, the close callback of every connection.
pub remove_connection : ℕ → Connection → TcpServer → Outcome TcpServer
unfolding remove_connection_in_loop
remove_connection caller conn s =
    if caller == s.loop
    then remove_connection_in_loop caller conn s
    else done (post s.loop (remove_in_loop conn) s)

-- `start`, which does its work once. `spawn` gives the loops of new threads.
pub start_server : ℕ → (ℕ → ℕ) → TcpServer → Outcome TcpServer
start_server caller spawn s =
    let s1 : TcpServer = record s { started = s.started + 1 } in
    if s.started == 0
    then (do
      pool ← start (caller == s.loop) spawn s1.has_thread_init_cb s1.pool
      assert (not s1.acceptor_listening)
      done (run_in_loop caller s1.loop listen (record s1 { pool = pool })))
    else done s1

pub set_threads : ℕ → TcpServer → TcpServer
set_threads n s = record s { pool = set_thread_num s.pool n }

-- The loop of the destructor.
pub destroy_all : ℕ → List Connection → TcpServer → TcpServer
destroy_all caller [] s = s
destroy_all caller (c ∷ cs) s = destroy_all caller cs (run_in_loop caller c.io_loop (destroy c) s)

pub destructor : ℕ → TcpServer → Outcome TcpServer
unfolding destroy_all
destructor caller s = do assert_in_loop_thread caller s; done (destroy_all caller s.connections s)

-- A loop runs a task that was posted to it.
pub run_task : ℕ → Task → TcpServer → Outcome TcpServer
unfolding remove_connection_in_loop
run_task loop (establish c) s = done (call (establish c) s)
run_task loop (destroy c) s = done (call (destroy c) s)
run_task loop (remove_in_loop c) s = remove_connection_in_loop loop c s
run_task loop listen s = done (call listen (record s { acceptor_listening = true }))
