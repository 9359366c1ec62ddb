-- ===== src/Net/TcpServer/Tests.antt =====
-- A server with one thread, and a connection that is accepted and closed.
use czy_net_frame.Common.{
  ℕ, ◌+◌, ◌≡◌, refl, Bool, true, false, [], ◌∷◌, done, assert_failed, update,
}
use czy_net_frame.Net.EventLoopThreadPool.{
  EventLoopThreadPool, init, set_thread_num, start, in_loop_thread, start_loops,
}
use czy_net_frame.Net.TcpServer.{
  Connection, establish, remove_in_loop, listen, TcpServer, construct, remove_connection_in_loop,
  start_server, set_threads,
}
use czy_net_frame.Net.TcpServer.Runs.{World}

-- Loop 0 is the server's, loop 1 the thread's.
abbrev pool : EventLoopThreadPool
pool = record {
  thread_num = 1;
  base_loop = 0;
  next_idx = 0;
  started = true;
  loops = 1 ∷ [];
  initialized = [];
}

abbrev started : TcpServer
started = record {
  loop = 0;
  pool = pool;
  has_thread_init_cb = false;
  acceptor_listening = false;
  started = 1;
  next_conn_id = 1;
  connections = [];
  calls = listen ∷ [];
  posted = [];
}

started-start_server :
    start_server 0 (λ i. i + 1) (set_threads 1 (construct 0 false)) ≡ done started
unfolding start_server set_threads construct start set_thread_num init start_loops in_loop_thread
started-start_server = refl

-- The memory that `m_isListen` stands in may hold true.
listening : start_server 0 (λ i. i + 1) (set_threads 1 (construct 0 true)) ≡ assert_failed
unfolding start_server set_threads construct start set_thread_num init start_loops in_loop_thread
listening = refl

abbrev open_first : ℕ → Bool
open_first n = false

abbrev beginning : World
beginning = record { server = started; closed = open_first }

abbrev conn : Connection
conn = record { name = 1; io_loop = 1; sockfd = 7 }

abbrev accepted_one : TcpServer
accepted_one = record started {
  next_conn_id = 2;
  connections = conn ∷ [];
  posted = (1, establish conn) ∷ [];
}

abbrev closing : TcpServer
closing = record accepted_one { posted = (1, establish conn) ∷ (0, remove_in_loop conn) ∷ [] }

abbrev closed_one : World
closed_one = record { server = closing; closed = update open_first 1 true }

-- A second removal of a connection fails the assertion.
twice : remove_connection_in_loop 0 conn started ≡ assert_failed
unfolding remove_connection_in_loop
twice = refl
