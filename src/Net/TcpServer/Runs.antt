-- ===== src/Net/TcpServer/Runs.antt =====
-- The server of Net/TcpServer beside the threads of its connections. A connection calls its close
-- callback once at most, on the thread of its loop, which is what Net/TcpConnection/Lifetime is about.
use czy_net_frame.Common.{ℕ, ◌≡◌, Bool, true, false, List, [], ◌∷◌, ◌++◌, All, done, update}
use czy_net_frame.Net.TcpServer.{
  Connection, Task, TcpServer, new_connection, remove_connection, run_task,
}
use czy_net_frame.Net.TcpServer.Table.{removals}
use czy_net_frame.Net.TcpServer.Consistency.{IsCreated, HasLoop}

-- `closed` says of which connections the close callback was called.
pub record World : Type 0 where
  pub server : TcpServer
  pub closed : ℕ → Bool

pub data Step : World → World → Type 0 where
  accept :
      (w : World) (sockfd : ℕ) (s : TcpServer)
      → new_connection w.server.loop sockfd w.server ≡ done s
      → Step w (record w { server = s })
  close :
      (w : World) (c : Connection) (s : TcpServer)
      → IsCreated w.server c
      → w.closed c.name ≡ false
      → remove_connection c.io_loop c w.server ≡ done s
      → Step w (record { server = s; closed = update w.closed c.name true })
  run :
      (w : World) (before after : List (ℕ × Task)) (loop : ℕ) (t : Task) (s : TcpServer)
      → w.server.posted ≡ before ++ ((loop, t) ∷ after)
      → run_task loop t (record w.server { posted = before ++ after }) ≡ done s
      → Step w (record w { server = s })

pub data Run : World → World → Type 0 where
  still : (w : World) → Run w w
  then_step : (u v w : World) → Run u v → Step v w → Run u w

-- A new server, before connections are accepted, whatever else it was told to do.
pub record IsFresh (w : World) : Type 0 where
  pub no_connections : w.server.connections ≡ []
  pub first_number : w.server.next_conn_id ≡ 1
  pub no_removals : removals w.server.posted ≡ []
  pub on_loop : All (HasLoop w.server.loop) w.server.posted
  pub none_closed : (n : ℕ) → w.closed n ≡ false
