-- ===== src/Net/TcpConnection/Tasks.antt =====
-- The tasks that the methods of src/net/TcpConnection.cc queue in the loop, when it runs them.
use czy_net_frame.Common.{ℕ, List, Outcome, done}
use czy_net_frame.Net.TcpConnection.{
  Task, TcpConnection, Written, send_finish_task, high_water_task, send_task, shutdown_task,
  force_close_task, start_read_task, stop_read_task, send_finished, high_water, add_event,
  shutdown_in_loop, force_close_in_loop, start_read_in_loop, stop_read_in_loop,
}
use czy_net_frame.Net.TcpConnection.Sending.{send_in_loop}

-- What the loop does with a queued task.
unfoldable pub run_task : (List ℕ → Written) → TcpConnection → Task → Outcome TcpConnection
run_task write c send_finish_task = done (add_event c send_finished)
run_task write c (high_water_task n) = done (add_event c (high_water n))
run_task write c (send_task bytes) = send_in_loop write c bytes
run_task write c shutdown_task = shutdown_in_loop c
run_task write c force_close_task = force_close_in_loop c
run_task write c start_read_task = start_read_in_loop c
run_task write c stop_read_task = stop_read_in_loop c
