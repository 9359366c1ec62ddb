-- ===== src/Net.antt =====
-- src/net: the event loop and what it drives.
pub mod Endian
pub mod Buffer
pub mod Channel
pub mod Poller
pub mod TcpConnection
pub mod EventLoop
pub mod TimerQueue
pub mod EventLoopThreadPool
pub mod Acceptor
pub mod TcpServer
