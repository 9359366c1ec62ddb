-- ===== src/Lib.antt =====
-- CzyNetFrame is a network library for Linux in C++: a reactor with one event loop per thread, and a
-- base library with an asynchronous log.
--
-- The parts and how they meet. An `EventLoop` waits in its `EpollPoller` for the descriptors of its
-- `Channel`s, calls the callbacks of those that are ready, and then the functors that were queued,
-- also by other threads, which wake it up by an eventfd. A `TcpConnection` owns a channel and two
-- `Buffer`s; a `TimerQueue` owns the channel of a timer descriptor. In the base library a thread that
-- logs formats a line in a `LogStream` and hands it to `AsyncLog`, whose own thread writes it out.
--
-- Which file models what (paths of the sources from the root of the repository):
--   Net/Endian          src/net/Endian.h: hostToNetwork and networkToHost of each width
--   Net/Buffer          src/net/Buffer.h, Buffer.cc: the byte buffer; Contents is its abstract view,
--                       Room, Write, Read, ReadFd, Search and Integers have the methods by groups
--   Net/Channel         src/net/Channel.h, Channel.cc: event masks and handleEvent
--   Net/Poller          src/net/Poller.cc, EpollPoller.cc, and the methods of Channel that go through
--                       the loop; Kernel is what epoll makes of the calls of epoll_ctl
--   Net/EventLoop       src/net/EventLoop.cc: the turn of the loop, queueInLoop, quit, wakeUp; Steps
--                       has the loop's thread beside others, Turn one turn as a function
--   Net/TimerQueue      src/net/TimerQueue.cc, Timer.h, Timer.cc, TimerId.h: the two sets of timers
--   Net/TcpConnection   src/net/TcpConnection.h, TcpConnection.cc: the handlers, sending and closing;
--                       Stream and WriteOut follow the bytes, Lifetime the states
--   Net/EventLoopThreadPool  src/net/EventLoopThreadPool.cc: start and getNextLoop
--   Base/FixedBuffer    src/base/LogStream.h: FixedBuffer
--   Base/LogStream      src/base/LogStream.cc: convert, convertHex and the operators that use them
--   Base/AsyncLog       src/base/AsyncLog.cc: append and threadFunc; Runs has them side by side
--   Base/BoundedBlockQueue  src/base/BoundedBlockQueue.h: the ring behind push and pop
--   Base/Date           src/base/Date.h, Date.cc: the number of a day and the date of a number;
--                       Calendar is the Gregorian calendar itself
--   Base/TimeZone       src/base/TimeZone.h, TimeZone.cc: calendar times and seconds; File and Reading
--                       have the reader of zone files, Lookup the searches and the conversions
--   Base/FileUnit       src/base/FileUnit.h, FileUnit.cc: the files that a log is written to
--   Base/LogFile        src/base/LogFile.h, LogFile.cc: appending, rolling and flushing
--   Base/LstTimer       src/base/LstTimer.h, LstTimer.cc: Ordered has TimerManagerList and Wheel has
--                       TimerManagerWheel; no other part uses them
--   Base/BlockQueue     src/base/BlockQueue.h
--   Base/ThreadPool     src/base/ThreadPool.h: the steps of threads and callers; Runs has their runs
--   Net/TcpServer       src/net/TcpServer.h, TcpServer.cc: the table of connections; Runs has the server
--                       beside the threads of its connections
--   Net/Acceptor        src/net/Acceptor.h, Acceptor.cc
--   Common              lists, integers, tables, tests on numbers, and `Outcome`
--
-- How the code is rendered. A method that changes its object returns the new object. Its result is an
-- `Outcome`: a value, a failed `assert` (the build type is Debug, where they are live), the end by
-- LOG_FATAL, an exception, or undefined behaviour, such as an access outside of an array or a use of
-- a deleted timer. A pointer into an array is an index, a pointer to an object a number with a store.
-- A name keeps the source's words in lower case: `send_in_loop` is `TcpConnection::sendInLoop`.
-- System calls are the environment: what they answer is an argument (`readv`, `write`, `epoll_wait`,
-- `read`), what they are asked is logged (`epoll_ctl`, `shutdown`, the log of a connection). Of
-- `write` and `readv` it is assumed that they take or give no more bytes than they were offered.
-- Which thread calls is an argument, or a part of the state. Concurrency is a step relation whose
-- steps are the sections under a mutex and what the threads do between them.
--
-- Bounds. A `size_t` wraps at 2 ^ 64; a vector holds at most 2 ^ 63 - 1 bytes, and a write
-- position beyond that is excluded by hypothesis where bytes are added. `convert` has fuel for 20
-- digits and `convertHex` for 16, as many as a number of 64 bits can have; `std::upper_bound` has
-- fuel for one round more than the table has entries, `readToEnd` for one more than the file has
-- bytes, and `AppendFile::append` for one more than the line has. All other loops are recursions
-- on the list that they run over. Times and intervals are microseconds without a bound.
-- `get_julian_day_number` and `block_size` are undefined where an `int` of the code overflows;
-- the other numbers of dates and times are exact, with ranges as hypotheses; those of LstTimer
-- are seconds and ticks.
--
-- Not modelled: the formatting by snprintf and of floating-point numbers, names and addresses of
-- connections, the sockets' options and their system calls, the creation and joining of threads, the
-- constructors that only open descriptors, Log with its formatting of line heads, and StringPiece,
-- which is a copy of PCRE's; and, so far, TimeStamp and EventLoopThread.
pub mod Common
pub mod Base
pub mod Net
