-- ===== src/Lib.antt =====
-- The thread pool, the timer and the monitor of the crate rust_task; the epoll pump and the IO thread of
-- rust_io; the sockets of rust_net; and the locks, streams, reactor, files and futures of rust_async.
--
-- A pool (rust_task/thread_pool/thread_pool.rs) is a group of workers around one queue of sequences. A
-- sequence is a queue of tasks, immediate and delayed; a post puts a task into a sequence, new or
-- shared, and hands the sequence to the group, or to the timer thread when the task is delayed. A
-- worker takes the best sequence out of the queue, claims it, runs one task of it, and gives it back
-- if more are ready. A tracker decides which posts are accepted and what a shutdown waits for.
--
--   Base                 shared: tests on numbers, lists, orders, the heap (std::collections::BinaryHeap)
--   Task                 rust_task/task.rs, task_traits.rs, sequence_token.rs
--   Sequence             rust_task/thread_pool/sequence.rs: Sequence::push_task, take_task, ...
--   PriorityQueue        rust_task/thread_pool/priority_queue.rs
--   TaskTracker          rust_task/thread_pool/task_tracker.rs
--   DelayedTaskManager   rust_task/thread_pool/delayed_task_manager.rs; timer_round is a turn of timer_loop
--   ThreadGroup          rust_task/thread_pool/thread_group.rs: push_task_source, get_work, join_all
--   Pool                 the state of one pool, and the store of its sequences under their tokens
--   Pool/Callback        what the closures do that the pool builds (wrap, wrap_task, post_task_and_reply)
--   Pool/Post            every way to post: ThreadPool, PooledSequencedTaskRunner, PooledParallelTaskRunner
--   Pool/Worker          worker_loop, a shared access at a time
--   Pool/Shutdown        ThreadPool::shutdown
--   Pool/Schedule        events and schedules: any interleaving of clients, workers, timer and shutdown
--   Pool/InRange, Exclusion, Attended, Counting   invariants of all schedules; Pool/Safety, Progress and
--                        Waits what they give
--   Timer                rust_task/timer.rs and bind.rs: RepeatingTimer, with the life of its TimerInner
--   TaskMonitor          rust_task/task_monitor.rs: the slots of the workers, the scan of watchdog_loop
--   Sync                 rust_async/sync.rs: Waiters, and Tracked, the futures that wait on a wait set;
--                        Mutex, RwLock, Barrier, Channel, Condvar, each with the schedules of its clients
--   Stream               rust_async/stream.rs: the combinators of StreamExt, and Stream/Interval
--   Io/Pump              rust_io/epoll_pump.rs: EpollMessagePump, its watches and what an event calls
--   Io/Controller        rust_io/message_pump.rs: FdWatchController; watch_file_descriptor
--   Io/Runner            rust_io/io_task_runner.rs: IoTaskRunner, with its thread and its clients
--   Io/FileProxy         rust_io/file_proxy.rs: FileProxy, with its runner and its IO runner
--   Io/Disk              the content of a file, and the calls of the standard library on it
--   Net/Socket           rust_net/socket_posix.rs: SocketPosix on its pump (Ops, and Fire for what the IO
--                        thread does later); Net/Socket/Events its schedules
--   Net/Tcp              rust_net/tcp_client_socket.rs, tcp_server_socket.rs
--   Async/Reactor        rust_async/reactor.rs: Source on its pump
--   Async/Job            rust_async/fs.rs: the one-shot channel and fs_blocking
--   Async/File           rust_async/fs.rs: File, with the loops of poll_read, poll_write and poll_seek
--   Async/Tasks          rust_async/task.rs: YieldNow, Timer, Timeout, Offload
--   Async/BlockOn        rust_async/block_on.rs: block_on and its waker
--   Async/Local          rust_async/local.rs: Tagged, the context of a thread, LocalKey
--   Async/Stdio          rust_async/io.rs: Stdin, and the Writer of stdout and stderr
--   Async/Net            rust_async/net.rs: the loops of a socket around its source, write_all, connect;
--                        Unix for rust_async/os/unix/net.rs
--
-- The state of each part is a record with the fields of the source, and each method is a function from
-- the old state to the new one: it runs under the mutex of the part. What two threads may interleave
-- is cut into steps: a worker and its callback stand at a program counter (Pc), and a call that one
-- part makes of another after it has released its own mutex is a step of its own (in_flight). A
-- schedule is a list of events of any length and order, so that a theorem on all schedules covers all
-- interleavings. An Instant is a number, and time passes by an event. A client of a lock or channel is
-- a task that holds a future or a guard, and a waker is the number of the task that it wakes.
--
-- What the system answers to a call (epoll_ctl, read, write, accept, ...) is an argument of the operation
-- that makes the call, or part of its event, so that a theorem holds for all answers. A callback of a
-- socket is a number, and what it does next is the next event of the schedule; in Net the socket is the
-- only watcher of its pump, and in Async/Reactor the source is. A future that another thread completes is
-- polled with the answer that is there in the middle of the poll, if there is one by then.
--
-- The loop of flush_ready_delayed_tasks runs on as much fuel as there are delayed tasks: each round
-- takes one out, and the theorem on it says that none that is due is left. The other loops
-- (worker_loop, timer_loop, the loop of the pump, the waits) are cut into steps and have no fuel. The
-- loops of File, Stdin and Writer get as many turns as they can take (three for poll_read, two for the
-- others), and the theorems on File and Stdin say that they return. The loops of the async sockets are
-- recursive in the answers of the system.
--
-- Not modelled: a stream that gives items for ever to one loop of a combinator (the loops are
-- recursive in the finite number of answers of the stream inside); condition variables of the
-- standard library, so that a thread that waits on one looks again whenever it is scheduled, and
-- that it is notified is not shown; panics of the callbacks of clients; the overflow of counters of
-- 64 bits (tokens, sequence numbers, generations, counts of readers); thread-local values (the
-- current token and the current runner), where a post with a reply carries the token of the runner
-- that gets it; the data behind the locks, and std::sync::Mutex itself; the threads of TaskMonitor;
-- an IoTaskRunner with a monitor, and its post_task_and_reply; whether a registration with epoll
-- failed, which Source and SocketPosix do not look at (the theorem on Source takes registrations
-- that succeed); the addresses of sockets, TLS, and the wrappers of one system call; two
-- closures of a FileProxy that overlap, on a parallel runner; the executors,
-- which wrap the crate async-task; in a pool, the measured times and the worker slots; a post
-- through any token that was given out is a possible event, also where the program keeps no handle
-- to the sequence.
pub mod Base
pub mod Task
pub mod Sequence
pub mod PriorityQueue
pub mod TaskTracker
pub mod DelayedTaskManager
pub mod ThreadGroup
pub mod Pool
pub mod Timer
pub mod TaskMonitor
pub mod Sync
pub mod Stream
pub mod Io
pub mod Net
pub mod Async
pub mod Examples
