-- ===== src/Lib.antt =====
-- The fibers crate: fibers are futures that schedulers poll on threads of their own; they park
-- and are woken through counters that other threads share, wait at channels, and wait for
-- timeouts and I/O events at a poller.
--
-- The parts, the files that model them, and how they meet:
--
-- - Prelude: natural numbers with Boolean tests, lists, hash maps (Prelude/HashMap), 64-bit usize
--   and the search for an unused identifier (Prelude/Usize), results and panics
--   (Prelude/Results).
-- - Collections: HeapMap of src/collections.rs over an ordered map, a parameter with the laws of
--   the splay_tree crate (Collections/Tree). Collections/Drain is the loop that the poller runs
--   over it.
-- - SyncAtomic: AtomicCell of src/sync_atomic.rs; SyncAtomic/Borrows are threads that borrow one
--   cell. Poll/Evented is SharableEvented of src/io/poll/mod.rs, an object of mio behind a lock
--   that spins on such a cell; Poll/Evented/Sharing are threads that call methods through the
--   lock, next to an object whose methods are atomic, with proofs in Refined.
-- - Fiber: src/fiber/schedule.rs with FiberState and Unpark of src/fiber/mod.rs. Fiber/State has
--   the data of fibers and the calls that a future makes while it is polled; Fiber/Schedule the
--   scheduler, its requests and run queue (next_fiber_id, schedule, next_runnable, spawn_fiber,
--   handle_request); Fiber/Context the execution context, park, yield, the drop of an Unpark,
--   run_fiber and run_once. Fiber/Threads is the scheduler's thread among others, as a step
--   relation. Fiber/Linked are the futures of spawn_monitor and spawn_link with SelectEither,
--   over the half of a channel, an interface; Fiber/Linked/Ending fills it with link pairs.
--   Fiber/Fairness is about the order of the run queue. Fiber/Invariant, Scheduling, Requests,
--   Calls, Running and Turns carry the proofs.
-- - Sync: Sync/Notifier is Notifier of src/sync/mod.rs, which keeps an Unpark in an AtomicCell
--   and drops it to wake the receiver. Sync/Mpsc is the channel of src/sync/mpsc.rs over a
--   channel of the nbchan crate, a parameter (Sync/Nbchan): Sync/Mpsc/Receiving treats one call,
--   Sync/Mpsc/Steps and Order one receiver and any number of senders in any interleaving;
--   Sync/Mpsc/Queue is the queue that the channel promises to be, Refined relates the two.
--   Sync/Oneshot is the channel for one value of src/sync/oneshot.rs with its monitors, over a
--   parameter as well (Monitoring: one call; Steps, Cell and Refined: both sides in any
--   interleaving, and what the channel promises); Sync/Oneshot/Links are link pairs, with proofs
--   in Linking and, for threads that are in no fiber, Outside; Sync/Halves has what both kinds of
--   channel share.
-- - Poll: Poll/Handle is the liveness flag of PollerHandle; Poll/Poller is Poller of
--   src/io/poll/poller.rs, with requests, timeouts and events, over the registry of mio, a
--   parameter (Poll/Mio). Poll/Poller/Waiting, Requests, Events and Whole carry the proofs.
--   Poll/Handles are the operations of PollerHandle, EventedHandle and CancelTimeout, which send
--   requests to the poller; Poll/Handles/Serving interleaves them with the requests that the
--   poller takes, with proofs in Orderly, Users, Taken, Served; Poll/Handles/Running interleaves
--   them with whole calls of poll, from Poller::new on, with proofs in Parts, Owned, Polled,
--   Forever. Poll/Register is the future Register with the reply that ends it.
-- - Time: Timeout and TimeoutAfter of src/time.rs, over Timeout of the poller and Poll/Handles;
--   proofs in Time/Polled. Their oneshot channel is an interface.
-- - Stdio: Stdin of src/io/stdio.rs and its I/O thread, two parties that talk over channels. The
--   read of the operating system is a parameter, from a buffer to the filled buffer.
--   Stdio/Protocol interleaves them, Stdio/Protocol/Outcomes is what a caller sees.
-- - Executor: src/executor. Executor/InPlace is one turn of InPlaceExecutor, the scheduler's
--   run_once and then the poller's poll, which notifies fibers of that scheduler
--   (Executor/Delivery); Executor/ThreadPool is ThreadPoolExecutor as its owner sees it, with the
--   fibers that it has sent to each scheduler and the link to each of their threads (Rounds: who
--   gets which; Starting: with_thread_count; Threads: the loops of the threads, a round at a
--   time, with proofs in Living); Executor/Futures are run_future, run_fiber and run, over any
--   run_once.
-- - Net: the futures of src/net. All of them wait in one way (Net/Retry): poll the monitor, try
--   the system call, start a monitor if it would block. Net/Reactor is what they use of the
--   poller and of the fiber, an interface. Net/Bind, Tcp and Udp have the operations;
--   Tcp/Waiting, Tcp/Connecting and Udp/Waiting the proofs.
--
-- A method with &mut self is a function that returns the new state. assert!, unwrap and
-- assert_some! that fail, and loops that do not end, are values of Fault. A pointer to a fiber is
-- the fiber's identifier; the counters behind Arc<AtomicUsize> are a function from addresses.
-- What another thread does between two atomic operations is a step of its own. A future is any
-- function from its state to a tree of calls (park, yield, spawn, drop of an Unpark, and so on)
-- that ends with the result of its poll.
--
-- Bounds and fuel: usize has 64 bits; identifiers and tokens wrap around. The search for an
-- identifier has one round more than there are keys, which is enough while fewer than 2^64 keys
-- exist. The loop of run_once has fuel for two rounds, the loop over timeouts for one round more
-- than there are entries. The loops of the sockets end after three rounds and those of a
-- connection after four nested calls, if no event comes between the start of a monitor and its
-- first poll. run_future ends when its future does. The counters of parks and unparks are natural
-- numbers: 2^64 parks of one fiber do not occur.
--
-- Parameters: the splay_tree crate (Ord, SplayMap), nbchan (Mpsc, Nb), mio (Mio), the system
-- calls of the sockets (Reactor). ListMap, ListChan, CellChan and ListMio are small instances
-- that meet the laws; the tests run on them.
--
-- Not modelled: calls that only clone a handle, what is dropped when a thread ends, and what a
-- poller does after one of its calls of poll has failed. What comes in an Instant is a natural
-- number: the overflow of a time does not occur. Debug and Display instances and the examples
-- have no logic to model. The memory model is sequential consistency, which all atomic operations
-- of the source ask for.
pub mod Prelude
pub mod Collections
pub mod SyncAtomic
pub mod Poll
pub mod Fiber
pub mod Sync
pub mod Net
pub mod Executor
pub mod Stdio
pub mod Time
