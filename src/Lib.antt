-- ===== src/Lib.antt =====
-- Verification of the C programs of the repository, exercises of a course on operating systems:
-- a server for one connection at a time, three event-based servers, counters with and without locks,
-- programs with semaphores, a semaphore made of a mutex and a condition variable, threads that take
-- locks in different orders, and two programs that touch memory.
--
-- The servers are in exersises/concurrency/event-based-concurrency/exercise.
--   file-server.c: Cache is its file cache (CacheEntry, cache_lookup, cache_insert, cache_clear),
--   Wire its write_all, World the state that its functions share (the cache, the heap, the open
--   files and the sockets), FileServer/Serve its serve_file, FileServer/Requests its
--   process_requests, Table its clients (add_client, remove_client), Sweep the loop over them,
--   FileServer/EventLoop its event_loop, and FileServer/Main its create_listen_socket and main.
--   aio-file-server.c: AioServer has the clients and their states, AioServer/Serve begin_file_serve
--   and check_aio, AioServer/Visit what is done for one client in a turn, and AioServer/EventLoop
--   the event_loop, and AioServer/Main main. It uses Cache, Table, Wire and Sweep too, since it has
--   copies of that code.
--   select-server.c: SelectServer has process_client_data and the event_loop, over Table and Sweep,
--   SelectServer/Main its create_listen_socket and main, and Sockets what add_client and
--   remove_client do to descriptors.
--   tcp-time-server.c: TimeServer has serve_connection, create_listen_socket and main, as the list
--   of what is done to sockets.
-- Lines is the search for newlines that the event-based ones have.
--
-- The functions are explicit state passing: M in World.antt returns a value or `waiting`, the state
-- of a call that the environment has not answered. What the environment decides is an argument: the
-- file system is the record Files, the results of write are a list in World, and an event loop runs
-- over rounds, each of which has the signals, the connections and the events of the sockets of one
-- iteration. The array of clients and the cache are lists of their used slots, and a buffer is the
-- list of its bytes. A malloc'd block is its address; World lists the blocks allocated and freed.
-- The loops over the lines of a buffer have fuel of one more than the bytes of the buffer, and each
-- line takes at least its newline away, so the fuel does not run out.
--
-- The counters are in exersises/concurrency/locked-data-structures/2: SloppyCounter is
-- sloppy_counter.c, with an update as one step and a schedule of updates, which SloppyCounter/Ints
-- relates to the effect on counts without a bound (SloppyCounter/Exact); SloppyCounter/Cores is
-- cpu_based/sloppy_counter_cpu_based.c, where threads share the local count of a core, with every
-- statement of an update and its locks as a step of its own (also for sloppy_counter.c, as the case
-- of a local count for each thread), and Cores/Atomic, Cores/Refinement and Cores/Schedule relate
-- the two; SloppyCounter/OnlyGlobal is cloppy_counter_only_global_lock.c. LockedCounter is
-- exersises/concurrency/locked-data-structures/1/timer.c, a counter under a mutex, and RacyCounter
-- exersises/concurrency/uncontrolled-scheduling/t1.c, one without; in both a read and a write are
-- two steps. The programs with semaphores are in exersises/concurrency/semaphores/exercise:
-- ReaderWriter is reader-writer.c (ReaderWriter/Threads its threads), ReaderWriter/NoStarve
-- reader-writer-nostarve.c, Barrier barrier.c (Barrier/Children its threads) and NsMutex
-- mutex-nostarve.c; Zemaphore is
-- exersises/concurrency/semaphores/how-to-implement-semaphores/zemaphore.h: step relations over any
-- number of threads. Rendezvous is rendezvous.c, with its three threads. Semaphore is the interface
-- between a semaphore and the programs that use it, where a thread may wake up without a reason but
-- nobody's progress may depend on it; Zemaphore/Instance fills it, and ForkJoin is zemaphore.c and
-- fork-join.c over any semaphore that does. VectorAdd is exersises/concurrency/concurrency-bugs,
-- the threads of main-common.c with vector_add of vector-deadlock.c, vector-global-order.c,
-- vector-avoid-hold-and-wait.c and vector-try-wait.c: a thread is the list of what it still has to
-- do with locks and vectors, and any thread makes the next step. VectorAdd/NoLock is
-- vector-nolock.c under the same threads, where the read of a value and the atomic addition are a
-- step each. Spin is exersises/vritualization/swaping/mem.c, and PageTouch
-- exersises/vritualization/tlb/exersies/2/tlb.c: an access outside of the array, or an int that
-- overflows, is the result `none`. A number of type int is a natural number. Where the program can
-- exceed the range, VectorAdd, LockedCounter and ReaderWriter write out the wrap-around, as the
-- machine does it; in SloppyCounter, RacyCounter, Spin and PageTouch an addition that exceeds the
-- greatest int is undefined, as in the C standard (Prelude/Ints): the result `none`, or no step,
-- and what is shown of a result has the bound that excludes it.
--
-- Not modelled: the set-up of sockets and signals beyond whether it succeeds, the arguments of the
-- programs, the text that goes to the terminal, the clock, the bits of an fd_set, the closing of
-- sockets in the event loops of file-server.c and aio-file-server.c, the workers of the programs
-- that try out the mutex without starvation and the reader-writer lock without starvation, and the
-- files named main.c, which print a line.
pub mod Prelude
pub mod Cache
pub mod Wire
pub mod World
pub mod Sockets
pub mod AioServer
pub mod SelectServer
pub mod SloppyCounter
pub mod TimeServer
pub mod RacyCounter
pub mod LockedCounter
pub mod Spin
pub mod PageTouch
pub mod ReaderWriter
pub mod Barrier
pub mod NsMutex
pub mod Semaphore
pub mod Zemaphore
pub mod ForkJoin
pub mod Rendezvous
pub mod VectorAdd
pub mod Sweep
pub mod FileServer
pub mod Lines
pub mod Table
pub mod Tests
