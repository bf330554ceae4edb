-- ===== src/Lib.antt =====
-- A verification library for snippets.cc, a collection of C++ components: the containers and smart
-- pointers of null/, the error codes of system/, and the servers, clients and timers of asio/.
--
-- The parts, and where the code is modelled (paths from the repository's root):
--
--   null/lru_cache.h                   LruCache. Nodes has std::list with the addresses of its nodes,
--                                      LruCache the class (make, get, put, and deref for the pointer
--                                      that get returns), Recency the abstract view (pairs, the most
--                                      recent first), Linked and Evict the lemmas on the map and the
--                                      list, Refine, Store, Run, Pointers and RoundTrip the theorems.
--   null/concurrent_lru_cache.h        ConcurrentLruCache: the same code in threads that lock the mutex,
--                                      make their accesses and unlock it; Interleavings.
--   null/spsc_ring_buffer.h            SpscRingBuffer: the methods called by one thread; in Threads the
--                                      loads, stores and cell accesses of push and pop, one at a time,
--                                      of one producer and one consumer; Safety for the interleavings,
--                                      Observers for size, is_full and is_empty between them.
--   null/concurrent_blocking_queue.h   BlockingQueue: each critical section as an attempt that returns
--                                      or waits; in Threads any number of threads that are outside,
--                                      ready, blocked or closing; Counts, Wakeups and Safety.
--   null/shared_ptr.h, weak_ptr.h      SharedPtr. ControlBlock has control_block_base and control_block
--                                      on a heap of blocks, Owner the class shared_ptr, Observer the
--                                      class weak_ptr, Program the calls on variables of both types;
--                                      Counts, OneBlock, Steps, Variables, Handles and
--                                      WeakHandles the lemmas, Safety and
--                                      Lifetime the theorems. In Threads the atomic operations of any
--                                      number of threads on one block; Units and Concurrent for their
--                                      interleavings.
--   null/unique_ptr.h                  UniquePtr: the class, the calls on variables (Program), and the
--                                      counts of pointers (Count, Ownership).
--   system/mylib_error.h               Mylib: enumerations, messages, default_error_condition.
--   system/mylib_classic.cc, _result.cc   Mylib.Foo and Mylib.Selftest.
--   system/test_result.cc              Mylib.Custom.
--   asio/echo/server.cc, session       EchoServer: the handlers with the watchdog; Events has the
--                                      completions; Timeout the mode with a timeout per operation.
--   asio/echo/co_server.cc, session    CoroutineServer: the parts of its coroutines between the yields;
--                                      Agreement with EchoServer, Guard for the deadline; Timeout
--                                      the mode with a timeout per operation.
--   asio/echo/client.cc                EchoClient: the handlers of a session and the counters; Sessions has
--                                      the completions, Counters the counts, Monitor the sessions that main
--                                      makes and the loops of monitor.
--   asio/echo/co_client.cc, session    EchoClient.Coroutine, in direct style; Resume from one yield to the next.
--   asio/echo/co_client.cc, program    ClientProgram: the threads of Shutdown.Client with the sessions that they
--                                      run and the counters that monitor loads, for sessions of both
--                                      clients (Sessions fills the interface). Invariant, Counters and Sizes
--                                      for the counts; Runs; Quiet, Stops, Progress and Returns for the
--                                      end by itself, Threads for the end by a signal; CoClient for the program.
--   asio/proxy/server.cc, session      ProxyServer: the two directions and their watchdogs; Sessions has the
--                                      completions; Connecting, Forwarding, Watchdogs and Symmetry.
--   asio/basic/03, 04, 05              Timers.Captures (03 and 04) and Timers.Strand (05), with Termination.
--   class server of echo and proxy     Asio.Acceptor, for sessions of any kind; EchoServer.Acceptor and
--                                      ProxyServer.Acceptor fill its interface.
--   asio/socket/03, 06, 07             Daytime; Answers for both servers on one io_context, Coroutines for
--                                      03/co.cc.
--   asio/socket/01, 02, 04, 05         Daytime.Blocking; RoundTrip for the client of 01 and the server of 02.
--   debug/trace.cc                     Debug: the handlers, which print and abort; Reports for what is printed.
--   client.cc with what is at the      Conversation: a session of the client, TCP, and any peer with the
--   other end of its connection        operations and laws of an interface. Streams, Received and ProxyReceived
--                                      have lemmas, Echoes what the client reads; Servers and Proxied fill the
--                                      interface with the echo server and with the proxy before a peer,
--                                      Coroutines with co_server.cc; Rounds has conversations that go on.
--   main of client.cc and server.cc    Shutdown: the threads and how they end. Rounds has fair schedules for any
--                                      program of threads; Client and Server are the two programs, each with
--                                      its invariant (Places), its steps (Steps, MainSteps), why some thread
--                                      can go on (Progress) and its end (Returns); Exceptions for those of
--                                      handlers. The main functions of co_client.cc and co_server.cc have
--                                      the same threads. Listening is the class server of co_server.cc beside its
--                                      threads, with what a failed accept costs (Costs).
--   what these share of Boost.Asio     Asio.
--
-- How the models stand for the code. A function that changes an object takes it and gives it back. An
-- Option whose `none` is called a fault is undefined behaviour of the code there (a dangling iterator, an
-- index out of bounds, an access to a deleted block), and `some` is its absence. A loop of compare_exchange_weak takes the number
-- of its spurious failures, and std::terminate of Debug a bound on its calls, of which two are enough. A loop that
-- waits for input takes the list of what it finds, and a program of threads the list of their turns.
--
-- Numbers. The indices of the ring are size_t with its wrap-around written out, and Capacity + 1 is below
-- 2 ^ 64 where a theorem says so. Counts of owners, capacities, times and error values are natural numbers
-- without a bound; a count is at most the number of pointers that exist. The counters of the clients
-- are `int`s, and the number of threads of a server an `unsigned int`, with their wrap-around. Addresses of nodes and of control
-- blocks are not given out twice.
--
-- Threads. The loads and stores of the ring are sequentially consistent single steps: the acquire and
-- release orders are taken to give what they promise about the cells. A critical section of the
-- blocking queue is one step; in the cache the accesses of a call begin and end in two steps, between
-- which an access of another thread is a data race. In the client a test of a loop of
-- monitor is one step with its loads, and so is the part of a session from a completion to the next
-- operation that it starts, with what it does to the counters. The atomic operations on the counts of shared_ptr are single steps too: the acquire and
-- release orders are taken to order the accesses to the object before its deletion.
--
-- Code outside the repository. std::list, std::unordered_map, std::deque and the allocator appear only as
-- what the code uses of them. Boost's comparisons of error codes and its test for failure are parameters,
-- with what Boost documents of them as hypotheses. Boost.Asio is the environment of the servers, clients and timers: it
-- completes the pending operations, in any order and after any time. What TCP and UDP deliver is a
-- condition of the steps of Conversation and a part of the input of Daytime.Blocking.
--
-- Not modelled: the main functions that the table does not name, asio/basic/01 and 02, asio/coro, debug/assert.cc
-- and debug/throw.cc, which are calls of libraries and printing.
pub mod Prelude
pub mod LruCache
pub mod SpscRingBuffer
pub mod BlockingQueue
pub mod SharedPtr
pub mod UniquePtr
pub mod Mylib
pub mod ConcurrentLruCache
pub mod Asio
pub mod EchoServer
pub mod CoroutineServer
pub mod Timers
pub mod Daytime
pub mod ProxyServer
pub mod EchoClient
pub mod Debug
pub mod Conversation
pub mod Shutdown
pub mod ClientProgram
