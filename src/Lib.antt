-- ===== src/Lib.antt =====
-- nf_server is a C++ network server library. This development models its data structures, its two
-- reactors and its socket I/O, and proves what they do.
--
-- The parts and their files (paths from the root of the repository):
-- - commonn/queue.h, commonn/queue.cpp: RingQueue. `queue_t` is the record Queue, and each function of the
--   source is one of the same name that takes the queue and returns the new one beside its return code.
--   RingQueue/Fifo is the list that it stands for, RingQueue/Inv, Items and Refine relate the two, and
--   RingQueue/Runs is about whole sequences of calls.
-- - commonn/memCache.h, commonn/memCache.cpp: MemCache. A Pool holds the heads of the 16 free lists and the
--   links that memory holds; `malloc` is an argument. MemCache/Sizes is about ROUND_UP and FREELIST_INDEX,
--   Chains about lists in memory, FreeLists about the abstract view (a list of blocks for each index),
--   Blocks about `allocate` and `deallocate`, Init about `init`.
-- - Buffer.h, Buffer.cpp and `move_forward` of net.cpp: Buffer. The blocks come from MemCache's `allocate`,
--   as arguments, in sizes that MemCache's `round_up` gives. Buffer/Inv has the invariant and the unhandled
--   bytes, Append, Consume and Copy the operations.
-- - NfUnit/eventqueue.h, NfUnit/eventqueue.cpp: EventQueue, the doubly linked EQueue (and ELQueue, which
--   runs the same operations under a mutex). EventQueue/Links is about linked segments, Push, Pop and Erase
--   about the operations, Block about `push` and `pop` of BlockEQueue in any interleaving. EventQueue/Wait is
--   BlockEQueue with its MCondition of commonn/lock.h: the threads that sleep and are woken. Wait/Counts
--   counts them, Taker is about those that take, Adder and Progress about those that add, Missed about the
--   signal that is not sent, Order about what goes in and comes out; EventQueue/Drain is the destructor.
-- - reactor.h, reactor.cpp, the flags of util.h: Reactor. Events and slots are maps; Reactor/Slots has the
--   claims by EV_ACTIVE, Epoll the registration with epoll, Registry the addition and deletion of events,
--   Dispatch the loop over the results of `epoll_wait`, with Dispatch/Hangup on hang-ups and Dispatch/Tasks
--   on what goes to the worker threads.
-- - interface/icore.cpp, interface/ievent.h, NfUnit/syncReactor.cpp, `post` and `extfun` of
--   NfUnit/extreactor.cpp: SyncReactor, the way of an event between `post`, epoll, the
--   queue of the EXTReactor and its callback; SyncReactor/Life has the set-up and the end of both reactors,
--   Cancel `cancel`, Accept the dispatch of events that accept connections, Workers the threads of an
--   EXTReactor, with Workers/Moves on one step of a thread, Stop and Stuck on how they end and do not end.
-- - commonn/ThreadManager.h, commonn/ThreadManager.cpp: ThreadManager, which starts those threads.
-- - commonn/singleton.h: Singleton, `instance` and `destroy` in any number of threads. Singleton/Once is
--   about the object, Same about what is returned, Again about what follows a `destroy`.
-- - net.cpp: Net. Net/Transfer has `readn` and `sendn`, Net/Rio the buffered reader (Net/Rio/Count its
--   `rio_readn`), Net/Line `find_line`, Net/Timed the calls that wait a number of milliseconds and Net/Timed/Restore and Send what they leave of
--   the socket, Net/Setup the flags of a descriptor, listening and connecting, Net/Epoll the wrappers of epoll
--   calls.
-- - NfUnit/baseEvent.h, NfUnit/baseEvent.cpp: SockEvent, the registrations of an event on a socket.
--   NfUnit/lineEvent.h, NfUnit/lineEvent.cpp: LineEvent, whose callbacks use Net's `readn` and `sendn` and
--   two of Buffer's buffers; LineEvent/Read and LineEvent/Write are about them.
-- - commonn/ThreadPool.h, commonn/ThreadPool.cpp: ThreadPool. ThreadPool/Progress is about the steps of one
--   worker's thread, Order about AddTask and what a step of the pool is for a worker, Start about `init`
--   and all that happens to a pool after it.
-- - interface/iref.h and the counts of EventBase: SmartPtr. SmartPtr/Counts relates counts and handles,
--   Safety is about the operations, Uses about any sequence of them.
-- - commonn/configParser.h, commonn/configParser.cpp: Config. Config/Tables is about the maps, Config/Print
--   has a printer for the format and what the parser makes of its output.
-- - commonn/timer.h, commonn/timer.cpp: Timer. Timer/Order is about the order of the timers, Timer/Due about
--   those that are due.
-- - nf_server.h, nf_server.cpp: Server, the settings from a Section of Config, the listening socket and
--   `run`; Server/Key has the names of the settings, Server/Load is about a file of settings that Config
--   reads, Server/Fields has the constructors and the calls that set one field.
-- - commonn/asynLog.h, commonn/asynLog.cpp: AsynLog. AsynLog/Lines is about the line that is built,
--   AsynLog/Stop about `stop`. AsynLog/Steps has `init` and the steps of all threads, Order and Early are
--   about what they lead to.
-- Prelude holds the shared names, lists, maps and integers; Examples applies the theorems to concrete inputs.
--
-- Numbers are natural numbers; pointers and events are numbers with 0 for NULL, and memory is a map from
-- them. `size_t` arithmetic of MemCache wraps at 2^64, an `int` of Buffer that gets
-- too large is a failure, the other counts are taken below the width of their
-- type. An out-of-range access, a use of NULL or a failed assertion is a value of the result. An operation
-- that the code runs under one mutex is one step. Loops are structural, with the rounds left or the list
-- that they run over; those around system calls run over a script of what the calls return.
-- `ext_event` takes fuel, since `extEvent` and `post` call each other, and one unit is enough for it; the
-- loop that empties the queue of an EXTReactor takes as many rounds as there are events.
--
-- The threads of ThreadPool, BlockEQueue, EXTReactor, Singleton and AsynLog are step relations or functions
-- for one step of a thread; a thread reads what the others wrote before, in one order for all.
--
-- Parameters, since the source has no code for them: the answers of `malloc`, `epoll_ctl`, `epoll_wait`,
-- `read`, `write` and the other calls of the system, the clock, `atoi`, the value of TCP_NODELAY, the
-- callbacks of events, lines and timers, `Event::excute`.
--
-- Not modelled: a wait with a time limit, which no code asks for; an EXTReactor that was given no
-- queue, whose `assert`s fail; what others post while several
-- threads of an EXTReactor run; `rio_init` and the address
-- conversions in net.cpp, and the other classes of commonn/lock.h, which only wrap calls of
-- the system; the text of log messages everywhere, since it does not touch the state.
pub mod AsynLog
pub mod Buffer
pub mod Config
pub mod EventQueue
pub mod Examples
pub mod LineEvent
pub mod MemCache
pub mod Net
pub mod Prelude
pub mod Reactor
pub mod RingQueue
pub mod Server
pub mod Singleton
pub mod SmartPtr
pub mod SockEvent
pub mod SyncReactor
pub mod ThreadManager
pub mod ThreadPool
pub mod Timer
