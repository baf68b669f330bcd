-- ===== src/Lib.antt =====
-- A verification of Xpipe, a server that takes requests over TCP.
--
-- The program (src/) reads a configuration file, sets up its modules and then serves requests.
-- Every part takes its memory from pools; the parser of the configuration keeps words in dynamic
-- arrays; the server hands the bytes that a connection receives to the request parser.
--
-- Which file models which part of the repository:
-- - Base: what all parts share. Numbers are natural numbers; a pointer is its address, and a C
--   string the list of its bytes. Base.Words has the sizes of machine words.
-- - Heap: `malloc` and `free` of the C library. What `malloc` answers is given, as a list.
-- - MemPool (src/mem_pool.c, src/mem_pool.h): one definition for each function and loop, under its
--   name. A pool's chunks are a list in the order of their `next` pointers. The comparison of
--   `pmalloc` wraps at 64 bits; `total` and `fail` are counted without a bound, since `total` is
--   the size of memory that is there. `pmalloc` calls itself once for the header of a large block,
--   so two calls are enough: MemPool.Alloc and MemPool.LargeBlocks prove that they return.
--   MemPool.Extents says which addresses a pool covers and has in use, MemPool.Release what
--   creating, clearing and destroying does, MemPool.Overrun where a chunk is too small.
-- - Allocator: what the clients of a pool use of it, as a record of operations and laws, and that
--   pools provide it.
-- - DynamicArray (src/dynamic_array.c, src/dynamic_array.h): over any such allocator, and over a
--   memory of bytes that `memcpy` changes. DynamicArray.Push and DynamicArray.Create have the
--   theorems.
-- - Xstring (src/xstring.c, src/xstring.h): the character classes, tests and names, and `atoi` and
--   `strcmp` of the C library.
-- - Memory: bytes by address, and the C string at an address, looked for over 2 ^ 64 bytes, the
--   whole address space.
-- - Protocol (src/net/protocol.c, src/net/protocol.h): the request parser. `Scan` has the record,
--   the locals and the memory, `step_in` is the `switch`, `run` the loop, `finish` what follows.
-- - Conf (src/conf_file.c, with the tables, `create_conf` and `set` functions of src/xpipe.c and
--   src/net/network.c): Conf.Settings has the data, Conf.Commands the commands, Conf.Lookup the
--   tables, Conf.Parser the state machine, Conf.Start the parser as a whole. `Parser` has its
--   locals. A write past `key` and a step through a pointer that is not set are the result `bad`.
--   What `open` and `read` give is a parameter.
-- - Connection (src/net/tcp_server.h, src/net/net_event.h): the data of connections. An `int` of
--   event bits is a record of two Booleans; a connection has its address, which epoll is given
--   as the pointer to report.
-- - NetEvent (src/net/net_event.c, src/net/net_epoll.c): adding and deleting events, over an epoll
--   that is given by its operations and the laws of its manual; NetEvent.Dispatch the body of
--   `process_events`, over what the handlers do.
-- - TcpServer (src/net/tcp_server.c): sending, on the answers of `write`; TcpServer.Process the
--   receiving and processing of a request, with DEBUG off; TcpServer.ConnectionPool the slots and
--   their links. A call that waits for more answers than are given is `none`. TcpServer.Accept has
--   `tcp_server_accept` over a `Table`, the slots of all connections, and over `Sockets`, what the
--   system keeps of descriptors; only finitely many signals interrupt `accept`, and one turn more
--   than there are signals to come is enough for its loop. TcpServer.Setup has `tcp_server_init`.
-- - EventLoop (`epoll_polling` of src/net/net_epoll.c, `process_events` of src/net/net_event.c): a
--   round over the slots that the system reports. The list of active connections uses the same
--   `next` as the pool, as in the code. The number of reports is enough fuel: EventLoop.Walk proves
--   it. EventLoop.Reports says what epoll reports: descriptors that are watched, with their
--   pointers. EventLoop.Clients puts in the handlers of TcpServer.Process and TcpServer.
--   EventLoop.Handled and what follows it is about handlers that are NULL.
-- - Network (src/net/network.c, `epoll_build` and `epoll_destroy` of src/net/net_epoll.c,
--   `net_event_init` of src/net/net_event.c): the start of the server; Network.Serving the server
--   from its start on, round by round.
-- - FileAccess (src/xfile.c, src/xfile.h): reading and writing, on what the system answers.
-- - LogWriter (src/logger.c): the line that `log_core_writer` builds, of a time and a message that
--   are given as they were formatted; LogWriter.Levels the functions that call it, and which
--   messages each writes.
-- - Times (src/times.c): the time and its text. Xstring.Decimal has "%d" of `sprintf`.
-- - Startup (src/xpipe.c, src/mod_manager.c): the default logger, and what each module is given.
--   Startup.Daemon has `process_daemon`, on what `fork`, `open` and `write` answer.
-- - MainProgram (`main` of src/xpipe.c): the stages in their order, each on what the one before
--   leaves, up to the loop over the modules. `Boot` is what the system gives on the way.
--   MainProgram.Loop has `system_modules_working` and the rest of `main`, over the turns of the loop
--   that are given; it is `waiting` where they end before a SIGTERM.
-- - Tests: runs on concrete inputs.
--
-- Not modelled: at which places the program writes to its log; the build with USE_BACKTRACE; the
-- text of a client's address; `set_nonblock` and `set_nodelay`, which are calls of the system; the
-- headers and the archive of leveldb, which the program does not call yet; the tests under XTest.
pub mod Base
pub mod Heap
pub mod MemPool
pub mod Xstring
pub mod Memory
pub mod Protocol
pub mod Allocator
pub mod DynamicArray
pub mod Conf
pub mod Connection
pub mod NetEvent
pub mod TcpServer
pub mod FileAccess
pub mod LogWriter
pub mod Startup
pub mod Tests
pub mod EventLoop
pub mod Network
pub mod Times
pub mod MainProgram
