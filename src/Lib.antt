-- ===== src/Lib.antt =====
-- A model of the server of local-mark and its correctness. The program is a small HTTP server: it
-- accepts connections, limits them per address, hands each to a pool of threads, and answers
-- requests from files embedded in the binary and from a cache of bookmark databases. The paths below
-- are from the root of the repository.
--
-- Hash: the hashes of src/fnv1a.h and of src/ratelimit.c, on 32 and 64 bits with the wrap-around.
-- Probe: the search of consecutive slots that the open-addressing tables share.
-- RateLimit: src/ratelimit.c. The record RateLimit is the struct; ratelimit_accept is the
--   maintenance (sweep_if_due, grow_if_loaded) and then accept_probe; ratelimit_leave the other
--   call. The clock and the success of an allocation are arguments. An entry that strcmp would read
--   as NULL is an outcome of its own. The children prove: Conns counts connections, Slot one slot,
--   Grow and Maintain the table, Accept and Refusal the calls.
-- ThreadPool: src/thread_pool.c. A critical section between two waits is one function; Run is the
--   relation of their interleavings, with what was accepted, taken and dropped. In Wake and Close a
--   wait ends by a signal only: Wake is the pool before thread_pool_destroy, Close what the
--   broadcasts do.
-- Vfs: src/vfs_hash.c. The table of 64 slots; the loops have the slot count as fuel, as in the code.
-- Auth: src/auth.c, the Base64 decoder and the check. The fuel of the decoder is the length of the
--   source; the proof that it is enough is part of Bounds.
-- Status, Mime: src/error.c and src/mime.c, the tables and their look-ups.
-- Response: src/header_cache.c and src/response.c. A Response is the arguments of one call of
--   response_send; Sent is what goes to the transport.
-- Http: src/http.h and src/http.c. Read takes segments from the socket, Url decodes, Line and Header
--   parse one line, Parse the whole. A char array is what it reads as, up to its NUL. The fuel of
--   read_headers is the buffer size, since each read brings a byte.
-- File: src/file.c. file_serve gives the Response that the code sends.
-- Bookmarks: src/bookmark_cache.c. What fopen, fread and stat answer is the record Files, with the
--   stat behind a first load apart; the lock makes each of the two phases of a request one step.
--   Shared lets other callers, and changes of the files, come between the two; Origin says where the
--   data of an entry is from.
-- DbMeta: src/databases_meta.c. What stat, realpath, getpwuid and getgrgid answer is the record Os.
-- Api: src/api.c, the routes, over Bookmarks and DbMeta.
-- Server: src/server.c, the loop of one connection over Http, Auth, Api and File. Its fuel is the
--   number of bytes that the socket still delivers and one. Listen is the accept loop, a round at a
--   time, and the listener; System is the whole server as a relation of steps: a round of the accept
--   loop, a critical section of the pool, the end of a job, the shutdown and the joins, in any
--   order. What System needs of the limiter is in Counted, of its steps in Balance and Steps;
--   Reached speaks of the states it reaches. A wait on a condition may end without a signal there;
--   signals are in ThreadPool. Setup is the set-up of server_run and its releases. A job is a
--   number, and a function of it gives the peer; the socket of a job is not part of System.
-- Transport: src/transport.c, on plain and TLS sockets. What the kernel answers to read and write is
--   a list of answers; a call without one has not returned. The TLS library is a record of functions
--   over its context; Feed states what it relies on of tls_write. The handshake has the 20 rounds of
--   the code, the write loop as many as there are bytes, since a round takes one at least. Http
--   reads from a list of segments; Http/Socket relates that to the plain transport.
-- Log: src/log.c and src/log.h, the level filter, the labels and the streams.
-- Main: src/main.c, the options and their checks. argp is taken as documented: options first, then
--   the files, then the end; argp_error does not return.
-- Prelude: native numbers, lists and C strings; signed numbers for long.
--
-- Not modelled: the TLS library, argp, the signal handlers, the fork of a browser, log messages and
--   their time stamps, what frees memory only, and the browser front end. In System a transport that
--   fails is one answer of the environment, and the bookmark cache and the metadata are not part of
--   the state. Integers that the code keeps far below their bounds (lengths, indices, counts) are
--   natural numbers; tasks of the pool are numbers that stand for function pointers and their
--   arguments.
pub mod Prelude
pub mod Hash
pub mod Probe
pub mod Log
pub mod Main
pub mod RateLimit
pub mod ThreadPool
pub mod Transport
pub mod Vfs
pub mod Auth
pub mod Status
pub mod Mime
pub mod Response
pub mod Http
pub mod File
pub mod Bookmarks
pub mod DbMeta
pub mod Api
pub mod Server
