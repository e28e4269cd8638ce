-- ===== src/Lib.antt =====
-- redis-pool, a client library that keeps connections to several redis servers and places keys on them
-- by consistent hashing.
--
-- The synchronous half. `DbBase` (redis-pool/src/DbBase.cpp) reads the hosts with `RedisConf`
-- (RedisConf.cpp), opens one `RedisCtx` (_RedisHeader.cpp) for each, puts four points for it on the ring
-- `HashNodes` (HashNodes.h), and sends a command to the connection that its key gets. The asynchronous
-- half. redis_client.cpp (in the same folder, as all that follow) runs sockets (socket_set.cpp) with a send and a receive cache each (cache.cpp),
-- whose blocks come from a pool (memory_pool.cpp) over an array of slots (element_set.h).
--
-- Base and its children: shared names, Boolean tests, lists, 32-bit words, integers. Printf and Libc: what
--   `snprintf` and `strtol` of the C library do. A string is the list of its bytes.
-- HashNodes: `put_node` and `get_node` are putNode and getNode, `hash` is hash; `std::map` is a sorted
--   list. Its children are about the order of the ring, the owner of a key, and what a new node moves.
-- Hiredis: the client library, a parameter. `Dependable` says that `KEYS` answers with strings, as redis
--   documents it, and that `malloc` has memory for an array of replies; the code tests neither.
--   `CountsContexts` says that only connecting opens a context and only `redisFree` frees one.
--   Hiredis.Script is a server for the tests.
-- RedisCtx: the object and how it connects; RedisCtx.Commands: its public methods, under the names of
--   the source in snake case, and `run`, any sequence of them. A method is a function of the object and
--   the world to an option: `none` is a call of hiredis with a NULL context, which crashes. Each public
--   method holds the object's lock for its whole run, so that a run of any threads is such a sequence.
-- DbBase: `init` and the operations of the pool, and `db_run`, any sequence of them.
-- DbConn: `DbPool`, two pools of which one is read and one is written, and `DbRead` and `DbWrite`.
-- DbDebug: the ring without connections that `DbDebug`, of the same file, builds, and `locate_name`, what
--   its locate prints.
-- RedisConf: `load`, `read_hosts`, `read_passwd` and `parse`. jsoncpp is a parameter.
-- ElementSet: the array is a function of the subscript. `init`, `put_elem` and `get_elem` write it as
--   the code does; Refine describes it by a queue of free slots and a list of used ones.
-- Cache: `append` and `skip`; a block is a list of bytes, and the memory pool an interface, `Pool`.
-- MemoryPool: `alloc` and `release` with all that they call; `malloc` and `free` are a heap that grants
--   or refuses each request as a list says. Its lock is held for the whole of both. MemoryPool.Uninit
--   has a round for each slot and one more in each chain.
-- SocketSet: `send_data`, `send_data_cache`, `recv_data` and `clear_socket`. The kernel is a list of the
--   answers that `write` or `read` gives next, behind which the call would block; the loops that repeat an
--   interrupted call recur on it, so they need no fuel, and each run of the code that ends is one with
--   some list.
-- Util: the hexadecimal dump and its reader `str2hex`, and the number parsers of util.h, which stand on
--   `strtol`; `Libc.Decimal` shows that this reads back what `%d` prints. Util.Address
--   and Util.Dump: `get_ipv4_address`, where the name service is a parameter, and `dump_hex2`.
--
-- Queue: `init`, `enqueue` and `dequeue`, cut at their compare-and-swaps. Queue.Fifo has one thread's
--   calls and a list of packets; Queue.Threads has any number of threads as a step relation, each step
--   one access to a position or one copy of a packet. While a packet is copied in, the bytes of its part
--   of the ring are left open, so that a copy byte by byte is covered; a copy out of the ring is one step.
--   The 64-bit positions are taken not to pass 2 ^ 64, which is a premise of the step that reserves.
--
-- Client: `redis_client_t` (redis_client.cpp). Callers put a key and a command into the queue with
--   `append_cmd`, and `process_request_queue` takes them out and sends each on the socket of its key;
--   Client.Dispatch has `init`, `add` and the event loop. What the system answers (`connect`, `epoll_ctl`,
--   `getsockopt`, `write`, `read`) stands in lists, and `World` keeps which descriptors epoll watches. The
--   fuel of `process_request_queue` is a round for each request and one for the empty queue; the loop in a
--   message has a round for each of its bytes and one more, and a packet has at least eight bytes.
--
-- AsynCtx and AsynDbPool (AsynDbConn.cpp, _RedisHeader.cpp): the asynchronous connections. What hiredis
--   answers next stands in lists, and each call of a thread and each callback is an event, `AsynEvent`;
--   every method holds the object's lock, so that a run of any threads is a sequence of events. The
--   disconnect callback only prints; its event stands for the freeing of the context behind it, and a
--   method that then reads the context faults.
--
-- The loops with a counter recur on the rounds that are left, with the source's bound: the buckets, the
-- virtual nodes, the ports, the replies that are due. Machine integers wrap as the code's types do where
-- the code computes with them; `decimal` has one round more than the number, which is enough.
--
-- Not modelled: the system calls of util.c; logging and printing are left out everywhere.
pub mod AsynCtx
pub mod AsynDbPool
pub mod Base
pub mod Cache
pub mod Client
pub mod DbBase
pub mod DbConn
pub mod DbDebug
pub mod ElementSet
pub mod HashNodes
pub mod Hiredis
pub mod Libc
pub mod MemoryPool
pub mod Printf
pub mod Queue
pub mod RedisConf
pub mod RedisCtx
pub mod SocketSet
pub mod Util
