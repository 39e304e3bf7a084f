-- ===== src/Lib.antt =====
-- Verification of footprints-ev, a server for vehicle (OBD) messages.
--
-- Clients send a message as a string of hexadecimal digits between the markers BB and EE. The event loop
-- (main-ev.c) reads it into a buffer `OBD_t` of a memory pool (FULMemoryPool/MemoryPool.h) and puts the
-- buffer in front of the queue `obd_mq` (OBD_mq.h). A second thread takes buffers from the back of
-- the queue and gives each to the thread pool (threadpool/threadpool.c), whose workers unescape and
-- decode it (OBD_struct.h, string_ops.h) and give the buffer back to the memory pool.
--
-- Files, and what they model:
--   Base           Boolean tests on numbers, lists over the native numbers, lists without repetition
--   CString        strlen, strstr, strcpy, strcat, strcmp and strncmp on the bytes of an object, for what string.h
--                  documents; CString/Text on texts that a NUL ends
--   Hex            string_ops.h: asc2hex, str2hex, check_source; have_escope is in Obd, Obd/Plain
--   Obd            OBD_struct.h: OBD_t, OBD_get_cmd, OBD_check_sum, OBD_decode, OBD_decode1 and
--                  OBD_filter_escape_and_transfer_to_hex (filter_escape; its loop is convert_loop)
--   Mq             OBD_mq.h: list_t, mq_t, and each function under its own name. Mq/Threads has mq_put and mq_get
--                  as programs of single accesses (put_body, get_body), which any number of threads run
--   Pool           FULMemoryPool/MemoryPool.h and .c: Malloc, Free, CreateMemoryPool (create),
--                  DestroyMemoryPool (destroy); Pool/Race has Free as its two assignments
--   ThreadPool     threadpool/threadpool.c: threadpool_create, threadpool_add, threadpool_thread
--                  (thread_round is one iteration), threadpool_destroy (destroy_begin up to the joins,
--                  destroy_end from there), threadpool_free
--   Wire           OBD_structs_new.h: each structure as the list of its members, under its name without _t;
--                  OBD_cmd_id.h: both enumerations (Wire/Ids); Wire/Fields has SET_FIELD
--   Server         main-ev.c: the globals as a record. Server/Connections has free_libev and accept_func_cb,
--                  Server/Messages read_func_cb with OBD_init and OBD_release of OBD_struct.h,
--                  Server/Tasks thread_func_cb (dispatch is one iteration) and OBD_decode_thread
--   Server/System  the event loop, the dispatcher and the workers together: an event is a callback with
--                  what its calls return, a round of the dispatcher, or a step of one worker;
--                  Server/System/Traffic is the specification, which knows only messages, and
--                  Server/System/Observe reads off what each step did to a message
--   Server/Fine    the same in finer steps: read_func_cb up to OBD_init and behind it (finish_read), a round of
--                  the dispatcher up to mq_get (poll) and behind it; Fine/Split puts them together again
--   Server/Main    main of main-ev.c: set_up to ev_run, tear_down from there to the end. At the joins a worker
--                  ends the task it is at, one worker after the other (Main/Joins); the mutex of the
--                  queue is held meanwhile, which a task does not look at (Main/Locked).
--                  Main/Ends puts set_up, a run of System, ev_signal_cb and tear_down together
--   CProject       FULMemoryPool/CProjectDfn.c and .h: Paths, Memory (counted malloc and free), Handles
--                  (closed once), Numbers; RandomText has GenerateRandStr of MemoryPoolTester.h
--   Earlier        the programs in front of main-ev.c: Network (OBD_network.h), Client (client.c),
--                  Driver (main.c), Parts (OBD_server.h), Loop (the loop at the end of
--                  main.c, and main of client.c)
--   MysqlPool      mysqlpool/mysqlpool.c, over the database library as a record of operations
--
-- State is passed explicitly. A pointer is a number; the queue's heap maps a cell to its two links, the
-- pool's heap maps a block to its size and its link. A read or write outside an object is `fault`, a
-- call that finds a lock held that nobody will give back is `blocked`. The two pools of the server are
-- apart. Bytes are numbers below 256, with the wrap-around of u8_t and u32_t written out.
--
-- Bounds and fuel: a buffer has 256 bytes (BUF_SIZE). The loop of
-- OBD_filter_escape_and_transfer_to_hex runs on fuel: 128 rounds of two characters are enough for every
-- length but 255. The loop of OBD_check_sum needs one round, since its bound is 0. The loop of
-- DestroyMemoryPool needs a round for each free block and one more. The dispatcher needs one round to end.
--
-- Threads: a critical section of the thread pool is one step, and ThreadPool/World takes the steps
-- of workers and client in every order, up to the first threadpool_destroy; World/Again adds the later
-- calls of it. The pthread calls succeed there; ThreadPool itself has their
-- failures as parameters. In Mq/Threads a
-- load or a store of one thread is one step; elsewhere a call of the queue is one step.
--
-- Parameters: what the system's malloc, recv, accept and the pthread calls return. libev's calls are
-- entries of a log. The database library and its exceptions are a record of operations, with their
-- documented behaviour as named hypotheses.
--
-- Not modelled: libev, a copy of another library; mq_release, which destroys a mutex and is not called; ev_signal_cb of
-- main.c; the walks over a list that OBD_mq.h has as macros, which nothing uses; one-line wrappers of
-- system calls in CProjectDfn.h; and messages printed for the operator. Inside Malloc and Free, which take no lock
-- although the event loop and the workers share a pool, Server does not interleave: Pool/Race cuts Free in two
-- for this reason.
pub mod Base
pub mod Mq
pub mod CString
pub mod Hex
pub mod Obd
pub mod Pool
pub mod ThreadPool
pub mod Wire
pub mod MysqlPool
pub mod Server
pub mod CProject
pub mod Earlier
