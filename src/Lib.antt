-- ===== src/Lib.antt =====
-- C-strider: type-aware heap traversal for C.
--
-- A program is linked with code that is generated from its types, and with the runtime of src/. The
-- runtime visits everything that the program's roots reach, calls a service's four functions for
-- each value, and remembers the address that each pointer was mapped to, so that each target is
-- visited once. Structs are not visited at once: a task goes to a queue, and in a parallel traversal
-- NUM_THREADS threads take tasks from as many queues until nothing is left.
--
-- The parts, and the modules that model them:
--   Queue       src/queue.c, src/queue.h. A `queue` is the record Queue, a queue array a function of
--               the index. Each function of the C file is one definition of the same name; `push`
--               and `pop` are what `enqueue` and `dequeue` do under the lock.
--   Pool        src/transform.c: `launch_helpers`, the loop of `processqueue` and every `enqueue`
--               that it competes with, as the relation Step between states of all threads.
--   Traversal   src/transform.c: `visit`, `callxformer`, `transform_array`, `transform_split_array`,
--               the loop of `processqueue` without helper threads, and of src/cstrider_api.c
--               `find_mapping` and `add_mapping`. They pass on a World: memory, type table, mapping
--               table, queues, and what the callbacks own.
--   Types       src/cstrider_api.c: the type table, its queries, `cstrider_type_init`, `mktypptr`,
--               `mktyparr` (Types/Construct) and `mktypfromgenargs` (Types/Generic).
--   Hash        `SuperFastHash` of src/cstrider_api.c, on the bytes of a key.
--   Lifecycle   `init`, `finish`, `transform_init`, `transform_free`, `cstrider_type_free` and the
--               delayed frees, on the record Runtime of all global state.
--   Serial      examples/heap_serialize/serial.c: the serialisation service, as the two instances
--               `serializer` and `deserializer` of Env. A file is the list of its bytes. Serial/Chain
--               is about both of them together, through `visit`, and Serial/Union about
--               examples/figure10/prog_specific.c, the same services with a callback of the program;
--               Serial/Checkpoint has checkpoint and do_deserialize of heap_serialize/main.c.
--   Update      examples/redis-2.0.2/update.c: the service that moves a heap to new types.
--   Profile     examples/redis-2.0.2/profile.c, which counts the types that are met, with the
--               callbacks of perfaction.c there; logprinter.c, which prints its file
--               (Profile/Printer); profile_tolog.c (Profile/ToLog); and Counters,
--               examples/heap_profile/profile.c.
--   Redis       examples/redis-2.0.2/perfaction.assert.c: how Redis objects are written and read, and
--               the callbacks that choose between the services (Redis/Dispatch).
--   Rows        the row locks that `visit` holds around a pointer, `transform_map_wrlock` and
--               `transform_map_unlock`, as a relation Step between states of all threads.
--   Shares      FREE_ALL_MALLOCED_ENTRIES of contrib/uthash/uthash_nxform.h, as the sequence of what it
--               frees and of its reads through the first entry of the table.
--   Roots       `populate_visit_all`, `visit_all`, `register_root` and `deregister_root`.
--   Symbols     the registered variables of src/cstrider_api.c, by name and by address.
--   Table       the hash tables of contrib/uthash as their users see them.
--   Outcome     results, faults and exhausted fuel. Prelude: names and tests that all modules share.
--   Tests       the definitions run on concrete data.
--
-- The code that is generated for a program is the record Generated and the function run_generated
-- of the record Env, in which a service's callbacks stand too; these get `visit` as an argument, as
-- they call it back.
--
-- Integers: an `int` that is counted up and down is its bit pattern below 2^32, `typ` and addresses
-- are numbers, -1 as a `typ` is 2^64 - 1. The result of `get_array_len` is taken modulo 2^32, and
-- SuperFastHash wraps in each operation.
--
-- Fuel: `visit` calls itself, directly or through a callback, and follows pointers; its fuel bounds
-- how deep these calls are nested, and any fuel above the rank of a type is enough
-- (Traversal.Total says what a rank is). `mktypfromgenargs` has fuel for the chain of target types,
-- and the loop of `processqueue` for the number of tasks. The loop of logprinter.c has fuel for one
-- round for each record and two more.
--
-- Locks: `busy` says how many calls of pthread_mutex_trylock find a lock taken. In Pool a call that
-- holds a queue's lock is one step. In Traversal `visit` is modelled as one thread sees it; in Rows a
-- thread that waits for a row lock takes no step, and a callback may visit further pointers; to lock a
-- row that the thread itself has already may return EDEADLK, which the code ignores.
--
-- Memory that `malloc` returns has in it whatever is left over there: Serial/Chain says what that must
-- not be (LeftOver) for a chain to be read, where a comment in serial.c takes it to be clear.
--
-- Not modelled: the bucket layout of contrib/uthash, but for the frees; the programs under examples,
-- and of their callbacks those that do nothing; the generator under tools.
pub mod Prelude
pub mod Queue
pub mod Pool
pub mod Hash
pub mod Outcome
pub mod Table
pub mod Types
pub mod Traversal
pub mod Roots
pub mod Symbols
pub mod Lifecycle
pub mod Profile
pub mod Update
pub mod Counters
pub mod Rows
pub mod Shares
pub mod Redis
pub mod Serial
mod Tests
