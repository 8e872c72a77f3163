-- ===== src/Lib.antt =====
-- A model of ShadowFS: the override store of shadowfs-core, the layer that keeps in memory what a
-- mounted file system has changed, the types it is made of, its log and snapshots on disk; and the
-- file locks, the open files and the attribute cache of shadowfs-macos.
--
-- The parts, and the code that each stands for (below shadowfs-core/src):
--   Path                types/path.rs: `ShadowPath`, a path that is kept normalized. Path/Chars and
--                       Path/Buf are what it uses of `str` and `std::path` on Unix.
--   Error               error.rs: `ShadowError` and what is made of an I/O error.
--   Metadata            types/metadata.rs: file metadata and Unix permissions.
--   Entry               override_store/{entry, size}.rs: what is kept for a path, and its size.
--   Memory              override_store/memory.rs: `MemoryTracker` and its guards.
--   Lru                 override_store/lru.rs: `LruTracker` and the choice of victims.
--   Directory           override_store/directory.rs: `DirectoryCache` and `PathTraversal`.
--   Optimization        override_store/optimization.rs: deduplication, the read-through cache, the
--                       prefetcher, the sharded map and the compression threshold.
--   Stats               override_store/stats.rs: the counters.
--   Store               override_store/mod.rs: `OverrideStore`. Its methods are in Store/Access
--                       (reads, configuration), Store/Insertion, Store/Removal (with eviction) and
--                       Store/Tree (directories).
--   Persistence         override_store/persistence.rs: Persistence/Frame and Persistence/Log are the
--                       entries of the write-ahead log and their replay, Persistence/Snapshot the
--                       snapshots, and Persistence/Files what is done to the files.
--   Locks               shadowfs-macos/src/fskit/file_locking.rs: the ranges and locks, Locks/Graph
--                       the search for deadlocks, Locks/Queue the waits and their conditions, and
--                       Locks/Manager the locks of all files.
--   Patterns            override_store/patterns.rs: rules, conditions, globs (Patterns/Glob), rule
--                       sets (Patterns/Rules), transformations (Patterns/Transforms), and templates
--                       and copy-on-write content (Patterns/Content).
--   XattrCache          shadowfs-macos/src/fskit/xattr_cache.rs: the cache of extended attributes, its
--                       writes (XattrCache/Put) and removals (XattrCache/Invalidation).
--   FileOps             shadowfs-macos/src/fskit/file_ops.rs: the handles (FileOps/Handles), the bytes
--                       of files and their copy on the first write (FileOps/Content), reads and
--                       writes (FileOps/Transfer) and calls of the lock manager (FileOps/LockCalls).
--   Crates              the interfaces of `dashmap`, `indexmap`, `lru`, `blake3`, `zstd`, `bincode`,
--                       `crc32fast`, of hashers, of the floating-point numbers and of two
--                       file systems, and values that meet them.
--   Base, Tests         helpers on lists, options and association lists; concrete runs.
--
-- How they interact. A read asks the hot cache and then the main store, and reports to the access
-- tracker and the statistics. An insertion makes room by removals while the memory is under pressure,
-- writes the entry, charges the tracker, and reports to the access tracker and the directory cache. A
-- removal takes a path out of the main store, the hot cache, the access tracker and the directory
-- cache. The directory operations are sequences of reads, insertions and removals. A replay calls the
-- insertions and removals of the store; a restored snapshot is written to its maps directly. The open
-- files keep overrides of their own, and call the lock manager with the path of a handle; closing one
-- releases its locks. The rules and the attribute cache are parts of their own.
--
-- State. A method is a function from the store to its answer and the store after it; a method that
-- may fail answers `Result`, and what it wrote before the error stays written. `OverrideStore` has a
-- field for each field of the struct, and three for what is outside it: the number of the next reading
-- of the clock, the number of the next allocation of an entry, and the atomic access time of each
-- allocation, which all pointers to it share. The record `Env` holds what the store is built from. Of
-- the crates only the laws in their records are used; the order of an iteration over a hash map is
-- not specified. `Optimization/Sharded/AsMap` has the sixteen shards as one such map.
--
-- Numbers. Sizes, counters and times are natural numbers. The atomic counters wrap at 2^64, and the
-- account of the memory tracker has the saturating addition and the wrapping release of the code.
-- Sums of sizes are taken without overflow.
--
-- Threads. The methods of the store run one after the other. The memory tracker is also modelled under
-- any interleaving of its atomic steps, spurious failures of the weak exchange included. The methods of
-- the lock manager are steps as well; `acquire_lock` is three of them: up to its call of `wait_for_lock`,
-- the finding of the condition, whose `Arc` is kept for the whole wait, and what follows the wait. The
-- `Arc` of a condition is a number, and what the conditions say is kept apart from their registration.
--
-- Files. Every call of the file system may fail, and a write that fails may have written a part. A write
-- of `tokio::fs` is still under way when `write_all` answers: `sync_all` waits for it, and an error
-- that it meets is reported by a later write or by `flush`; the code calls neither. What an open file
-- leaves after a crash is not modelled. The paths of the log, of the snapshot and of the temporary file
-- are different from each other.
--
-- Loops. `try_allocate` alone has the number of spurious failures as its fuel: without one, a round is
-- the last. The chain of parents has one round for each component of the path, as each parent has one
-- component less. The replay of a log has one round more than the log has bytes, as each round but the
-- last takes eight bytes at least. The search for cycles has the number of nodes with dependencies and
-- two as the depth of its calls. The loops of the attribute cache may go on for ever: a call has a
-- number of rounds, and answers nothing where they are not enough; more rounds than entries and queued
-- keys change nothing. All other loops are recursions on lists, and `glob_match` is one on
-- the rests of the pattern and of the text.
--
-- Not modelled: callbacks, alerts and reports of the statistics, which only observe the counters;
-- mounting, platforms and the front ends, but for the parts above; the text of error messages.
pub mod Base
pub mod Path
pub mod Error
pub mod Crates
pub mod Directory
pub mod Memory
pub mod Metadata
pub mod Entry
pub mod Stats
pub mod Lru
pub mod Optimization
pub mod Store
pub mod Persistence
pub mod Locks
pub mod Patterns
pub mod XattrCache
pub mod FileOps
pub mod Tests
