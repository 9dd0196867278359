-- ===== src/Lib.antt =====
-- OpenFS presents many storage backends as one file system. A path goes to the mount that serves it
-- (Router), whose backend may be wrapped in a cache and a sync engine; the sync engine buffers
-- writes and logs them, and what is to reach a remote backend, in a write-ahead log with an outbox
-- (Wal). A path trie (PathTrie) keeps the known paths for prefix questions, and errors are of two
-- types with a conversion between them (Error).
--
-- The modules, with the code of which each is a model:
--   PathTrie   crates/openfs-core/src/path_trie.rs. `PathTrie` is the trie and its count of paths;
--              insert, remove, remove_subtree, contains, has_prefix, list_children and all_paths
--              are the methods. The hash map of a node's children is an association list.
--   Error      crates/openfs-core/src/error.rs. BackendError, VfsError, is_transient and From.
--   Router     crates/openfs-remote/src/router.rs. Generic in the type of a mount's backend.
--   Wal        crates/openfs-remote/src/wal.rs. Wal.Log is the write-ahead log, Wal.Outbox the
--              durable outbox, Wal.Profiles the sync profiles, and Wal.Run any sequence of calls.
--   Sync       crates/openfs-remote/src/sync.rs. Sync.Queue is what callers queue, Sync.Flush the flush
--              of the buffer (`flush_fn`, the sleep and the clock are a record World), Sync.Steps the
--              same flush in steps between which callers may queue, Sync.Recover the replay of the
--              log and the drain task of the outbox (`apply_fn` and the clocks are a record Remote).
--   Inode      crates/openfs-fuse/src/inode.rs. The table of the four locks' contents; Inode.Steps is
--              the relation of the tables before and after one operation.
--   Listing    the listing of a directory, which memory.rs and oracle.rs write in the same words.
--   Memory     crates/openfs-remote/src/backends/memory.rs. Memory.Swap is about its conditional
--              writes.
--   Oracle     crates/openfs-sim/src/oracle.rs, with the operations of ops.rs beside it. Oracle.Harness
--              compares an outcome with what is expected, Oracle.Execute executes an operation on a
--              mount, a memory backend behind Cached, as agent.rs makes them (`build_mount`), and
--              Oracle.Simulation is a step (sim.rs); Oracle.Pending says what a step lets pass.
--              Oracle.Shared and Oracle.Races judge two operations that ran at the same time, and
--              Oracle.Agents is what each agent knows of the files. The texts of errors, the
--              pipeline and the vector store are parameters there.
--   Chunker    crates/openfs-local/src/chunkers/fixed.rs, with the configuration in mod.rs beside it
--              and the chunks of ../types.rs. `slice` says where a slice of a text would panic.
--   WorkQueue  crates/openfs-local/src/work_queue.rs, its two tables as lists; WorkQueue.Run is any
--              sequence of calls. WorkQueue.Worker is persistent_worker.rs beside it: its events and
--              its batches, with the indexer and the clock as a record Indexer.
--   IndexState crates/openfs-local/src/index_state.rs: the state, its delta and its reconciliation
--              with the files of a listing.
--   Incremental  crates/openfs-local/src/incremental.rs: a run over listed files and the handling of
--              one change; pipeline, backend and clock are a record Pipeline.
--   Cache      crates/openfs-core/src/cache.rs, without the index of paths and the statistics. The
--              third-party cache that it wraps is a record Moka, with laws MokaLaws.
--   Cached     crates/openfs-remote/src/cached_backend.rs: reading and all changes, over any backend
--              (the record Backend, of crates/openfs-core/src/traits.rs) and any such cache.
--   Vfs        crates/openfs-remote/src/vfs.rs: the dispatch of an operation to the mount of its path,
--              by Router, and a rename across mounts. A mount has a number, what it keeps for itself, and
--              the raw backend of its name, which several mounts may share. Vfs.Replay is the replay of
--              an outbox, on fuel: a round for each attempt left to its rows, one for each row, and one
--              are enough.
--   Config     crates/openfs-config/src/types.rs. Config.Validation is validation.rs beside it, and
--              Config.Defaults defaults.rs; Config.Files is env.rs and migration.rs, and
--              Config.Sizes the sizes (HumanBytes) of types.rs. The regular
--              expressions, the environment and Unicode's lower case are parameters; the text
--              that joins several errors is one as well.
--   Prelude    equality tests, lists, association lists and texts as they are used throughout.
--
-- How the code is modelled. A text is the list of the bytes of its UTF-8 form, which is how the code
-- compares, splits and trims it. A hash map is an association list with the names in some order; no
-- theorem depends on the order. A method that changes its object returns the new object, and beside
-- it the result. The tables of the SQLite database are lists of rows in the order of their ids, and
-- each SQL statement is a function on them. A clock that a method reads is an argument. Numbers are
-- natural numbers: counts and time stamps do not come near the bounds of their machine types, and
-- where the code subtracts, the comparison is written without the subtraction. The functions are
-- structurally recursive, but for three on fuel: the first pass of the chunker has the length of the
-- text, the digits of a number n have n + 1, and the replay of an outbox has any number above that of
-- its rows and the attempts left to them. The theorems show these to be enough.
--
-- Not modelled: failures of the database and of locks, the wording of log messages, the simulation's
-- mounts in write-back mode (`enable_write_back`) and its injected faults, and the parts of the program
-- that are not listed above (the other backends, the FUSE file system, the indexing pipeline, the
-- parsing of configuration files, the command line and the servers).
pub mod Prelude
pub mod PathTrie
pub mod Error
pub mod Router
pub mod Wal
pub mod Listing
pub mod Memory
pub mod Oracle
pub mod Sync
pub mod Chunker
pub mod Cache
pub mod Cached
pub mod Vfs
pub mod WorkQueue
pub mod IndexState
pub mod Incremental
pub mod Inode
pub mod Config
