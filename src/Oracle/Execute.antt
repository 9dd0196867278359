-- ===== src/Oracle/Execute.antt =====
-- crates/openfs-sim/src/sim.rs: `execute_static` on a mount of an agent, a memory backend behind the cached
-- backend of crates/openfs-remote/src/cached_backend.rs, as crates/openfs-sim/src/agent.rs (`build_agent`) makes it.
-- The mounts are those that are not in write-back mode: listing, the description and the test of a path
-- go to the backend inside then, and there is nothing to flush. Faults are not injected.
pub mod Through
pub mod Direct
use open_fs.Prelude.{
  ℕ, Bool, true, false, ◌+◌, ◌*◌, ◌^◌, ◌||◌, Option, none, some, map, nat_eq, ◌==◌, if◌then◌else◌,
}
use open_fs.Prelude.Text.{Str}
use open_fs.Error.{BackendError, VfsError}
use open_fs.Error
use open_fs.Wal.{Bytes}
use open_fs.Memory
use open_fs.Memory.{MemoryBackend}
use open_fs.Cache
use open_fs.Cache.{Moka, CacheConfig}
use open_fs.Sync.{SyncConfig, default_sync, new, no_sync, write_through, pull_mirror}
use open_fs.Cached
use open_fs.Cached.{Backend, CachedBackend}
use open_fs.Oracle.{
  MountId, work, indexed, shared_read, shared_write, Op, write, append, read, delete, list, stat,
  exists, rename, index_file, search_chroma, flush_write_back,
}
use open_fs.Oracle.Harness.{
  Outcome, read_ok, exists_ok, list_ok, stat_ok, search_ok, flush_ok, error, execute_change,
  change_outcome, classified, classify_backend_error, classify_index_error, index_content,
  from_entry,
}

-- A memory backend at the time `now`.
abbrev pub memory : ℕ → Backend MemoryBackend
memory now = record {
  read = Memory.read;
  read_with_cas_token = Memory.read_with_cas_token;
  write = Memory.write now;
  compare_and_swap = Memory.compare_and_swap now;
  append = Memory.append now;
  delete = Memory.delete;
  exists = λ p b. Error.ok (Memory.exists p b);
  rename = Memory.rename;
}

-- `CacheConfig::default`
abbrev pub default_cache : CacheConfig
default_cache = record {
  max_entries = 1000;
  max_size = 100 * 1024 * 1024;
  ttl = 300 * 10 ^ 9;
  enabled = true;
}

-- `CachedBackend::new`, on an empty cache
abbrev pub new_cached {κ} :
    {M : Type κ}
    → M
    → MemoryBackend
    → CacheConfig
    → SyncConfig
    → Bool
    → CachedBackend MemoryBackend M
new_cached empty b cache sync ro = record {
  inner = b;
  cache = record { config = cache; cache = empty };
  sync = new sync;
  read_only = ro;
}

-- the mount of an agent, where `enable_write_back` is not set
unfoldable pub build_mount {κ} :
    {M : Type κ} → M → ℕ → MountId → MemoryBackend → CachedBackend MemoryBackend M
build_mount empty agent work b =
    new_cached empty b (record default_cache { enabled = false }) default_sync false
build_mount empty agent indexed b =
    let sync =
      if agent == 0 || agent == 2
      then record default_sync { mode = write_through }
      else default_sync in
    new_cached empty b default_cache sync false
build_mount empty agent shared_read b =
    new_cached empty b default_cache (record default_sync { mode = pull_mirror }) true
build_mount empty agent shared_write b =
    new_cached empty b default_cache (record default_sync { mode = write_through }) false

module _ {κ} {M : Type κ} (moka : Moka M) (vfs_text : VfsError → Str)
    (backend_text : BackendError → Str) (pipeline : Str → Bytes → Bool)
    (search : Str → Option Str) where
  -- `execute_static`
  unfoldable pub execute :
      ℕ → Bool → Op → CachedBackend MemoryBackend M → CachedBackend MemoryBackend M × Outcome
  unfolding change_outcome execute_change classify_backend_error Cached.write Cached.append
      Cached.delete Cached.rename Cached.read Cache.contains Memory.list Memory.stat Memory.exists
  execute now ro (write mount path content) t =
      change_outcome vfs_text
        (execute_change ro path (Cached.write (memory now) moka now path content) t)
  execute now ro (append mount path content) t =
      change_outcome vfs_text
        (execute_change ro path (Cached.append (memory now) moka now path content) t)
  execute now ro (delete mount path) t =
      change_outcome vfs_text (execute_change ro path (Cached.delete (memory now) moka now path) t)
  execute now ro (rename mount from to) t =
      change_outcome vfs_text
        (execute_change ro from (Cached.rename (memory now) moka now from to) t)
  execute now ro (read mount path) t =
      let (u, answer) = Cached.read (memory now) moka path t in
      (u, classified (classify_backend_error backend_text) (λ c. read_ok c) answer)
  execute now ro (list mount path) t = (
    t,
    classified (classify_backend_error backend_text) (λ es. list_ok (map from_entry es))
        (Memory.list path t.inner),
  )
  execute now ro (stat mount path) t = (
    t,
    classified (classify_backend_error backend_text) (λ e. stat_ok (from_entry e))
        (Memory.stat path t.inner),
  )
  execute now ro (exists mount path) t =
      (t, exists_ok (Cache.contains moka path t.cache || Memory.exists path t.inner))
  execute now ro (index_file path) t =
      let (u, answer) = Cached.read (memory now) moka path t in
      (u, classified (classify_index_error backend_text) (index_content pipeline path) answer)
  execute now ro (search_chroma query) t =
      (t, elim (search query) [ none ↦ search_ok | some e ↦ error e ])
  execute now ro flush_write_back t = (t, flush_ok)
