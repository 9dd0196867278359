-- ===== src/Oracle/Execute/Direct.antt =====
-- A mount of crates/openfs-sim/src/agent.rs whose cache is disabled and empty, as that of the work mount is: it
-- stays so, and every operation on it is one on the backend inside.
use open_fs.Prelude.{ℕ, ◌≡◌, refl, sym, Bool, true, false, Option, none, some, arith, if◌then◌else◌}
use mathlib.Core.Path.{subst}
use open_fs.Prelude.Text.{Str}
use open_fs.Error.{BackendError, VfsError, Result, ok, err}
use open_fs.Wal.{Bytes}
use open_fs.Memory
use open_fs.Memory.{MemoryBackend}
use open_fs.Cache
use open_fs.Cache.{Moka, MokaLaws, LruCache}
use open_fs.Sync.{is_write_back}
use open_fs.Cached
use open_fs.Cached.{CachedBackend, and_then, cached, uncached}
use open_fs.Oracle.{
  work, Op, write, append, read, delete, list, stat, exists, rename, index_file, search_chroma,
  flush_write_back,
}
use open_fs.Oracle.Harness.{execute_direct, execute_change, change_outcome}
use open_fs.Oracle.Execute.{execute, memory, build_mount}
use open_fs.Oracle.Execute.Through.{IsThrough, IsMissed, Agrees, neither, execute-Agrees}

module _ {κ} {M : Type κ} (moka : Moka M) where
  abbrev pub IsDirect : CachedBackend MemoryBackend M → Type 0
  IsDirect t =
      IsThrough t
      × (t.cache.config.enabled ≡ false)
      × ((k : Str) → moka.lookup k t.cache.cache ≡ none)

  -- The work mount of an agent.
  pub IsDirect-work :
      (empty : M) (agent : ℕ) (b : MemoryBackend)
      → ((k : Str) → moka.lookup k empty ≡ none)
      → IsDirect (build_mount empty agent work b)
  unfolding build_mount
  IsDirect-work empty agent b nothing = ((refl, refl), refl, nothing)

  pub IsMissed-IsDirect :
      (op : Op) (t : CachedBackend MemoryBackend M) → IsDirect t → IsMissed moka op t
  unfolding IsMissed
  IsMissed-IsDirect (read mount path) t (through, off, nothing) = nothing path
  IsMissed-IsDirect (exists mount path) t (through, off, nothing) = nothing path
  IsMissed-IsDirect (index_file path) t (through, off, nothing) = nothing path
  IsMissed-IsDirect (write mount path content) t h = tt
  IsMissed-IsDirect (append mount path content) t h = tt
  IsMissed-IsDirect (delete mount path) t h = tt
  IsMissed-IsDirect (rename mount from to) t h = tt
  IsMissed-IsDirect (list mount path) t h = tt
  IsMissed-IsDirect (stat mount path) t h = tt
  IsMissed-IsDirect (search_chroma query) t h = tt
  IsMissed-IsDirect flush_write_back t h = tt

  put-off :
      (path : Str) (content : Bytes) (c : LruCache M)
      → c.config.enabled ≡ false
      → Cache.put moka path content c ≡ c
  unfolding Cache.put
  put-off path content c off = ground (arith, off)

  get-off : (path : Str) (c : LruCache M) → c.config.enabled ≡ false → (Cache.get moka path c).0 ≡ c
  unfolding Cache.get
  get-off path c off = ground (arith, off)

  IsDirect-cached :
      (path : Str) (content : Bytes) (t : CachedBackend MemoryBackend M)
      → IsDirect t
      → IsDirect (cached (memory 0) moka path content t)
  IsDirect-cached path content t (through, off, nothing) =
      subst (λ c. IsDirect (record t { cache = c })) (sym (put-off path content t.cache off))
        (through, off, nothing)

  IsDirect-uncached :
      (path : Str) (t : CachedBackend MemoryBackend M)
      → MokaLaws M moka
      → IsDirect t
      → IsDirect (uncached (memory 0) moka path t)
  unfolding Cache.remove
  IsDirect-uncached path t laws (through, off, nothing) =
      (through, off, λ k. laws.lookup-invalidate_none k path t.cache.cache (nothing k))

  IsDirect-and_then {ℓ} :
      {A : Type ℓ} (now : ℕ) (r : MemoryBackend × Result BackendError A)
      (f : CachedBackend MemoryBackend M → A → CachedBackend MemoryBackend M)
      (t : CachedBackend MemoryBackend M)
      → ((u : CachedBackend MemoryBackend M) (a : A) → IsDirect u → IsDirect (f u a))
      → IsDirect t
      → IsDirect (and_then (memory now) moka r f t).0
  IsDirect-and_then now (b, ok a) f t keeps h = keeps (record t { inner = b }) a h
  IsDirect-and_then now (b, err e) f t keeps h = h

  -- what `append` makes of the cache
  IsDirect-refreshed :
      (path : Str) (hit : Bool) (answer : Result BackendError Bytes)
      (u : CachedBackend MemoryBackend M)
      → MokaLaws M moka
      → IsDirect u
      → IsDirect (
          if hit
          then elim answer [
            | ok content ↦ cached (memory 0) moka path content u
            | err _ ↦ uncached (memory 0) moka path u
          ]
          else u)
  IsDirect-refreshed path true (ok c) u laws h = IsDirect-cached path c u h
  IsDirect-refreshed path true (err e) u laws h = IsDirect-uncached path u laws h
  IsDirect-refreshed path false answer u laws h = h

  IsDirect-read :
      (path : Str) (hit : Option Bytes) (answer : Result BackendError Bytes)
      (u : CachedBackend MemoryBackend M)
      → IsDirect u
      → IsDirect
          (elim hit as (λ _. CachedBackend MemoryBackend M × Result BackendError Bytes) [
            | some content ↦ (u, ok content)
            | none ↦ elim answer [
              | err e ↦ (u, err e)
              | ok content ↦ (cached (memory 0) moka path content u, ok content)
            ]
          ]).0
  IsDirect-read path (some c) answer u h = h
  IsDirect-read path none (err e) u h = h
  IsDirect-read path none (ok c) u h = IsDirect-cached path c u h

  IsDirect-change :
      (vfs_text : VfsError → Str) (ro : Bool) (path : Str)
      (f : CachedBackend MemoryBackend M
        → CachedBackend MemoryBackend M × Result BackendError (Unit {0}))
      (t : CachedBackend MemoryBackend M)
      → IsDirect t
      → IsDirect (f t).0
      → IsDirect (change_outcome vfs_text (execute_change ro path f t)).0
  unfolding change_outcome execute_change
  IsDirect-change vfs_text true path f t h k = h
  IsDirect-change vfs_text false path f t h k = k

  module _ (vfs_text : VfsError → Str) (backend_text : BackendError → Str)
      (pipeline : Str → Bytes → Bool) (search : Str → Option Str) (now : ℕ) (ro : Bool)
      (laws : MokaLaws M moka) where
    IsDirect-found :
        (path : Str) (t : CachedBackend MemoryBackend M)
        → IsDirect t
        → IsDirect (Cached.read (memory now) moka path t).0
    unfolding Cached.read
    IsDirect-found path t h =
        IsDirect-read path (Cache.get moka path t.cache).1 (Memory.read path t.inner)
          (record t { cache = (Cache.get moka path t.cache).0 })
          (subst (λ c. IsDirect (record t { cache = c })) (sym (get-off path t.cache h.1)) h)

    pub IsDirect-execute :
        (op : Op) (t : CachedBackend MemoryBackend M)
        → IsDirect t
        → IsDirect (execute moka vfs_text backend_text pipeline search now ro op t).0
    unfolding execute Cached.write Cached.append Cached.delete Cached.rename
    IsDirect-execute (write mount path content) t h =
        IsDirect-change vfs_text ro path (Cached.write (memory now) moka now path content) t h (
          subst
            (λ (r : CachedBackend MemoryBackend M × Result BackendError (Unit {0})). IsDirect r.0)
            (neither moka t.read_only (is_write_back t.sync.config) _ _ _ h.0.1 h.0.0)
            (IsDirect-and_then now (Memory.write now path content t.inner) _ t
              (λ u a k. IsDirect-cached path content u k) h))
    IsDirect-execute (append mount path content) t h =
        IsDirect-change vfs_text ro path (Cached.append (memory now) moka now path content) t h (
          subst
            (λ (r : CachedBackend MemoryBackend M × Result BackendError (Unit {0})). IsDirect r.0)
            (neither moka t.read_only (is_write_back t.sync.config) _ _ _ h.0.1 h.0.0)
            (IsDirect-and_then now (Memory.append now path content t.inner) _ t
              (λ u a k.
                IsDirect-refreshed path (Cache.contains moka path u.cache)
                  (Memory.read path u.inner) u laws k)
              h))
    IsDirect-execute (delete mount path) t h =
        IsDirect-change vfs_text ro path (Cached.delete (memory now) moka now path) t h (
          subst
            (λ (r : CachedBackend MemoryBackend M × Result BackendError (Unit {0})). IsDirect r.0)
            (neither moka t.read_only (is_write_back t.sync.config) _ _ _ h.0.1 h.0.0)
            (IsDirect-and_then now (Memory.delete path t.inner) _ t
              (λ u a k. IsDirect-uncached path u laws k) h))
    IsDirect-execute (rename mount from to) t h =
        let u = uncached (memory now) moka from t in
        IsDirect-change vfs_text ro from (Cached.rename (memory now) moka now from to) t h (
          subst
            (λ (r : CachedBackend MemoryBackend M × Result BackendError (Unit {0})). IsDirect r.0)
            (neither moka t.read_only (is_write_back t.sync.config) _ _ _ h.0.1 h.0.0)
            (IsDirect-and_then now (Memory.rename from to t.inner) (λ v _. v) u (λ v a k. k)
              (IsDirect-uncached from t laws h)))
    IsDirect-execute (read mount path) t h = IsDirect-found path t h
    IsDirect-execute (index_file path) t h = IsDirect-found path t h
    IsDirect-execute (list mount path) t h = h
    IsDirect-execute (stat mount path) t h = h
    IsDirect-execute (exists mount path) t h = h
    IsDirect-execute (search_chroma query) t h = h
    IsDirect-execute flush_write_back t h = h

    pub execute-IsDirect :
        (op : Op) (t : CachedBackend MemoryBackend M)
        → IsDirect t
        → Agrees moka
            (execute moka vfs_text backend_text pipeline search now ro op t)
            (execute_direct vfs_text backend_text pipeline search now ro op t.inner)
    execute-IsDirect op t h =
        execute-Agrees moka vfs_text backend_text pipeline search now ro op t h.0
          (IsMissed-IsDirect op t h)
