-- ===== src/Oracle/Execute/Through.antt =====
-- A mount of crates/openfs-sim/src/agent.rs that writes through: what an operation changes is what it changes in
-- the backend inside, whatever the cache holds, and a look at a path that is not cached is one at the backend.
use open_fs.Prelude.{
  ℕ, ◌≡◌, refl, ap, Bool, true, false, Option, none, arith, Bool-cases, inl, inr, if◌then◌else◌,
}
use mathlib.Core.Path.{subst}
use open_fs.Prelude.Text.{Str}
use open_fs.Error.{BackendError, VfsError, Result, ok, err, Result-cases, from_backend, map_err}
use open_fs.Wal.{Bytes}
use open_fs.Memory
use open_fs.Memory.{MemoryBackend}
use open_fs.Cache
use open_fs.Cache.{Moka}
use open_fs.Sync.{is_write_back}
use open_fs.Cached
use open_fs.Cached.{CachedBackend, and_then, cached, uncached}
use open_fs.Oracle.{
  Op, write, append, read, delete, list, stat, exists, rename, index_file, search_chroma,
  flush_write_back,
}
use open_fs.Oracle.Harness.{
  Outcome, execute_direct, execute_change, change_outcome, classified, classify_error,
  classify_backend_error, classify_index_error, index_content,
}
use open_fs.Oracle.Execute.{execute, memory}

-- The mount takes changes, and not in write-back mode.
abbrev pub IsThrough {κ} : {M : Type κ} → CachedBackend MemoryBackend M → Type 0
IsThrough t = (is_write_back t.sync.config ≡ false) × (t.read_only ≡ false)

module _ {κ} {M : Type κ} (moka : Moka M) where
  -- An answer of the mount is that of the backend inside.
  abbrev pub Agrees {ℓ} :
      {A : Type ℓ} → CachedBackend MemoryBackend M × A → MemoryBackend × A → Type ℓ
  Agrees (t, x) (b, y) = (t.inner ≡ b) × (x ≡ y)

  write-through :
      (now : ℕ) (path : Str) (content : Bytes) (t : CachedBackend MemoryBackend M)
      → IsThrough t
      → Agrees
          (Cached.write (memory now) moka now path content t)
          (Memory.write now path content t.inner)
  unfolding Cached.write Memory.write
  write-through now path content t (through, writable) = ground (arith, through, writable)

  and_then-Agrees {ℓ} :
      {A : Type ℓ} (now : ℕ) (r : MemoryBackend × Result BackendError A)
      (f : CachedBackend MemoryBackend M → A → CachedBackend MemoryBackend M)
      (t : CachedBackend MemoryBackend M)
      → ((u : CachedBackend MemoryBackend M) (a : A) → (f u a).inner ≡ u.inner)
      → Agrees (and_then (memory now) moka r f t) r
  and_then-Agrees now (b, ok a) f t kept = (kept (record t { inner = b }) a, refl)
  and_then-Agrees now (b, err e) f t kept = (refl, refl)

  pub neither {ℓ} :
      {A : Type ℓ} (c d : Bool) (x y z : A)
      → c ≡ false
      → d ≡ false
      → z ≡ (if c then x else if d then y else z)
  neither c d x y z h k = ground (arith, h, k)

  refreshed-inner :
      (path : Str) (hit : Bool) (answer : Result BackendError Bytes)
      (u : CachedBackend MemoryBackend M)
      → (if hit
          then elim answer [
            | ok content ↦ cached (memory 0) moka path content u
            | err _ ↦ uncached (memory 0) moka path u
          ]
          else u).inner
        ≡ u.inner
  refreshed-inner path true (ok c) u = refl
  refreshed-inner path true (err e) u = refl
  refreshed-inner path false answer u = refl

  append-through :
      (now : ℕ) (path : Str) (content : Bytes) (t : CachedBackend MemoryBackend M)
      → IsThrough t
      → Agrees
          (Cached.append (memory now) moka now path content t)
          (Memory.append now path content t.inner)
  unfolding Cached.append
  append-through now path content t (through, writable) =
      subst (λ r. Agrees r (Memory.append now path content t.inner))
        (neither t.read_only (is_write_back t.sync.config) _ _ _ writable through)
        (and_then-Agrees now (Memory.append now path content t.inner) _ t (λ u a.
          refreshed-inner path (Cache.contains moka path u.cache) (Memory.read path u.inner) u))

  delete-through :
      (now : ℕ) (path : Str) (t : CachedBackend MemoryBackend M)
      → IsThrough t
      → Agrees (Cached.delete (memory now) moka now path t) (Memory.delete path t.inner)
  unfolding Cached.delete
  delete-through now path t (through, writable) =
      subst (λ r. Agrees r (Memory.delete path t.inner))
        (neither t.read_only (is_write_back t.sync.config) _ _ _ writable through)
        (and_then-Agrees now (Memory.delete path t.inner) (λ u _. uncached (memory now) moka path u)
          t (λ u a. refl))

  rename-through :
      (now : ℕ) (from to : Str) (t : CachedBackend MemoryBackend M)
      → IsThrough t
      → Agrees (Cached.rename (memory now) moka now from to t) (Memory.rename from to t.inner)
  unfolding Cached.rename
  rename-through now from to t (through, writable) =
      subst (λ r. Agrees r (Memory.rename from to t.inner))
        (neither t.read_only (is_write_back t.sync.config) _ _ _ writable through)
        (and_then-Agrees now (Memory.rename from to t.inner) (λ u _. u)
          (uncached (memory now) moka from t) (λ u a. refl))

  -- A path that the operation looks up in the cache is not there.
  unfoldable pub IsMissed : Op → CachedBackend MemoryBackend M → Type 0
  IsMissed (read mount path) t = moka.lookup path t.cache.cache ≡ none
  IsMissed (exists mount path) t = moka.lookup path t.cache.cache ≡ none
  IsMissed (index_file path) t = moka.lookup path t.cache.cache ≡ none
  IsMissed op t = Unit {0}

  pub IsMissed-inner :
      (op : Op) (t : CachedBackend MemoryBackend M) (b : MemoryBackend)
      → IsMissed op t
      → IsMissed op (record t { inner = b })
  unfolding IsMissed
  IsMissed-inner (read mount path) t b h = h
  IsMissed-inner (exists mount path) t b h = h
  IsMissed-inner (index_file path) t b h = h
  IsMissed-inner (write mount path content) t b h = h
  IsMissed-inner (append mount path content) t b h = h
  IsMissed-inner (delete mount path) t b h = h
  IsMissed-inner (rename mount from to) t b h = h
  IsMissed-inner (list mount path) t b h = h
  IsMissed-inner (stat mount path) t b h = h
  IsMissed-inner (search_chroma query) t b h = h
  IsMissed-inner flush_write_back t b h = h

  read-through :
      (now : ℕ) (path : Str) (t : CachedBackend MemoryBackend M)
      → moka.lookup path t.cache.cache ≡ none
      → Agrees (Cached.read (memory now) moka path t) (t.inner, Memory.read path t.inner)
  unfolding Cached.read Cache.get
  read-through now path t miss = elim (Bool-cases t.cache.config.enabled) [
    | inl on ↦ elim (Result-cases (Memory.read path t.inner)) [
      | inl (c, e) ↦ ground (arith, on, miss, e)
      | inr (x, e) ↦ ground (arith, on, miss, e)
    ]
    | inr off ↦ elim (Result-cases (Memory.read path t.inner)) [
      | inl (c, e) ↦ ground (arith, off, miss, e)
      | inr (x, e) ↦ ground (arith, off, miss, e)
    ]
  ]

  change_outcome-Agrees :
      (vfs_text : VfsError → Str) (ro : Bool) (path : Str)
      (f : CachedBackend MemoryBackend M
        → CachedBackend MemoryBackend M × Result BackendError (Unit {0}))
      (g : MemoryBackend → MemoryBackend × Result BackendError (Unit {0}))
      (t : CachedBackend MemoryBackend M)
      → Agrees (f t) (g t.inner)
      → Agrees
          (change_outcome vfs_text (execute_change ro path f t))
          (change_outcome vfs_text (execute_change ro path g t.inner))
  unfolding change_outcome execute_change
  change_outcome-Agrees vfs_text true path f g t h = (refl, refl)
  change_outcome-Agrees vfs_text false path f g t h = (
    h.0,
    ap (λ r. classified (classify_error vfs_text) (λ done. Outcome.ok) (map_err from_backend r))
        h.1,
  )

  module _ (vfs_text : VfsError → Str) (backend_text : BackendError → Str)
      (pipeline : Str → Bytes → Bool) (search : Str → Option Str) (now : ℕ) (ro : Bool) where
    -- An operation on such a mount is one on the backend inside, where what it looks up is not cached.
    pub execute-Agrees :
        (op : Op) (t : CachedBackend MemoryBackend M)
        → IsThrough t
        → IsMissed op t
        → Agrees
            (execute moka vfs_text backend_text pipeline search now ro op t)
            (execute_direct vfs_text backend_text pipeline search now ro op t.inner)
    unfolding execute execute_direct IsMissed Cache.contains
    execute-Agrees (write mount path content) t through missed =
        change_outcome-Agrees vfs_text ro path (Cached.write (memory now) moka now path content)
          (Memory.write now path content) t (write-through now path content t through)
    execute-Agrees (append mount path content) t through missed =
        change_outcome-Agrees vfs_text ro path (Cached.append (memory now) moka now path content)
          (Memory.append now path content) t (append-through now path content t through)
    execute-Agrees (delete mount path) t through missed =
        change_outcome-Agrees vfs_text ro path (Cached.delete (memory now) moka now path)
          (Memory.delete path) t (delete-through now path t through)
    execute-Agrees (rename mount from to) t through missed =
        change_outcome-Agrees vfs_text ro from (Cached.rename (memory now) moka now from to)
          (Memory.rename from to) t (rename-through now from to t through)
    execute-Agrees (read mount path) t through missed =
        let h = read-through now path t missed in
        (h.0, ap (classified (classify_backend_error backend_text) (λ c. Outcome.read_ok c)) h.1)
    execute-Agrees (index_file path) t through missed =
        let h = read-through now path t missed in
        (h.0, ap (classified (classify_index_error backend_text) (index_content pipeline path)) h.1)
    execute-Agrees (list mount path) t through missed = (refl, refl)
    execute-Agrees (stat mount path) t through missed = (refl, refl)
    execute-Agrees (exists mount path) t through missed = (refl, rw (missed, Cache.contains) refl)
    execute-Agrees (search_chroma query) t through missed = (refl, refl)
    execute-Agrees flush_write_back t through missed = (refl, refl)
