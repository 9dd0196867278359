-- ===== src/Cached.antt =====
-- crates/openfs-remote/src/cached_backend.rs: a backend behind a cache and a sync engine. The backend
-- inside is any one that the record Backend describes (crates/openfs-core/src/traits.rs); warnings
-- that the code logs where the queue refuses are left out. `list`, `exists` and `stat` are not modelled.
pub mod Reads
mod Tests
use open_fs.Prelude.{
  ℕ, ◌≡◌, Bool, true, false, ◌||◌, Option, none, some, List, [], ◌∷◌, ◌++◌, any, if◌then◌else◌,
}
use open_fs.Prelude.Text.{Str, text}
use open_fs.Error.{BackendError, not_found, other, Result, ok, err}
use open_fs.Wal.{Bytes}
use open_fs.Cache
use open_fs.Cache.{Moka, LruCache}
use open_fs.Sync.{SyncEngine, is_write_back}
use open_fs.Sync.Queue.{queue_write, queue_delete, pending_contains}

-- The operations of `trait Backend` that are used here; what they read is the state `B`.
pub record Backend {ℓ} (B : Type ℓ) : Type ℓ where
  pub read : Str → B → Result BackendError Bytes
  pub read_with_cas_token : Str → B → Result BackendError (Bytes × Option Str)
  pub write : Str → Bytes → B → B × Result BackendError (Unit {0})
  pub compare_and_swap : Str → Option Str → Bytes → B → B × Result BackendError (Option Str)
  pub append : Str → Bytes → B → B × Result BackendError (Unit {0})
  pub delete : Str → B → B × Result BackendError (Unit {0})
  pub exists : Str → B → Result BackendError Bool
  pub rename : Str → Str → B → B × Result BackendError (Unit {0})

pub record CachedBackend {ℓ κ} (B : Type ℓ) (M : Type κ) : Type (ℓ ⊔ κ) where
  pub inner : B
  pub cache : LruCache M
  pub sync : SyncEngine
  pub read_only : Bool

abbrev pub refused : Str → BackendError
refused path = other (text "Mount is read-only: " ++ path)

module _ {ℓ κ} {B : Type ℓ} {M : Type κ} (backend : Backend B) (moka : Moka M) where
  abbrev pub cached : Str → Bytes → CachedBackend B M → CachedBackend B M
  cached path content t = record t { cache = Cache.put moka path content t.cache }

  abbrev pub uncached : Str → CachedBackend B M → CachedBackend B M
  uncached path t = record t { cache = Cache.remove moka path t.cache }

  unfoldable pub read : Str → CachedBackend B M → CachedBackend B M × Result BackendError Bytes
  read path t =
      let (cache, hit) = Cache.get moka path t.cache in
      elim hit [
        | some content ↦ (record t { cache = cache }, ok content)
        | none ↦ elim (backend.read path t.inner) [
          | err e ↦ (record t { cache = cache }, err e)
          | ok content ↦ (cached path content (record t { cache = cache }), ok content)
        ]
      ]

  -- `?` after a call of the backend inside, and what follows it
  abbrev pub and_then {μ} :
      {A : Type μ}
      → B × Result BackendError A
      → (CachedBackend B M → A → CachedBackend B M)
      → CachedBackend B M
      → CachedBackend B M × Result BackendError A
  and_then (inner, err e) f t = (record t { inner = inner }, err e)
  and_then (inner, ok a) f t = (f (record t { inner = inner }) a, ok a)

  abbrev queued : ℕ → Str → Bytes → CachedBackend B M → CachedBackend B M
  queued now path content t = record t { sync = (queue_write now path content t.sync).0 }

  unfoldable pub write :
      ℕ → Str → Bytes → CachedBackend B M → CachedBackend B M × Result BackendError (Unit {0})
  write now path content t =
      if t.read_only
      then (t, err (refused path))
      else if is_write_back t.sync.config
      then (queued now path content (cached path content t), ok tt)
      else and_then (backend.write path content t.inner) (λ u _. cached path content u) t

  unfoldable pub compare_and_swap :
      Str
      → Option Str
      → Bytes
      → CachedBackend B M
      → CachedBackend B M × Result BackendError (Option Str)
  compare_and_swap path expected content t =
      if t.read_only
      then (t, err (refused path))
      else if is_write_back t.sync.config
      then (t, err (other (text "compare_and_swap is not supported in write-back mode")))
      else and_then (backend.compare_and_swap path expected content t.inner)
          (λ u _. cached path content u) t

  -- what `append` makes of the cache after the backend inside has the content
  abbrev refreshed : Str → CachedBackend B M → CachedBackend B M
  refreshed path u =
      if Cache.contains moka path u.cache
      then elim (backend.read path u.inner) [
        | ok full_content ↦ cached path full_content u
        | err _ ↦ uncached path u
      ]
      else u

  -- the content that an append in write-back mode starts from
  abbrev current : Result BackendError Bytes → Result BackendError Bytes
  current (ok content) = ok content
  current (err (BackendError.not_found p)) = ok []
  current (err e) = err e

  abbrev append_back :
      ℕ → Str → Bytes → CachedBackend B M → CachedBackend B M × Result BackendError (Unit {0})
  append_back now path content t =
      let (u, answer) = read path t in
      elim (current answer) [
        | err e ↦ (u, err e)
        | ok old ↦ (queued now path (old ++ content) (cached path (old ++ content) u), ok tt)
      ]

  unfoldable pub append :
      ℕ → Str → Bytes → CachedBackend B M → CachedBackend B M × Result BackendError (Unit {0})
  append now path content t =
      if t.read_only
      then (t, err (refused path))
      else if is_write_back t.sync.config
      then append_back now path content t
      else and_then (backend.append path content t.inner) (λ u _. refreshed path u) t

  abbrev buried : ℕ → Str → CachedBackend B M → CachedBackend B M
  buried now path t = record t { sync = (queue_delete now path t.sync).0 }

  -- whether the answer of the backend inside to a delete is one to go on from
  abbrev goes_on : Bool → Result BackendError (Unit {0}) → Result BackendError (Unit {0})
  goes_on locally_present (ok _) = ok tt
  goes_on locally_present (err (BackendError.not_found p)) =
      if locally_present then ok tt else err (BackendError.not_found p)
  goes_on locally_present (err e) = err e

  -- All of this happens under the lock of the path.
  abbrev delete_back :
      ℕ → Str → CachedBackend B M → CachedBackend B M × Result BackendError (Unit {0})
  delete_back now path t =
      let locally_present = Cache.contains moka path t.cache || pending_contains path t.sync in
      let (inner, deleted) = backend.delete path t.inner in
      and_then (inner, goes_on locally_present deleted) (λ u _. uncached path (buried now path u)) t

  unfoldable pub delete :
      ℕ → Str → CachedBackend B M → CachedBackend B M × Result BackendError (Unit {0})
  delete now path t =
      if t.read_only
      then (t, err (refused path))
      else if is_write_back t.sync.config
      then delete_back now path t
      else and_then (backend.delete path t.inner) (λ u _. uncached path u) t

  -- the end of `rename` in write-back mode
  abbrev requeued : ℕ → Str → Str → Option Bytes → CachedBackend B M → CachedBackend B M
  requeued now from to none t = buried now to (buried now from t)
  requeued now from to (some content) t = queued now to content (buried now to (buried now from t))

  abbrev moved : Str → Str → Option Bytes → CachedBackend B M → CachedBackend B M
  moved from to none t = uncached from t
  moved from to (some content) t = cached to content (uncached from t)

  abbrev rename_from :
      ℕ
      → Str
      → Str
      → Option Bytes
      → CachedBackend B M
      → CachedBackend B M × Result BackendError (Unit {0})
  rename_from now from to content t = elim (backend.exists from t.inner) [
    | err e ↦ (t, err e)
    | ok true ↦
        and_then (backend.rename from to t.inner)
          (λ u _. requeued now from to content (moved from to content u)) t
    | ok false ↦ elim content [
      | none ↦ (t, err (not_found from))
      | some c ↦ (requeued now from to (some c) (moved from to (some c) t), ok tt)
    ]
  ]

  abbrev rename_back :
      ℕ → Str → Str → CachedBackend B M → CachedBackend B M × Result BackendError (Unit {0})
  rename_back now from to t =
      let (cache, content) = Cache.get moka from t.cache in
      rename_from now from to content (record t { cache = cache })

  abbrev rename_through :
      Str → Str → CachedBackend B M → CachedBackend B M × Result BackendError (Unit {0})
  rename_through from to t =
      let u = uncached from t in and_then (backend.rename from to u.inner) (λ v _. v) u

  unfoldable pub rename :
      ℕ → Str → Str → CachedBackend B M → CachedBackend B M × Result BackendError (Unit {0})
  rename now from to t =
      if t.read_only
      then (t, err (refused from))
      else if is_write_back t.sync.config
      then rename_back now from to t
      else rename_through from to t
