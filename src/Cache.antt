-- ===== src/Cache.antt =====
-- crates/openfs-core/src/cache.rs: the cache of file contents. The concurrent cache that it wraps is
-- third-party code, the record Moka; the index of the cached paths and the statistics are left out.
use open_fs.Prelude.{
  ℕ, ◌≡◌, ◌⊎◌, Bool, true, false, Option, none, some, length, ltb, leb, if◌then◌else◌,
}
use open_fs.Prelude.Text.{Str}
use open_fs.Wal.{Bytes}

-- `moka::future::Cache`: what a lookup finds, and what becomes of the cache by it (it may evict), by an
-- insertion and by an invalidation; how many entries it counts.
pub record Moka {ℓ} (M : Type ℓ) : Type ℓ where
  pub lookup : Str → M → Option Bytes
  pub looked_up : Str → M → M
  pub insert : Str → Bytes → M → M
  pub invalidate : Str → M → M
  pub entry_count : M → ℕ

-- What is relied on: after an insertion an entry holds what was inserted, unless it is gone already or
-- was not admitted, and after an invalidation there is none, nor any that was not there.
pub record MokaLaws {ℓ} (M : Type ℓ) (moka : Moka M) : Type ℓ where
  pub lookup-insert :
      (k : Str) (v : Bytes) (m : M)
      → (moka.lookup k (moka.insert k v m) ≡ some v) ⊎ (moka.lookup k (moka.insert k v m) ≡ none)
  pub lookup-invalidate : (k : Str) (m : M) → moka.lookup k (moka.invalidate k m) ≡ none
  pub lookup-invalidate_none :
      (j k : Str) (m : M) → moka.lookup j m ≡ none → moka.lookup j (moka.invalidate k m) ≡ none

pub record CacheConfig : Type 0 where
  pub max_entries : ℕ
  pub max_size : ℕ
  pub ttl : ℕ
  pub enabled : Bool

pub record LruCache {ℓ} (M : Type ℓ) : Type ℓ where
  pub config : CacheConfig
  pub cache : M

module _ {ℓ} {M : Type ℓ} (moka : Moka M) where
  unfoldable pub get : Str → LruCache M → LruCache M × Option Bytes
  get key c =
      if c.config.enabled
      then (record c { cache = moka.looked_up key c.cache }, moka.lookup key c.cache)
      else (c, none)

  unfoldable pub put : Str → Bytes → LruCache M → LruCache M
  put key content c =
      if c.config.enabled
      then if leb c.config.max_entries (moka.entry_count c.cache)
        then c
        else if ltb c.config.max_size (length content)
        then c
        else record c { cache = moka.insert key content c.cache }
      else c

  unfoldable pub remove : Str → LruCache M → LruCache M
  remove key c = record c { cache = moka.invalidate key c.cache }

  unfoldable pub contains : Str → LruCache M → Bool
  contains key c = elim (moka.lookup key c.cache) [ none ↦ false | some _ ↦ true ]
