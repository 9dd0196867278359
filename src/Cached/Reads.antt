-- ===== src/Cached/Reads.antt =====
-- What a read finds after a change, in crates/openfs-remote/src/cached_backend.rs.
use open_fs.Prelude.{
  ℕ, ◌≤◌, ◌<◌, ◌≡◌, ◌⊎◌, refl, ◌∙◌, ap, true, false, Option, none, some, arith, length, Bool-cases,
  inl, inr,
}
use open_fs.Prelude.Text.{Str}
use open_fs.Error.{ok, err, Result-cases}
use open_fs.Wal.{Bytes}
use open_fs.Cache
use open_fs.Cache.{Moka, MokaLaws, LruCache}
use open_fs.Sync.{is_write_back}
use open_fs.Cached.{
  Backend, CachedBackend, read, write, delete, append, rename, compare_and_swap, cached, refused,
}

module _ {ℓ κ} {B : Type ℓ} {M : Type κ} (backend : Backend B) (moka : Moka M) where
  -- A read of what is not in the cache has the answer of the backend inside.
  read-missed :
      (path : Str) (t : CachedBackend B M)
      → (Cache.get moka path t.cache).1 ≡ none
      → (read backend moka path t).1 ≡ backend.read path t.inner
  unfolding read
  read-missed path t miss = elim (Result-cases (backend.read path t.inner)) [
    | inl (c, e) ↦ ground (arith, miss, e)
    | inr (x, e) ↦ ground (arith, miss, e)
  ]

  read-hit :
      (path : Str) (c : Bytes) (t : CachedBackend B M)
      → (Cache.get moka path t.cache).1 ≡ some c
      → (read backend moka path t).1 ≡ ok c
  unfolding read
  read-hit path c t hit = ground (arith, hit)

  -- The cache has room for the content, or is disabled.
  abbrev pub HasRoom : Bytes → LruCache M → Type 0
  HasRoom content c =
      (c.config.enabled ≡ false)
      ⊎ ((moka.entry_count c.cache < c.config.max_entries) × (length content ≤ c.config.max_size))

  get-put :
      (path : Str) (content : Bytes) (c : LruCache M)
      → MokaLaws M moka
      → HasRoom content c
      → ((Cache.get moka path (Cache.put moka path content c)).1 ≡ some content)
        ⊎ ((Cache.get moka path (Cache.put moka path content c)).1 ≡ none)
  unfolding Cache.get Cache.put
  get-put path content c laws (inl off) = inr (ground (arith, off))
  get-put path content c laws (inr room) = elim (Bool-cases c.config.enabled) [
    | inr off ↦ inr (ground (arith, off))
    | inl on ↦ elim (laws.lookup-insert path content c.cache) [
      | inl there ↦ inl (ground (arith, on, room, there))
      | inr gone ↦ inr (ground (arith, on, room, gone))
    ]
  ]

  -- The backend inside answers a read with what was written last.
  abbrev pub ReadsWrites : Type ℓ
  ReadsWrites =
      (path : Str) (content : Bytes) (b : B)
      → (backend.write path content b).1 ≡ ok tt
      → backend.read path (backend.write path content b).0 ≡ ok content

  write-accepted :
      (now : ℕ) (path : Str) (content : Bytes) (t : CachedBackend B M)
      → is_write_back t.sync.config ≡ false
      → t.read_only ≡ false
      → (backend.write path content t.inner).1 ≡ ok tt
      → write backend moka now path content t ≡ (
        cached backend moka path content
            (record t { inner = (backend.write path content t.inner).0 }),
        ok tt,
      )
  unfolding write
  write-accepted now path content t through writable accepted =
      ground (arith, through, writable, accepted)

  -- On a mount that is not read-only, and not in write-back mode, a write that the backend inside
  -- accepts is read back at once, where the cache has room for the content or is disabled. The backend
  -- inside answers reads with what was written last, and the cache with what was inserted last or not.
  pub read-write :
      (now : ℕ) (path : Str) (content : Bytes) (t : CachedBackend B M)
      → MokaLaws M moka
      → ReadsWrites
      → is_write_back t.sync.config ≡ false
      → t.read_only ≡ false
      → HasRoom content t.cache
      → (backend.write path content t.inner).1 ≡ ok tt
      → ((write backend moka now path content t).1 ≡ ok tt)
        × ((read backend moka path (write backend moka now path content t).0).1 ≡ ok content)
  read-write now path content t laws reads through writable room accepted =
      let u =
        cached backend moka path content
          (record t { inner = (backend.write path content t.inner).0 }) in
      let written = write-accepted now path content t through writable accepted in
      let result : (read backend moka path u).1 ≡ ok content =
        elim (get-put path content t.cache laws room) [
          | inl hit ↦ read-hit path content u hit
          | inr miss ↦ read-missed path u miss ∙ reads path content t.inner accepted
        ] in
      (ap (λ r. r.1) written, ap (λ r. (read backend moka path r.0).1) written ∙ result)

  -- Where an enabled cache has as many entries as it may, a write that is accepted (on a mount that is
  -- not read-only, and not in write-back mode) of a path that is in the cache leaves the old content
  -- there: the backend inside has the new content, and a read answers with the old one.
  pub read-write_full :
      (now : ℕ) (path : Str) (content old : Bytes) (t : CachedBackend B M)
      → ReadsWrites
      → is_write_back t.sync.config ≡ false
      → t.read_only ≡ false
      → t.cache.config.enabled ≡ true
      → t.cache.config.max_entries ≤ moka.entry_count t.cache.cache
      → moka.lookup path t.cache.cache ≡ some old
      → (backend.write path content t.inner).1 ≡ ok tt
      → let u = (write backend moka now path content t).0 in
        (backend.read path u.inner ≡ ok content) × ((read backend moka path u).1 ≡ ok old)
  unfolding Cache.get Cache.put
  read-write_full now path content old t reads through writable on full hit accepted =
      let u =
        cached backend moka path content
          (record t { inner = (backend.write path content t.inner).0 }) in
      let written = write-accepted now path content t through writable accepted in
      let kept : (Cache.get moka path u.cache).1 ≡ some old = ground (arith, on, full, hit) in
      (
        ap (λ r. backend.read path r.0.inner) written ∙ reads path content t.inner accepted,
        ap (λ r. (read backend moka path r.0).1) written ∙ read-hit path old u kept,
      )

  -- On a mount that is not read-only, and not in write-back mode, a rename that is accepted leaves what
  -- an enabled cache has for the new path: where that is not evicted, a read of the new path answers
  -- with it, whatever the backend inside has there.
  pub read-rename :
      (now : ℕ) (from to : Str) (old : Bytes) (t : CachedBackend B M)
      → is_write_back t.sync.config ≡ false
      → t.read_only ≡ false
      → t.cache.config.enabled ≡ true
      → moka.lookup to (moka.invalidate from t.cache.cache) ≡ some old
      → (backend.rename from to t.inner).1 ≡ ok tt
      → let (u, answer) = rename backend moka now from to t in
        (answer ≡ ok tt) × ((read backend moka to u).1 ≡ ok old)
  unfolding rename Cache.get Cache.remove
  read-rename now from to old t through writable on hit accepted =
      let u = record t {
        inner = (backend.rename from to t.inner).0;
        cache = Cache.remove moka from t.cache;
      } in
      let done : rename backend moka now from to t ≡ (u, ok tt) =
        ground (arith, through, writable, accepted) in
      let kept : (Cache.get moka to u.cache).1 ≡ some old = ground (arith, on, hit) in
      (ap (λ r. r.1) done, ap (λ r. (read backend moka to r.0).1) done ∙ read-hit to old u kept)

  -- A read-only mount refuses every change and stays as it is.
  pub read_only-refuses :
      (now : ℕ) (path to : Str) (token : Option Str) (content : Bytes) (t : CachedBackend B M)
      → t.read_only ≡ true
      → (write backend moka now path content t ≡ (t, err (refused path)))
        × (append backend moka now path content t ≡ (t, err (refused path)))
        × (delete backend moka now path t ≡ (t, err (refused path)))
        × (rename backend moka now path to t ≡ (t, err (refused path)))
        × (compare_and_swap backend moka path token content t ≡ (t, err (refused path)))
  unfolding write append delete rename compare_and_swap
  read_only-refuses now path to token content t frozen =
      (rw frozen refl, rw frozen refl, rw frozen refl, rw frozen refl, rw frozen refl)

  -- On a mount that is not read-only, and not in write-back mode, after a delete that the backend inside
  -- accepts a read has the answer that the backend inside then gives: the cache has nothing for the path
  -- any more, as it has none for a key that was invalidated.
  pub read-delete :
      (now : ℕ) (path : Str) (t : CachedBackend B M)
      → MokaLaws M moka
      → is_write_back t.sync.config ≡ false
      → t.read_only ≡ false
      → (backend.delete path t.inner).1 ≡ ok tt
      → let (u, answer) = delete backend moka now path t in
        (answer ≡ ok tt)
        × ((read backend moka path u).1 ≡ backend.read path (backend.delete path t.inner).0)
  unfolding delete Cache.get Cache.remove
  read-delete now path t laws through writable accepted =
      let u = record t {
        inner = (backend.delete path t.inner).0;
        cache = Cache.remove moka path t.cache;
      } in
      let done : delete backend moka now path t ≡ (u, ok tt) =
        ground (arith, through, writable, accepted) in
      let gone : (Cache.get moka path u.cache).1 ≡ none =
        ground (arith, laws.lookup-invalidate path t.cache.cache) in
      (ap (λ r. r.1) done, ap (λ r. (read backend moka path r.0).1) done ∙ read-missed path u gone)
