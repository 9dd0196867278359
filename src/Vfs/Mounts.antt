-- ===== src/Vfs/Mounts.antt =====
-- What an operation of crates/openfs-remote/src/vfs.rs does to the mounts.
use open_fs.Prelude.{
  ℕ, ◌≡◌, ◌≢◌, ◌⊎◌, true, false, Option, arith, nat_eq, ◌==◌, eq_iff, eq_refl, Bool-cases, inl, inr,
  ap, none, refl,
}
use open_fs.Prelude.Text.{Str}
use open_fs.Error.{read_only, BackendError, Result, ok, err, Result-cases}
use open_fs.Wal.{Bytes}
use open_fs.Router.{resolve}
use open_fs.Cached.{Backend}
use open_fs.Vfs.{
  Vfs, state_of, changing, read, write, append, delete, compare_and_swap, copy_and_delete, rename,
}

module _ {ℓ κ} {F : Type ℓ} {B : Type κ} (backend : Backend (F × B)) where
  changing-refused {μ} :
      {A : Type μ} (f : Str → F × B → (F × B) × Result BackendError A) (path relative : Str) (i : ℕ)
      (v : Vfs F B)
      → resolve v.router path ≡ ok (i, relative, true)
      → changing backend path f v ≡ (v, err (read_only path))
  changing-refused f path relative i v e = ground (arith, e)

  -- An operation on a path of a read-only mount is refused, with the path as it was given, and changes
  -- no backend.
  pub read_only_mount :
      (path relative : Str) (i : ℕ) (content : Bytes) (token : Option Str) (v : Vfs F B)
      → resolve v.router path ≡ ok (i, relative, true)
      → (write backend path content v ≡ (v, err (read_only path)))
        × (append backend path content v ≡ (v, err (read_only path)))
        × (delete backend path v ≡ (v, err (read_only path)))
        × (compare_and_swap backend path token content v ≡ (v, err (read_only path)))
  unfolding write append delete compare_and_swap
  read_only_mount path relative i content token v e = (
    changing-refused (λ r. backend.write r content) path relative i v e,
    changing-refused (λ r. backend.append r content) path relative i v e,
    changing-refused backend.delete path relative i v e,
    changing-refused (λ r. backend.compare_and_swap r token content) path relative i v e,
  )

  -- The backends answer a read with what was written last.
  abbrev pub ReadsWrites : Type (ℓ ⊔ κ)
  ReadsWrites =
      (path : Str) (content : Bytes) (b : F × B)
      → (backend.write path content b).1 ≡ ok tt
      → backend.read path (backend.write path content b).0 ≡ ok content

  mounts-apart : (i j : ℕ) (v : Vfs F B) → v.backend_of i ≢ v.backend_of j → (i == j) ≡ false
  mounts-apart i j v ne = elim (Bool-cases (i == j)) [
    | inl e ↦ absurd (ne (ap v.backend_of ((eq_iff i j).0 e)))
    | inr apart ↦ apart
  ]

  copy_and_delete-kept :
      (i j : ℕ) (p q : Str) (content : Bytes) (v : Vfs F B)
      → ReadsWrites
      → v.backend_of i ≢ v.backend_of j
      → backend.read p (state_of i v) ≡ ok content
      → (state_of i (copy_and_delete backend i p j q v).0 ≡ state_of i v)
        ⊎ (backend.read q (state_of j (copy_and_delete backend i p j q v).0) ≡ ok content)
  unfolding copy_and_delete
  copy_and_delete-kept i j p q content v reads ne there =
      elim (Result-cases (backend.write q content (state_of j v)).1) [
        | inr (e, refused) ↦ inl (ground (arith, there, refused, eq_iff j i))
        | inl (u, accepted) ↦ inr (
            ground (
              arith,
              there,
              accepted,
              eq_iff i j,
              eq_iff j i,
              eq_refl j,
              reads q content (state_of j v) accepted,
            ))
      ]

  -- A rename of a file from one mount to another, neither read-only, with different backends, never loses
  -- its content, however it ends and whichever call fails: the old mount is as it was, or the new path reads back the content.
  -- The backends answer a read with what was written last.
  pub rename-kept :
      (from to p q : Str) (i j : ℕ) (content : Bytes) (v : Vfs F B)
      → ReadsWrites
      → resolve v.router from ≡ ok (i, p, false)
      → resolve v.router to ≡ ok (j, q, false)
      → v.backend_of i ≢ v.backend_of j
      → backend.read p (state_of i v) ≡ ok content
      → (state_of i (rename backend from to v).0 ≡ state_of i v)
        ⊎ (backend.read q (state_of j (rename backend from to v).0) ≡ ok content)
  unfolding rename
  rename-kept from to p q i j content v reads f t ne there =
      let apart : (i == j) ≡ false = mounts-apart i j v ne in
      let copies : rename backend from to v ≡ copy_and_delete backend i p j q v =
        ground (arith, f, t, apart) in
      rw copies (copy_and_delete-kept i j p q content v reads ne there)

  -- What is deleted is gone from the backend below the mount.
  abbrev pub Deletes : (Str → B → Option Bytes) → Type (ℓ ⊔ κ)
  Deletes kept =
      (path : Str) (s : F × B)
      → (backend.delete path s).1 ≡ ok tt
      → kept path (backend.delete path s).0.1 ≡ none

  -- Two mounts, neither read-only, that share a backend: a rename of a file to its own relative path
  -- below the other mount, in which no call fails, succeeds and removes the file from the backend that
  -- both have. What is deleted is gone from the backend.
  pub rename-lost :
      (kept : Str → B → Option Bytes) (from to p : Str) (i j : ℕ) (content : Bytes) (v : Vfs F B)
      → Deletes kept
      → resolve v.router from ≡ ok (i, p, false)
      → resolve v.router to ≡ ok (j, p, false)
      → (i == j) ≡ false
      → v.backend_of i ≡ v.backend_of j
      → backend.read p (state_of i v) ≡ ok content
      → let written = backend.write p content (state_of j v) in
        written.1 ≡ ok tt
        → (backend.delete p (v.fronts i, written.0.1)).1 ≡ ok tt
        → ((rename backend from to v).1 ≡ ok tt)
          × (kept p ((rename backend from to v).0.raws (v.backend_of i)) ≡ none)
          × (kept p ((rename backend from to v).0.raws (v.backend_of j)) ≡ none)
  unfolding rename copy_and_delete
  rename-lost kept from to p i j content v deletes f t apart one there accepted removed =
      let written = backend.write p content (state_of j v) in
      let gone = deletes p (v.fronts i, written.0.1) removed in
      let apart' : (j == i) ≡ false = ground (arith, apart, eq_iff i j, eq_iff j i) in
      let k = v.backend_of i in
      let same = eq_refl k in
      let back : (v.backend_of j == k) ≡ true = ground (arith, one, eq_iff (v.backend_of j) k) in
      let back' : (k == v.backend_of j) ≡ true = ground (arith, one, eq_iff k (v.backend_of j)) in
      rw (f, rename)
        (rw (t, rename)
          (rw (apart, rename)
            (rw (there, copy_and_delete)
              (rw (accepted, copy_and_delete)
                (rw (apart', back, removed, same, back', gone) (refl, refl, refl))))))

  -- A write to a path of a mount that is not read-only, which its backend accepts, is read back at that
  -- path. The backends answer a read with what was written last.
  pub read-write_mount :
      (path relative : Str) (i : ℕ) (content : Bytes) (v : Vfs F B)
      → ReadsWrites
      → resolve v.router path ≡ ok (i, relative, false)
      → (backend.write relative content (state_of i v)).1 ≡ ok tt
      → ((write backend path content v).1 ≡ ok tt)
        × (read backend path (write backend path content v).0 ≡ ok content)
  unfolding read write
  read-write_mount path relative i content v reads e accepted =
      let back = reads relative content (state_of i v) accepted in
      (ground (arith, e, accepted), ground (arith, e, accepted, back, eq_refl i))
