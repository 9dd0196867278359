-- ===== src/Memory/Files.antt =====
-- Reading after each operation of crates/openfs-remote/src/backends/memory.rs.
use open_fs.Prelude.{
  ℕ, ◌≡◌, ◌≢◌, ◌↔◌, Bool, true, false, not, Option, none, some, ◌++◌, arith, length, list_eq,
  nat_eq, ◌==◌, eq_iff, if◌then◌else◌, Option-cases, Bool-cases, inl, inr,
}
use open_fs.Prelude.Map
use open_fs.Prelude.Text.{Str}
use open_fs.Error.{BackendError, Result, ok, err}
use open_fs.Wal.{Bytes}
use open_fs.Memory.{
  File, MemoryBackend, Entry, normalize_path, read, write, append, delete, rename, exists, stat,
  has_under, put, version_after, next_version,
}

-- The two paths name one file.
abbrev pub same_file : Str → Str → Bool
same_file p q = normalize_path p == normalize_path q

-- What a path has, if anything.
abbrev pub contents : Str → MemoryBackend → Option Bytes
contents path b = elim (Map.get (normalize_path path) b.files) [
  | none ↦ none
  | some f ↦ some f.content
]

contents-put :
    (n : Str) (f : File) (q : Str) (b : MemoryBackend)
    → contents q (put n f b) ≡ (if n == normalize_path q then some f.content else contents q b)
contents-put n f q b = ground (arith, Map.get-insert n (normalize_path q) f b.files)

module _ (p q : Str) (b : MemoryBackend) where
  -- After a write the path, however it is spelled, has the content; after an append it has the
  -- content at the end of what it had; and every other path has what it had.
  pub contents-write-append :
      (now : ℕ) (c : Bytes)
      → (contents q (write now p c b).0 ≡ (if same_file p q then some c else contents q b))
        × (contents q (append now p c b).0 ≡ (
            if same_file p q
            then elim (contents p b) [ none ↦ some c | some old ↦ some (old ++ c) ]
            else contents q b))
  unfolding write append
  contents-write-append now c =
      let n = normalize_path p in
      let old = Map.get n b.files in
      (
        contents-put n (record { content = c; mtime = now; version = version_after old }) q b,
        elim (Option-cases old) [
          | inl absent ↦ ground (
            arith,
            contents-put n (record { content = c; mtime = now; version = next_version 0 }) q b,
          )
          | inr (f, there) ↦ ground (
            arith,
            contents-put n
                (record { content = f.content ++ c; mtime = now; version = next_version f.version })
                q b,
          )
        ],
      )

  -- A delete succeeds exactly if the path has a file. Afterwards it has none, and every other path has
  -- what it had.
  pub contents-delete :
      (((delete p b).1 ≡ ok tt) ↔ (contents p b ≢ none))
      × (contents q (delete p b).0 ≡ (if same_file p q then none else contents q b))
  unfolding delete
  contents-delete = (
    (
      λ e h. ground arith,
      λ h. elim (Option-cases (Map.get (normalize_path p) b.files)) [
        | inl absent ↦ absurd (h (ground arith))
        | inr (f, there) ↦ ground arith
      ],
    ),
    ground (
      arith,
      Map.get-remove (normalize_path p) (normalize_path q) b.files,
      eq_iff (normalize_path p) (normalize_path q),
    ),
  )

  -- A rename of a file gives the new path its content, over what is there, and the old path is free
  -- unless it is the same; without a file to rename it fails and changes nothing.
  pub contents-rename :
      (to : Str)
      → contents q (rename p to b).0 ≡ elim (contents p b) [
        | none ↦ contents q b
        | some c ↦ if same_file to q then some c else if same_file p q then none else contents q b
      ]
  unfolding rename
  contents-rename to = elim (Option-cases (Map.get (normalize_path p) b.files)) [
    | inl absent ↦ ground arith
    | inr (f, there) ↦ ground (
      arith,
      Map.get-insert (normalize_path to) (normalize_path q) f
          (Map.remove (normalize_path p) b.files),
      Map.get-remove (normalize_path p) (normalize_path q) b.files,
    )
  ]

abbrev pub is_ok {ℓ} : {A : Type ℓ} → Result BackendError A → Bool
is_ok (ok a) = true
is_ok (err e) = false

abbrev pub is_file : Result BackendError Entry → Bool
is_file (ok entry) = not entry.is_dir
is_file (err e) = false

abbrev pub size_of : Result BackendError Entry → Option ℕ
size_of (ok entry) = entry.size
size_of (err e) = none

abbrev pub length_of : Result BackendError Bytes → Option ℕ
length_of (ok c) = some (length c)
length_of (err e) = none

-- `stat` finds a path exactly if the path exists, says that it is a file exactly if it can be read,
-- and has the length of what is read as its size.
pub stat-exists :
    (p : Str) (b : MemoryBackend)
    → (is_ok (stat p b) ≡ exists p b)
      × (is_file (stat p b) ≡ is_ok (read p b))
      × (size_of (stat p b) ≡ length_of (read p b))
unfolding stat exists read
stat-exists p b = elim (Option-cases (Map.get (normalize_path p) b.files)) [
  | inr (f, there) ↦ (ground arith, ground arith, ground arith)
  | inl absent ↦ elim (Bool-cases (has_under (normalize_path p) b)) [
    | inl under ↦ (ground arith, ground arith, ground arith)
    | inr free ↦ (ground arith, ground arith, ground arith)
  ]
]
