-- ===== src/Memory/Swap.antt =====
-- Conditional writes of crates/openfs-remote/src/backends/memory.rs, and the tokens that they compare.
use open_fs.Prelude.{
  ℕ, suc, ◌+◌, ◌^◌, ◌<◌, ◌≡◌, ◌↔◌, refl, Option, none, some, List, [], ◌∷◌, arith, length, list_eq,
  nat_eq, ◌==◌, eq_iff, eq_refl, if◌then◌else◌, Option-cases, inl, inr,
}
use mathlib.Core.Path.{subst}
use native.Mathlib.Nat.{add-zero}
use open_fs.Prelude.Decimal.{to_string, to_string-injective}
use open_fs.Prelude.Map
use open_fs.Prelude.Text.{Str}
use open_fs.Error.{precondition_failed, ok, err}
use open_fs.Wal.{Bytes}
use open_fs.Memory.{
  File, MemoryBackend, normalize_path, read, write, append, delete, read_with_cas_token,
  compare_and_swap, precondition, put, version_after, next_version,
}

-- The file of a path.
abbrev pub file_at : Str → MemoryBackend → Option File
file_at path b = Map.get (normalize_path path) b.files

-- A change of a file that is there: what another client does between a read and a conditional write.
pub data Change : Type 0 where
  written : ℕ → Bytes → Change
  appended : ℕ → Bytes → Change
  overwritten : ℕ → Bytes → Change
  swapped : ℕ → Bytes → Change

-- The token that a client reads with the content.
pub token_of : Str → MemoryBackend → Option Str
unfolding read_with_cas_token
token_of path b = elim (read_with_cas_token path b) [ ok (c, token) ↦ token | err _ ↦ none ]

pub change : Str → Change → MemoryBackend → MemoryBackend
unfolding write append compare_and_swap token_of
change path (written now c) b = (write now path c b).0
change path (appended now c) b = (append now path c b).0
change path (overwritten now c) b = (compare_and_swap now path none c b).0
change path (swapped now c) b = (compare_and_swap now path (token_of path b) c b).0

pub changes : Str → List Change → MemoryBackend → MemoryBackend
unfolding change
changes path [] b = b
changes path (c ∷ cs) b = changes path cs (change path c b)

-- The path has a file of version `v`.
abbrev pub HasVersion : Str → ℕ → MemoryBackend → Type 0
HasVersion path v b = (f : File) × (file_at path b ≡ some f) × (f.version ≡ v)

put-HasVersion :
    (path : Str) (g : File) (v : ℕ) (b : MemoryBackend)
    → g.version ≡ v
    → HasVersion path v (put (normalize_path path) g b)
put-HasVersion path g v b e = (g, Map.get-insert_self (normalize_path path) g b.files, e)

change-HasVersion :
    (path : Str) (c : Change) (b : MemoryBackend) (v : ℕ)
    → v + 1 < 2 ^ 64
    → HasVersion path v b
    → HasVersion path (v + 1) (change path c b)
unfolding change write append compare_and_swap precondition token_of read_with_cas_token
change-HasVersion path (written now c) b v lt (f, there, is_v) =
    put-HasVersion path _ (v + 1) b (ground (arith, there, is_v))
change-HasVersion path (appended now c) b v lt (f, there, is_v) =
    put-HasVersion path _ (v + 1) b (ground (arith, there, is_v))
change-HasVersion path (overwritten now c) b v lt (f, there, is_v) =
    put-HasVersion path _ (v + 1) b (ground (arith, there, is_v))
change-HasVersion path (swapped now c) b v lt (f, there, is_v) =
    let accepted = eq_refl (to_string f.version) in
    subst (HasVersion path (v + 1)) (ground (arith, there, accepted)) (
      put-HasVersion path (record { content = c; mtime = now; version = next_version f.version })
        (v + 1) b (ground (arith, is_v)))

changes-HasVersion :
    (path : Str) (cs : List Change) (b : MemoryBackend) (v : ℕ)
    → v + length cs < 2 ^ 64
    → HasVersion path v b
    → HasVersion path (v + length cs) (changes path cs b)
unfolding changes
changes-HasVersion path [] b v lt h = rw (add-zero v) h
changes-HasVersion path (c ∷ cs) b v lt h =
    let e : v + 1 + length cs ≡ v + suc (length cs) = omega arith in
    rw (← e) (
      changes-HasVersion path cs (change path c b) (v + 1) (omega arith)
        (change-HasVersion path c b v (omega arith) h))

-- How a conditional write with a token ends: on a file whose version is the token's it succeeds, and
-- on any other, or without a file, it fails and changes nothing.
pub compare_and_swap_iff :
    (now : ℕ) (path token : Str) (c : Bytes) (b : MemoryBackend)
    → (((compare_and_swap now path (some token) c b).1
          ≡ ok (some (to_string (version_after (file_at path b)))))
        ↔ ((f : File) × (file_at path b ≡ some f) × (token ≡ to_string f.version)))
      × ((compare_and_swap now path (some token) c b).0 ≡ elim (file_at path b) [
        | none ↦ b
        | some f ↦
            if token == to_string f.version
            then put
                (normalize_path path)
                (record { content = c; mtime = now; version = next_version f.version })
                b
            else b
      ])
unfolding compare_and_swap precondition
compare_and_swap_iff now path token c b = elim (Option-cases (file_at path b)) [
  | inl absent ↦
      ((λ e. absurd (ground arith), λ (f, there, e). absurd (ground arith)), ground arith)
  | inr (f, there) ↦ (
    (
      λ e. (f, there, ground (arith, eq_iff token (to_string f.version))),
      λ (g, there', e). ground (arith, eq_iff token (to_string f.version)),
    ),
    ground arith,
  )
]

-- A token that was read stops being accepted as soon as the file is changed, by a write, an append, an
-- unconditional swap, or a conditional one of a client that read the token of its time, and however often: the conditional write fails and leaves the
-- newer content. This holds while the version, counted up by the changes, is below 2 ^ 64.
pub stale_token-fails :
    (now : ℕ) (path : Str) (c : Bytes) (b : MemoryBackend) (f : File) (x : Change)
    (xs : List Change)
    → file_at path b ≡ some f
    → f.version + length (x ∷ xs) < 2 ^ 64
    → let b' = changes path (x ∷ xs) b in
      (compare_and_swap now path (some (to_string f.version)) c b' ≡ (
        b',
        err (
            precondition_failed path
              (to_string f.version)
              (to_string (f.version + length (x ∷ xs)))),
      ))
unfolding compare_and_swap precondition
stale_token-fails now path c b f x xs there lt =
    let (g, there', v) = changes-HasVersion path (x ∷ xs) b f.version lt (f, there, refl) in
    ground (
      arith,
      there',
      v,
      eq_iff (to_string f.version) (to_string g.version),
      to_string-injective f.version g.version,
    )

module _ (path : Str) where
  -- A file of the first version.
  abbrev first_file : ℕ → Bytes → File
  first_file now c = record { content = c; mtime = now; version = 1 }

  file_at-write :
      (now : ℕ) (c : Bytes) (b : MemoryBackend)
      → file_at path b ≡ none
      → file_at path (write now path c b).0 ≡ some (first_file now c)
  unfolding write
  file_at-write now c b free =
      ground (arith, free, Map.get-insert_self (normalize_path path) (first_file now c) b.files)

  file_at-delete :
      (b : MemoryBackend) (f : File)
      → file_at path b ≡ some f
      → file_at path (delete path b).0 ≡ none
  unfolding delete
  file_at-delete b f there = ground (
    arith,
    there,
    Map.get-remove (normalize_path path) (normalize_path path) b.files,
    eq_refl (normalize_path path),
  )

  read-compare_and_swap :
      (now : ℕ) (c mine : Bytes) (b : MemoryBackend)
      → file_at path b ≡ some (first_file now c)
      → read path (compare_and_swap now path (some (to_string 1)) mine b).0 ≡ ok mine
  unfolding compare_and_swap precondition read
  read-compare_and_swap now c mine b there = ground (
    arith,
    there,
    eq_refl (to_string 1),
    Map.get-insert_self (normalize_path path)
        (record { content = mine; mtime = now; version = next_version 1 }) b.files,
  )

  read_with_cas_token-file_at :
      (f : File) (b : MemoryBackend)
      → file_at path b ≡ some f
      → read_with_cas_token path b ≡ ok (f.content, some (to_string f.version))
  unfolding read_with_cas_token
  read_with_cas_token-file_at f b there = ground (arith, there)

  abbrev pub recreated : ℕ → Bytes → MemoryBackend → MemoryBackend
  recreated now c b = (write now path c (delete path b).0).0

  -- A file that is deleted and written again starts over at version 1: the token that was read from
  -- the first version of the old file is accepted for the new one, whose content is lost.
  pub recreated_token :
      (now : ℕ) (old new mine : Bytes) (b : MemoryBackend)
      → file_at path b ≡ none
      → (read_with_cas_token path (write now path old b).0 ≡ ok (old, some (to_string 1)))
        × (read path
              (compare_and_swap now path
                (some (to_string 1))
                mine
                (recreated now new (write now path old b).0)).0
            ≡ ok mine)
  recreated_token now old new mine b free =
      let b' = (write now path old b).0 in
      let there = file_at-write now old b free in
      (
        read_with_cas_token-file_at (first_file now old) b' there,
        read-compare_and_swap now new mine (recreated now new b') (
            file_at-write now new (delete path b').0
              (file_at-delete b' (first_file now old) there)),
      )
