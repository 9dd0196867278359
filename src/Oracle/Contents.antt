-- ===== src/Oracle/Contents.antt =====
-- The files of crates/openfs-remote/src/backends/memory.rs as the oracle of crates/openfs-sim/src/oracle.rs
-- keeps them: without versions and times. The paths are as the backend normalizes them.
use open_fs.Prelude.{
  ℕ, ◌≡◌, refl, sym, ◌∙◌, ap, false, none, some, [], ◌∷◌, arith, list_eq, nat_eq, Option-cases, inl,
  inr,
}
use open_fs.Prelude.Map
use open_fs.Prelude.Text.{Str, is_empty}
use open_fs.Wal.{Bytes}
use open_fs.Listing.Natural.{map_values, get-map_values, insert-map_values, remove-map_values}
use open_fs.Memory.{File, MemoryBackend, normalize_path, write, append, delete, rename}
use open_fs.Oracle.{Files, appended, moved}

abbrev pub content_of : File → Bytes
content_of f = f.content

unfoldable pub contents_of : MemoryBackend → Files
unfolding map_values
contents_of b = map_values content_of b.files

-- A path that names a file, spelled as the backend keeps it.
abbrev pub IsPlain : Str → Type 0
IsPlain path = (normalize_path path ≡ path) × (is_empty path ≡ false)

pub get-contents_of :
    (path : Str) (b : MemoryBackend)
    → Map.get path (contents_of b)
      ≡ elim (Map.get path b.files) [ none ↦ none | some f ↦ some f.content ]
unfolding contents_of
get-contents_of path b = get-map_values content_of path b.files

pub remove-absent :
    {V : Type 0} (k : Str) (m : Map.Map Str V) → Map.get k m ≡ none → Map.remove k m ≡ m
unfolding Map.get Map.remove
remove-absent k [] h = refl
remove-absent k ((j, v) ∷ m) h = ground (arith, remove-absent k m)

module _ (now : ℕ) (path : Str) (plain : IsPlain path) (b : MemoryBackend) where
  pub contents_of-write :
      (c : Bytes) → contents_of (write now path c b).0 ≡ Map.insert path c (contents_of b)
  unfolding write contents_of
  contents_of-write c = rw (plain.0) (insert-map_values content_of path _ b.files)

  pub contents_of-append :
      (c : Bytes) → contents_of (append now path c b).0 ≡ appended path c (contents_of b)
  unfolding append contents_of
  contents_of-append c = elim (Option-cases (Map.get path b.files)) [
    | inl absent ↦
        let absent' : Map.get path (contents_of b) ≡ none =
          ground (arith, get-contents_of path b, absent) in
        unfold contents_of in
        rw (plain.0, absent) (rw absent' (insert-map_values content_of path _ b.files))
    | inr (f, there) ↦
        let there' : Map.get path (contents_of b) ≡ some f.content =
          ground (arith, get-contents_of path b, there) in
        rw (plain.0, there) (rw there' (insert-map_values content_of path _ b.files))
  ]

contents_of-deleted :
    (path : Str) (b : MemoryBackend)
    → contents_of (delete path b).0 ≡ Map.remove (normalize_path path) (contents_of b)
unfolding delete contents_of
contents_of-deleted path b =
    let n = normalize_path path in
    elim (Option-cases (Map.get n b.files)) [
      | inl absent ↦
          let absent' : Map.get n (contents_of b) ≡ none =
            ground (arith, get-contents_of n b, absent) in
          rw (absent, delete) (sym (remove-absent n (contents_of b) absent'))
      | inr (f, there) ↦ rw (there, delete) (remove-map_values content_of n b.files)
    ]

pub contents_of-delete :
    (path : Str) (b : MemoryBackend)
    → IsPlain path
    → contents_of (delete path b).0 ≡ Map.remove path (contents_of b)
contents_of-delete path b plain =
    contents_of-deleted path b ∙ ap (λ n. Map.remove n (contents_of b)) (plain.0)

contents_of-renamed :
    (from to : Str) (b : MemoryBackend)
    → contents_of (rename from to b).0
      ≡ moved (normalize_path from) (normalize_path to) (contents_of b)
unfolding rename contents_of
contents_of-renamed from to b =
    let n = normalize_path from in
    let n' = normalize_path to in
    elim (Option-cases (Map.get n b.files)) [
      | inl absent ↦
          let absent' : Map.get n (contents_of b) ≡ none =
            ground (arith, get-contents_of n b, absent) in
          rw (absent, rename) (rw (absent', moved) refl)
      | inr (f, there) ↦
          let there' : Map.get n (contents_of b) ≡ some f.content =
            ground (arith, get-contents_of n b, there) in
          rw (there, rename)
            (rw (there', moved)
              (insert-map_values content_of n' f (Map.remove n b.files)
                ∙ ap (Map.insert n' f.content) (remove-map_values content_of n b.files)))
    ]

pub contents_of-rename :
    (from to : Str) (b : MemoryBackend)
    → IsPlain from
    → IsPlain to
    → contents_of (rename from to b).0 ≡ moved from to (contents_of b)
contents_of-rename from to b plain plain' =
    contents_of-renamed from to b
    ∙ ap (λ n. moved n (normalize_path to) (contents_of b)) (plain.0)
    ∙ ap (λ n. moved from n (contents_of b)) (plain'.0)
