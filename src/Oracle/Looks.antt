-- ===== src/Oracle/Looks.antt =====
-- What the looks at files of crates/openfs-remote/src/backends/memory.rs answer, in terms of the content that
-- the oracle of crates/openfs-sim/src/oracle.rs keeps.
use open_fs.Prelude.{
  ℕ, ◌≡◌, ◌⊎◌, refl, ◌∙◌, ap, Bool, true, false, Option, none, some, [], ◌∷◌, ◌++◌, map, any, arith,
  list_eq, nat_eq, Option-cases, Bool-cases, inl, inr, length,
}
use open_fs.Prelude.Map
use open_fs.Prelude.Text.{Str, slash, is_empty}
use open_fs.Error.{BackendError, Result, ok, err, not_found}
use open_fs.Wal.{Bytes}
use open_fs.Listing.{prefix_of, collect_entries, values, sort_entries}
use open_fs.Listing.Natural.{
  map_values, values-map_values, collect_entries-natural, sort_entries-natural,
}
use open_fs.Memory.{
  File, MemoryBackend, Entry, normalize_path, read, delete, rename, exists, stat, list, has_under,
  is_under, entry_file, entry_dir, base_name,
}
use open_fs.Oracle.{
  EntrySummary, normalize_rel, list_entries, exists_path, stat_entry, has_below, is_below,
  file_summary, dir_summary,
}
use open_fs.Oracle.Harness.{from_entry}
use open_fs.Oracle.Contents.{content_of, contents_of, IsPlain, get-contents_of}

has_below-map_values :
    (normalized : Str) (m : Map.Map Str File)
    → any (is_below (normalized ++ slash ∷ [])) (map_values content_of m)
      ≡ any (is_under (normalized ++ slash ∷ [])) m
unfolding map_values any
has_below-map_values normalized [] = refl
has_below-map_values normalized ((k, f) ∷ m) = rw (has_below-map_values normalized m) refl

pub has_below-contents_of :
    (normalized : Str) (b : MemoryBackend)
    → has_below (contents_of b) normalized ≡ has_under normalized b
unfolding contents_of
has_below-contents_of normalized b = has_below-map_values normalized b.files

is_empty-normalize_path : (path : Str) → IsPlain path → is_empty (normalize_path path) ≡ false
is_empty-normalize_path path plain = ap is_empty (plain.0) ∙ plain.1

pub exists_path-contents_of :
    (path : Str) (b : MemoryBackend)
    → IsPlain path
    → exists_path (contents_of b) path ≡ exists path b
unfolding exists exists_path normalize_rel normalize_path
exists_path-contents_of path b plain =
    let n = normalize_path path in
    let full = is_empty-normalize_path path plain in
    elim (Option-cases (Map.get n b.files)) [
      | inl absent ↦
          let absent' : Map.get n (contents_of b) ≡ none =
            ground (arith, get-contents_of n b, absent) in
          rw (full, absent, exists, absent') (has_below-contents_of n b)
      | inr (f, there) ↦
          let there' : Map.get n (contents_of b) ≡ some f.content =
            ground (arith, get-contents_of n b, there) in
          rw (full, there, exists, there') refl
    ]

-- The answers of a read, and of the changes of a file that must be there.
abbrev pub found {ℓ} : {A : Type ℓ} → Str → (Bytes → A) → Option Bytes → Result BackendError A
found path g none = err (not_found path)
found path g (some c) = ok (g c)

module _ (path : Str) (plain : IsPlain path) (b : MemoryBackend) where
  get-normalize_path :
      Map.get path (contents_of b)
      ≡ elim (Map.get (normalize_path path) b.files) [ none ↦ none | some f ↦ some f.content ]
  get-normalize_path = rw (plain.0) (get-contents_of path b)

  pub read-contents_of : read path b ≡ found path (λ c. c) (Map.get path (contents_of b))
  unfolding read
  read-contents_of = elim (Option-cases (Map.get (normalize_path path) b.files)) [
    | inl absent ↦ rw (get-normalize_path, absent, read) refl
    | inr (f, there) ↦ rw (get-normalize_path, there, read) refl
  ]

  pub delete-contents_of : (delete path b).1 ≡ found path (λ c. tt) (Map.get path (contents_of b))
  unfolding delete
  delete-contents_of = elim (Option-cases (Map.get (normalize_path path) b.files)) [
    | inl absent ↦ rw (get-normalize_path, absent, delete) refl
    | inr (f, there) ↦ rw (get-normalize_path, there, delete) refl
  ]

  pub rename-contents_of :
      (to : Str) → (rename path to b).1 ≡ found path (λ c. tt) (Map.get path (contents_of b))
  unfolding rename
  rename-contents_of to = elim (Option-cases (Map.get (normalize_path path) b.files)) [
    | inl absent ↦ rw (get-normalize_path, absent, rename) refl
    | inr (f, there) ↦ rw (get-normalize_path, there, rename) refl
  ]

abbrev pub summary_of : Result BackendError Entry → Option EntrySummary
summary_of (ok e) = some (from_entry e)
summary_of (err e) = none

pub stat_entry-contents_of :
    (path : Str) (b : MemoryBackend)
    → IsPlain path
    → stat_entry (contents_of b) path ≡ summary_of (stat path b)
unfolding stat stat_entry normalize_rel normalize_path
stat_entry-contents_of path b plain =
    let n = normalize_path path in
    let full = is_empty-normalize_path path plain in
    elim (Option-cases (Map.get n b.files)) [
      | inl absent ↦
          let absent' : Map.get n (contents_of b) ≡ none =
            ground (arith, get-contents_of n b, absent) in
          rw (full, absent, stat, absent', has_below-contents_of n b)
            (elim (Bool-cases (has_under n b)) [ inl e ↦ rw e refl | inr e ↦ rw e refl ])
      | inr (f, there) ↦
          let there' : Map.get n (contents_of b) ≡ some f.content =
            ground (arith, get-contents_of n b, there) in
          rw (full, there, stat, there') refl
    ]

abbrev entry_at : Str → Option ℕ → Bool → Option ℕ → Entry
entry_at n size is_dir modified = record {
  path = n;
  name = base_name n;
  is_dir = is_dir;
  size = size;
  modified = modified;
}

pub stat-cases :
    (path : Str) (b : MemoryBackend)
    → ((e : Entry) × (stat path b ≡ ok e)) ⊎ (stat path b ≡ err (not_found path))
unfolding stat
stat-cases path b =
    let n = normalize_path path in
    elim (Option-cases (Map.get n b.files)) [
      | inl absent ↦ elim (Bool-cases (has_under n b)) [
        | inl e ↦ inl (entry_at n none true none, rw (absent, stat) (rw e refl))
        | inr e ↦ inr (rw (absent, stat) (rw e refl))
      ]
      | inr (f, there) ↦
          inl (entry_at n (some (length f.content)) false (some f.mtime), rw (there, stat) refl)
    ]

pub list_entries-contents_of :
    (path : Str) (b : MemoryBackend)
    → list_entries (contents_of b) path
      ≡ elim (list path b) [ ok es ↦ map from_entry es | err e ↦ [] ]
unfolding list list_entries normalize_rel normalize_path contents_of
list_entries-contents_of path b =
    let prefix = prefix_of (normalize_path path) in
    let entries = collect_entries (entry_dir prefix) (entry_file prefix) prefix b.files [] in
    let is_dir : Entry → Bool = λ e. e.is_dir in
    let name : Entry → Str = λ e. e.name in
    let is_dir' : EntrySummary → Bool = λ e. e.is_dir in
    let name' : EntrySummary → Str = λ e. e.name in
    ap (λ es. sort_entries is_dir' name' (values es))
      (collect_entries-natural content_of from_entry (entry_dir prefix) (entry_file prefix)
        dir_summary file_summary (λ s. refl) (λ s f. refl) prefix b.files [])
    ∙ ap (sort_entries is_dir' name') (values-map_values from_entry entries)
    ∙ sort_entries-natural from_entry is_dir name is_dir' name' (λ e. refl) (λ e. refl)
        (values entries)
