-- ===== src/Memory.antt =====
-- crates/openfs-remote/src/backends/memory.rs: the backend that keeps its files in a map. What
-- `Utc::now` reads is an argument.
pub mod Files
pub mod Swap
mod Tests
use open_fs.Prelude.{
  ℕ, ◌+◌, ◌-◌, ◌^◌, min, Bool, true, false, not, ◌||◌, Option, none, some, List, [], ◌∷◌, ◌++◌,
  length, any, list_eq, nat_eq, ◌==◌, if◌then◌else◌,
}
use open_fs.Prelude.Decimal.{to_string}
use open_fs.Prelude.Map
use open_fs.Listing.{prefix_of, collect_entries, values, sort_entries}
use open_fs.Prelude.Text.{Str, slash, text, trim, split, strip_prefix}
use open_fs.Error.{BackendError, not_found, precondition_failed, Result, ok, err}
use open_fs.Wal.{Bytes}

pub record File : Type 0 where
  pub content : Bytes
  pub mtime : ℕ
  pub version : ℕ

pub record MemoryBackend : Type 0 where
  pub files : Map.Map Str File

abbrev pub new : MemoryBackend
new = record { files = [] }

-- crates/openfs-core/src/traits.rs
pub record Entry : Type 0 where
  pub path : Str
  pub name : Str
  pub is_dir : Bool
  pub size : Option ℕ
  pub modified : Option ℕ

-- `trim_matches('/')`
unfoldable pub normalize_path : Str → Str
normalize_path path = trim slash path

-- `saturating_add(1)` on u64
abbrev pub next_version : ℕ → ℕ
next_version v = min (v + 1) (2 ^ 64 - 1)

abbrev pub Answer : Type 0 → Type 0
Answer A = MemoryBackend × Result BackendError A

abbrev pub put : Str → File → MemoryBackend → MemoryBackend
put normalized f b = record { files = Map.insert normalized f b.files }

unfoldable pub read : Str → MemoryBackend → Result BackendError Bytes
unfolding normalize_path
read path b = elim (Map.get (normalize_path path) b.files) [
  | none ↦ err (not_found path)
  | some f ↦ ok f.content
]

unfoldable pub read_with_cas_token : Str → MemoryBackend → Result BackendError (Bytes × Option Str)
unfolding normalize_path
read_with_cas_token path b = elim (Map.get (normalize_path path) b.files) [
  | none ↦ err (not_found path)
  | some f ↦ ok (f.content, some (to_string f.version))
]

abbrev pub version_after : Option File → ℕ
version_after none = 1
version_after (some f) = next_version f.version

unfoldable pub write : ℕ → Str → Bytes → MemoryBackend → Answer (Unit {0})
unfolding normalize_path
write now path content b =
    let normalized = normalize_path path in
    let version = version_after (Map.get normalized b.files) in
    (put normalized (record { content = content; mtime = now; version = version }) b, ok tt)

-- the guards of `compare_and_swap`
unfoldable pub precondition : Str → Option Str → Option File → Result BackendError (Unit {0})
precondition path none current = ok tt
precondition path (some expected) none = err (precondition_failed path expected (text "absent"))
precondition path (some expected) (some f) =
    if expected == to_string f.version
    then ok tt
    else err (precondition_failed path expected (to_string f.version))

unfoldable pub compare_and_swap : ℕ → Str → Option Str → Bytes → MemoryBackend → Answer (Option Str)
unfolding normalize_path precondition
compare_and_swap now path expected content b =
    let normalized = normalize_path path in
    let current = Map.get normalized b.files in
    let version = version_after current in
    elim (precondition path expected current) [
      | err e ↦ (b, err e)
      | ok _ ↦ (
        put normalized (record { content = content; mtime = now; version = version }) b,
        ok (some (to_string version)),
      )
    ]

-- The file of `entry(…).or_insert_with(…)`.
abbrev pub or_empty : ℕ → Option File → File
or_empty now none = record { content = []; mtime = now; version = 0 }
or_empty now (some f) = f

unfoldable pub append : ℕ → Str → Bytes → MemoryBackend → Answer (Unit {0})
unfolding normalize_path
append now path content b =
    let normalized = normalize_path path in
    let f = or_empty now (Map.get normalized b.files) in
    (
      put normalized
          (record { content = f.content ++ content; mtime = now; version = next_version f.version })
          b,
      ok tt,
    )

unfoldable pub delete : Str → MemoryBackend → Answer (Unit {0})
unfolding normalize_path
delete path b =
    let normalized = normalize_path path in
    elim (Map.get normalized b.files) [
      | none ↦ (b, err (not_found path))
      | some f ↦ (record { files = Map.remove normalized b.files }, ok tt)
    ]

unfoldable pub rename : Str → Str → MemoryBackend → Answer (Unit {0})
unfolding normalize_path
rename from to b = elim (Map.get (normalize_path from) b.files) [
  | none ↦ (b, err (not_found from))
  | some f ↦ (
    record { files = Map.insert (normalize_path to) f (Map.remove (normalize_path from) b.files) },
    ok tt,
  )
]

-- `k.starts_with(&dir_prefix)` for a key
abbrev pub is_under : Str → Str × File → Bool
is_under dir_prefix (k, f) = elim (strip_prefix dir_prefix k) [ none ↦ false | some _ ↦ true ]

abbrev pub has_under : Str → MemoryBackend → Bool
has_under normalized b = any (is_under (normalized ++ slash ∷ [])) b.files

unfoldable pub exists : Str → MemoryBackend → Bool
unfolding normalize_path
exists path b =
    let normalized = normalize_path path in
    elim (Map.get normalized b.files) [ none ↦ has_under normalized b | some _ ↦ true ]

-- the last component: `rsplit('/').next()`
unfoldable pub last_of : Str → List Str → Str
last_of x [] = x
last_of x (y ∷ ys) = last_of y ys

abbrev pub base_name : Str → Str
base_name path = last_of [] (split slash path)

unfoldable pub stat : Str → MemoryBackend → Result BackendError Entry
unfolding normalize_path
stat path b =
    let normalized = normalize_path path in
    elim (Map.get normalized b.files) [
      | some f ↦ ok (record {
        path = normalized;
        name = base_name normalized;
        is_dir = false;
        size = some (length f.content);
        modified = some f.mtime;
      })
      | none ↦
          if has_under normalized b
          then ok (record {
            path = normalized;
            name = base_name normalized;
            is_dir = true;
            size = none;
            modified = none;
          })
          else err (not_found path)
    ]

abbrev pub entry_file : Str → Str → File → Entry
entry_file prefix name f = record {
  path = prefix ++ name;
  name = name;
  is_dir = false;
  size = some (length f.content);
  modified = some f.mtime;
}

abbrev pub entry_dir : Str → Str → Entry
entry_dir prefix name = record {
  path = prefix ++ name;
  name = name;
  is_dir = true;
  size = none;
  modified = none;
}

unfoldable pub list : Str → MemoryBackend → Result BackendError (List Entry)
unfolding normalize_path collect_entries sort_entries values
list path b =
    let prefix = prefix_of (normalize_path path) in
    ok (
      sort_entries (λ (e : Entry). e.is_dir) (λ e. e.name)
        (values (collect_entries (entry_dir prefix) (entry_file prefix) prefix b.files [])))
