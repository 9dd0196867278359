-- ===== src/Listing.antt =====
-- The entries of a directory in a map of files: the loop and the order that `list` of
-- crates/openfs-remote/src/backends/memory.rs and `list_entries` of crates/openfs-sim/src/oracle.rs have
-- in common. They differ in what stands for a file and in what an entry is.
pub mod Natural
use open_fs.Prelude.{
  ℕ, Bool, true, false, ◌&&◌, ◌||◌, Option, none, some, List, [], ◌∷◌, ◌++◌, any, ltb, list_eq,
  nat_eq, ◌==◌, if◌then◌else◌,
}
use open_fs.Prelude.Map
use open_fs.Prelude.Text.{Str, slash, is_empty, split, strip_prefix}

-- the prefix of the paths below a normalized directory; the root has none
abbrev pub prefix_of : Str → Str
prefix_of normalized = if is_empty normalized then [] else normalized ++ slash ∷ []

abbrev first_of : List Str → Str
first_of [] = []
first_of (w ∷ ws) = w

-- `relative.split('/').next().unwrap()`
unfoldable pub first_component : Str → Str
first_component relative = first_of (split slash relative)

unfoldable pub has_slash : Str → Bool
has_slash relative = any (λ c. c == slash) relative

module _ {ℓ κ} {V : Type ℓ} {E : Type κ} (dir : Str → E) (file : Str → V → E) where
  -- `entry(…).or_insert_with(…)`
  abbrev pub or_insert : Str → Map.Map Str E → Map.Map Str E
  or_insert name entries = elim (Map.get name entries) [
    | none ↦ Map.insert name (dir name) entries
    | some e ↦ entries
  ]

  abbrev pub add_relative : Str → V → Map.Map Str E → Map.Map Str E
  add_relative relative v entries =
      if is_empty relative
      then entries
      else if has_slash relative
      then or_insert (first_component relative) entries
      else Map.insert (first_component relative) (file (first_component relative) v) entries

  unfoldable pub add_file : Str → Str → V → Map.Map Str E → Map.Map Str E
  add_file prefix path v entries = elim (strip_prefix prefix path) [
    | none ↦ entries
    | some relative ↦ add_relative relative v entries
  ]

  unfoldable pub collect_entries : Str → Map.Map Str V → Map.Map Str E → Map.Map Str E
  unfolding add_file
  collect_entries prefix [] entries = entries
  collect_entries prefix ((path, v) ∷ files) entries =
      collect_entries prefix files (add_file prefix path v entries)

unfoldable pub values {ℓ} : {E : Type ℓ} → Map.Map Str E → List E
values [] = []
values ((k, e) ∷ m) = e ∷ values m

-- `str::cmp` on bytes
unfoldable pub str_leb : Str → Str → Bool
str_leb [] t = true
str_leb (x ∷ s) [] = false
str_leb (x ∷ s) (y ∷ t) = let rest = str_leb s t in ltb x y || (x == y && rest)

-- directories first, and then by name
abbrev pub entry_leb : Bool → Str → Bool → Str → Bool
entry_leb true s false t = true
entry_leb false s true t = false
entry_leb true s true t = str_leb s t
entry_leb false s false t = str_leb s t

module _ {ℓ} {E : Type ℓ} (is_dir : E → Bool) (name : E → Str) where
  unfoldable pub insert_entry : E → List E → List E
  unfolding str_leb
  insert_entry e [] = e ∷ []
  insert_entry e (x ∷ xs) =
      if entry_leb (is_dir e) (name e) (is_dir x) (name x)
      then e ∷ x ∷ xs
      else x ∷ insert_entry e xs

  unfoldable pub sort_entries : List E → List E
  unfolding insert_entry
  sort_entries [] = []
  sort_entries (e ∷ es) = insert_entry e (sort_entries es)
