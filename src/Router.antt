-- ===== src/Router.antt =====
-- crates/openfs-remote/src/router.rs: which mount serves a path, and the path within it.
pub mod Prefix
pub mod Resolve
mod Tests
use open_fs.Prelude.{
  ℕ, Bool, ◌&&◌, ◌||◌, Option, none, some, List, [], ◌∷◌, length, ltb, leb, nat_eq, list_eq, ◌==◌,
  if◌then◌else◌,
}
use open_fs.Prelude.Text.{
  Str, slash, is_empty, starts_with, ends_with, pop, strip_prefix, trim_start, trim_end,
}
use open_fs.Error.{VfsError, no_mount, Result, ok, err}

pub record Mount {ℓ} (B : Type ℓ) : Type ℓ where
  pub path : Str
  pub backend : B
  pub read_only : Bool

pub record Router {ℓ} (B : Type ℓ) : Type ℓ where
  pub mounts : List (Mount B)

unfoldable pub normalize_path : Str → Str
normalize_path path =
    let normalized = if starts_with slash path then path else slash ∷ path in
    if ltb 1 (length normalized) && ends_with slash normalized then pop normalized else normalized

-- "Special case: root mount"
abbrev pub root_mount : Str → Str → Option Str
root_mount path mount =
    if is_empty mount || mount == slash ∷ [] then some (trim_start slash path) else none

-- `strip_mount_prefix` for a mount path that is trimmed
unfoldable pub strip_normalized : Str → Str → Option Str
strip_normalized path mount = if path == mount then some [] else elim (strip_prefix mount path) [
  | none ↦ root_mount path mount
  | some suffix ↦ elim (strip_prefix (slash ∷ []) suffix) [
    | none ↦ root_mount path mount
    | some relative ↦ some relative
  ]
]

unfoldable pub strip_mount_prefix : Str → Str → Option Str
unfolding strip_normalized
strip_mount_prefix path mount_path = strip_normalized path (trim_end slash mount_path)

module _ {ℓ} {B : Type ℓ} where
  -- `sort_by` is stable: among paths of one length the earlier mount stays in front.
  unfoldable pub insert_sorted : Mount B → List (Mount B) → List (Mount B)
  insert_sorted m [] = m ∷ []
  insert_sorted m (n ∷ ns) =
      if leb (length n.path) (length m.path) then m ∷ n ∷ ns else n ∷ insert_sorted m ns

  unfoldable pub sort_mounts : List (Mount B) → List (Mount B)
  sort_mounts [] = []
  sort_mounts (m ∷ ms) = insert_sorted m (sort_mounts ms)

  unfoldable pub new : List (Mount B) → Router B
  unfolding insert_sorted sort_mounts
  new mounts = record { mounts = sort_mounts mounts }

  -- the loop of `resolve` and the `find` of `get_mount`: the first mount that fits
  unfoldable pub first_match : Str → List (Mount B) → Option (Mount B × Str)
  first_match path [] = none
  first_match path (m ∷ ms) = elim (strip_mount_prefix path m.path) [
    | none ↦ first_match path ms
    | some relative ↦ some (m, relative)
  ]

  unfoldable pub resolve : Router B → Str → Result VfsError (B × Str × Bool)
  unfolding first_match
  resolve r path = elim (first_match (normalize_path path) r.mounts) [
    | none ↦ err (no_mount path)
    | some (m, relative) ↦ ok (m.backend, relative, m.read_only)
  ]

  unfoldable pub get_mount : Router B → Str → Option (Mount B)
  unfolding first_match
  get_mount r path = elim (first_match (normalize_path path) r.mounts) [
    | none ↦ none
    | some (m, _) ↦ some m
  ]
