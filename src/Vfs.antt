-- ===== src/Vfs.antt =====
-- crates/openfs-remote/src/vfs.rs: each operation goes to the backend of the mount of its path. A
-- mount has a number, for the pointer to its cached backend, which is what the code compares. What a
-- mount keeps for itself (its cache and its queue) is in `fronts`; mounts that name one backend share
-- its state in `raws`, and the operations of a mount work on the two. Listing, the construction from a
-- configuration and the reports on all mounts are not modelled.
pub mod Mounts
pub mod Replay
mod Tests
use open_fs.Prelude.{ℕ, Bool, true, false, Option, none, some, nat_eq, ◌==◌, if◌then◌else◌}
use open_fs.Prelude.Text.{Str}
use open_fs.Error.{VfsError, read_only, BackendError, from_backend, Result, ok, err, map_err}
use open_fs.Wal.{Bytes}
use open_fs.Router.{Router, resolve}
use open_fs.Cached.{Backend}

pub record Vfs {ℓ κ} (F : Type ℓ) (B : Type κ) : Type (ℓ ⊔ κ) where
  pub router : Router ℕ
  pub backend_of : ℕ → ℕ
  pub fronts : ℕ → F
  pub raws : ℕ → B

-- what the operations of a mount work on
abbrev pub state_of {ℓ κ} : {F : Type ℓ} {B : Type κ} → ℕ → Vfs F B → F × B
state_of i v = (v.fronts i, v.raws (v.backend_of i))

module _ {ℓ κ} {F : Type ℓ} {B : Type κ} (backend : Backend (F × B)) where
  abbrev pub set : ℕ → F × B → Vfs F B → Vfs F B
  set i (f, b) v = record v {
    fronts = λ j. if i == j then f else v.fronts j;
    raws = λ k. if v.backend_of i == k then b else v.raws k;
  }

  -- a call of the backend of a mount
  abbrev pub call {μ} :
      {A : Type μ}
      → ℕ
      → (F × B → (F × B) × Result BackendError A)
      → Vfs F B
      → Vfs F B × Result VfsError A
  call i f v = let (s, answer) = f (state_of i v) in (set i s v, map_err from_backend answer)

  -- an operation that changes a path
  abbrev pub changing {μ} :
      {A : Type μ}
      → Str
      → (Str → F × B → (F × B) × Result BackendError A)
      → Vfs F B
      → Vfs F B × Result VfsError A
  changing path f v = elim (resolve v.router path) [
    | err e ↦ (v, err e)
    | ok (i, relative, is_read_only) ↦
        if is_read_only then (v, err (read_only path)) else call i (f relative) v
  ]

  -- an operation that reads at a path
  abbrev pub reading {μ} :
      {A : Type μ} → Str → (Str → F × B → Result BackendError A) → Vfs F B → Result VfsError A
  reading path f v = elim (resolve v.router path) [
    | err e ↦ err e
    | ok (i, relative, _) ↦ map_err from_backend (f relative (state_of i v))
  ]

  unfoldable pub read : Str → Vfs F B → Result VfsError Bytes
  read path v = reading path backend.read v

  unfoldable pub read_with_cas_token : Str → Vfs F B → Result VfsError (Bytes × Option Str)
  read_with_cas_token path v = reading path backend.read_with_cas_token v

  unfoldable pub exists : Str → Vfs F B → Result VfsError Bool
  exists path v = reading path backend.exists v

  unfoldable pub write : Str → Bytes → Vfs F B → Vfs F B × Result VfsError (Unit {0})
  write path content v = changing path (λ relative. backend.write relative content) v

  unfoldable pub compare_and_swap :
      Str → Option Str → Bytes → Vfs F B → Vfs F B × Result VfsError (Option Str)
  compare_and_swap path expected content v =
      changing path (λ relative. backend.compare_and_swap relative expected content) v

  unfoldable pub append : Str → Bytes → Vfs F B → Vfs F B × Result VfsError (Unit {0})
  append path content v = changing path (λ relative. backend.append relative content) v

  unfoldable pub delete : Str → Vfs F B → Vfs F B × Result VfsError (Unit {0})
  delete path v = changing path backend.delete v

  -- the copy to the other mount, and then the delete
  abbrev delete_after :
      ℕ → Str → Vfs F B × Result VfsError (Unit {0}) → Vfs F B × Result VfsError (Unit {0})
  delete_after i from_relative (v, err e) = (v, err e)
  delete_after i from_relative (v, ok _) = call i (backend.delete from_relative) v

  unfoldable pub copy_and_delete :
      ℕ → Str → ℕ → Str → Vfs F B → Vfs F B × Result VfsError (Unit {0})
  copy_and_delete i from_relative j to_relative v =
      elim (backend.read from_relative (state_of i v)) [
        | err e ↦ (v, err (from_backend e))
        | ok content ↦ delete_after i from_relative (call j (backend.write to_relative content) v)
      ]

  abbrev rename_resolved :
      Str → Str → ℕ × Str × Bool → ℕ × Str × Bool → Vfs F B → Vfs F B × Result VfsError (Unit {0})
  rename_resolved from to (i, from_relative, from_read_only) (j, to_relative, to_read_only) v =
      if from_read_only
      then (v, err (read_only from))
      else if to_read_only
      then (v, err (read_only to))
      else if i == j
      then call i (backend.rename from_relative to_relative) v
      else copy_and_delete i from_relative j to_relative v

  unfoldable pub rename : Str → Str → Vfs F B → Vfs F B × Result VfsError (Unit {0})
  unfolding copy_and_delete
  rename from to v = elim (resolve v.router from) [
    | err e ↦ (v, err e)
    | ok f ↦ elim (resolve v.router to) [
      | err e ↦ (v, err e)
      | ok t ↦ rename_resolved from to f t v
    ]
  ]
