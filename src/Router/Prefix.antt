-- ===== src/Router/Prefix.antt =====
-- What `normalize_path` and `strip_mount_prefix` compute (crates/openfs-remote/src/router.rs).
use open_fs.Prelude.{
  ℕ, ◌≡◌, ◌≢◌, refl, ◌⊎◌, ◌↔◌, inl, inr, true, some, [], ◌∷◌, ◌++◌, arith, nat_eq, list_eq, eq_iff,
  Option-cases,
}
use open_fs.Prelude.Text.{Str, slash, starts_with, ends_with, pop, strip_prefix, trim_end}
use open_fs.Router.{normalize_path, strip_normalized, strip_mount_prefix}

strip_prefix_sound : (p s r : Str) → strip_prefix p s ≡ some r → s ≡ p ++ r
unfolding strip_prefix
strip_prefix_sound [] s r h = ground arith
strip_prefix_sound (x ∷ p) [] r h = cc
strip_prefix_sound (x ∷ p) (y ∷ s) r h = ground (arith, strip_prefix_sound p s r)

strip_prefix-append : (p r : Str) → strip_prefix p (p ++ r) ≡ some r
unfolding strip_prefix
strip_prefix-append [] r = refl
strip_prefix-append (x ∷ p) r = ground (arith, strip_prefix-append p r)

pub starts_with-normalize_path : (p : Str) → starts_with slash (normalize_path p) ≡ true
unfolding normalize_path starts_with ends_with pop
starts_with-normalize_path [] = refl
starts_with-normalize_path (x ∷ []) = ground arith
starts_with-normalize_path (x ∷ y ∷ p) = ground arith

trim_end-ne-slash : (m : Str) → trim_end slash m ≢ slash ∷ []
unfolding trim_end
trim_end-ne-slash [] h = cc
trim_end-ne-slash (x ∷ m) h = ground (arith, trim_end-ne-slash m)

-- The path lies at the mount point, or below it at `relative`.
abbrev pub LiesAt : Str → Str → Str → Type 0
LiesAt path mount relative = ((path ≡ mount) × (relative ≡ [])) ⊎ (path ≡ mount ++ slash ∷ relative)

strip_normalized-LiesAt :
    (path mount relative : Str)
    → starts_with slash path ≡ true
    → mount ≢ slash ∷ []
    → strip_normalized path mount ≡ some relative
    → LiesAt path mount relative
unfolding strip_normalized starts_with
strip_normalized-LiesAt [] mount relative h ne e = cc
strip_normalized-LiesAt (x ∷ p) [] relative h ne e =
    unfold strip_prefix in ground (arith, eq_iff (x ∷ p) [])
strip_normalized-LiesAt (x ∷ p) (m ∷ ms) relative h ne e =
    elim (Option-cases (strip_prefix (m ∷ ms) (x ∷ p))) [
      | inl miss ↦ ground (arith, eq_iff (x ∷ p) (m ∷ ms), eq_iff (m ∷ ms) (slash ∷ []))
      | inr (suffix, hit) ↦ ground (
        arith,
        eq_iff (x ∷ p) (m ∷ ms),
        eq_iff (m ∷ ms) (slash ∷ []),
        strip_prefix_sound (m ∷ ms) (x ∷ p) suffix,
        strip_prefix_sound (slash ∷ []) suffix relative,
      )
    ]

append-ne : (m : Str) (x : ℕ) (r : Str) → m ++ x ∷ r ≢ m
append-ne [] x r h = cc
append-ne (y ∷ m) x r h = append-ne m x r (ground arith)

LiesAt-strip_normalized :
    (path mount relative : Str)
    → LiesAt path mount relative
    → strip_normalized path mount ≡ some relative
unfolding strip_normalized
LiesAt-strip_normalized path mount relative (inl (here, root)) = ground (arith, eq_iff path mount)
LiesAt-strip_normalized path mount relative (inr under) = ground (
  arith,
  eq_iff path mount,
  append-ne mount slash relative,
  strip_prefix-append mount (slash ∷ relative),
  strip_prefix-append (slash ∷ []) relative,
)

-- On an absolute path `strip_mount_prefix` finds the relative path exactly if the path is the mount
-- point, with nothing left, or continues it by a slash and the relative path.
pub strip_mount_prefix_iff :
    (path mount_path relative : Str)
    → starts_with slash path ≡ true
    → (strip_mount_prefix path mount_path ≡ some relative)
      ↔ LiesAt path (trim_end slash mount_path) relative
unfolding strip_mount_prefix
strip_mount_prefix_iff path mount_path relative h = (
  strip_normalized-LiesAt path (trim_end slash mount_path) relative h
      (trim_end-ne-slash mount_path),
  LiesAt-strip_normalized path (trim_end slash mount_path) relative,
)
