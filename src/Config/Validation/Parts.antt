-- ===== src/Config/Validation/Parts.antt =====
-- What it means for each check of crates/openfs-config/src/validation.rs that there are no errors.
use open_fs.Prelude.{◌≡◌, refl, List, [], ◌∷◌, ◌++◌, Option, arith}
use open_fs.Prelude.Text.{Str}
use open_fs.Config.{VfsConfig}
use open_fs.Config.Validation.{
  duplicates, errors_of, errors_in, check_absolute, check_backend, overlaps, check_sync,
  validate_backend, check_parts, check_defaults, paths_of, validate,
}

pub append_nil : {A : Type 0} (xs ys : List A) → xs ++ ys ≡ [] → (xs ≡ []) × (ys ≡ [])
append_nil [] ys h = (refl, h)
append_nil (x ∷ xs) ys h = ground arith

pub validate-nil :
    (regex_error : Str → Option Str) (c : VfsConfig)
    → validate regex_error c ≡ []
    → (duplicates [] (paths_of c.mounts) ≡ [])
      × (errors_of check_absolute (paths_of c.mounts) ≡ [])
      × (errors_of (check_backend c.backends) c.mounts ≡ [])
      × (overlaps [] (paths_of c.mounts) ≡ [])
      × (errors_of check_sync c.mounts ≡ [])
      × (errors_of validate_backend c.backends ≡ [])
      × (errors_of (check_parts regex_error) c.mounts ≡ [])
      × (errors_in (check_defaults regex_error) c.defaults ≡ [])
unfolding validate
validate-nil regex_error c h =
    let ps = paths_of c.mounts in
    let ms = c.mounts in
    let l2 = duplicates [] ps ++ errors_of check_absolute ps in
    let l3 = l2 ++ errors_of (check_backend c.backends) ms in
    let l4 = l3 ++ overlaps [] ps in
    let l5 = l4 ++ errors_of check_sync ms in
    let l6 = l5 ++ errors_of validate_backend c.backends in
    let l7 = l6 ++ errors_of (check_parts regex_error) ms in
    let p7 = append_nil l7 (errors_in (check_defaults regex_error) c.defaults) h in
    let p6 = append_nil l6 (errors_of (check_parts regex_error) ms) (p7.0) in
    let p5 = append_nil l5 (errors_of validate_backend c.backends) (p6.0) in
    let p4 = append_nil l4 (errors_of check_sync ms) (p5.0) in
    let p3 = append_nil l3 (overlaps [] ps) (p4.0) in
    let p2 = append_nil l2 (errors_of (check_backend c.backends) ms) (p3.0) in
    let p1 = append_nil (duplicates [] ps) (errors_of check_absolute ps) (p2.0) in
    (p1.0, p1.1, p2.1, p3.1, p4.1, p5.1, p6.1, p7.1)
