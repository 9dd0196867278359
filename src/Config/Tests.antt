-- ===== src/Config/Tests.antt =====
-- A configuration of two mounts, one of which leaves all to the defaults.
use open_fs.Prelude.{
  arith, ◌≡◌, refl, false, Option, none, some, List, [], ◌∷◌, list_eq, nat_eq, any, list_beq, ◌==◌,
  if◌then◌else◌,
}
use open_fs.Prelude.Text.{Str, text, starts_with, strip_prefix, trim_end}
use open_fs.Config.{MountConfig, VfsConfig, fs, FsBackendConfig}
use open_fs.Config.Validation.{
  missing_env_vars, validate, duplicates, overlaps, overlap_of, errors_of, paths_of, normalize_path,
  overlapping_mount_paths,
}
use open_fs.Error.{ok, err}
use open_fs.Config.Files.{
  interpolate_env, interpolate_env_lem, substitute, replaced, missing, replace_from,
}
use open_fs.Config.Sizes.{from_str, display}
use open_fs.Config.Shown.{from_str-display}
use open_fs.Config.Defaults.{effective}
use open_fs.Router.{strip_mount_prefix, strip_normalized}
use open_fs.Config.Disjoint.{strip_mount_prefix-validate}
use open_fs.Config.Defaults.Kept.{AllCompleted, effective-AllCompleted, validate-effective}

abbrev to_lowercase : Str → Str
to_lowercase s = s

abbrev regex_error : Str → Option Str
regex_error pattern = none

abbrev mount_at : Str → MountConfig
mount_at path = record {
  path = path;
  backend = none;
  collection = none;
  mode = none;
  read_only = false;
  index = none;
  sync_config = none;
  watch = none;
}

abbrev backend_fs : FsBackendConfig
backend_fs = record { root = text "./data" }

abbrev config_of : List MountConfig → VfsConfig
config_of mounts = record {
  name = none;
  version = none;
  backends = (text "local", fs backend_fs) ∷ [];
  mounts = mounts;
  defaults = none;
}

abbrev two : VfsConfig
two = config_of (mount_at (text "/src") ∷ mount_at (text "/tmp") ∷ [])

two_valid : validate regex_error two ≡ []
unfolding validate duplicates overlaps overlap_of errors_of paths_of normalize_path any list_beq
    starts_with strip_prefix trim_end
two_valid = refl

effective-AllCompleted_example :
    AllCompleted two.mounts (effective to_lowercase two).mounts
    × ((effective to_lowercase two).backends ≡ two.backends)
    × ((effective to_lowercase two).defaults ≡ two.defaults)
    × (effective to_lowercase (effective to_lowercase two) ≡ effective to_lowercase two)
effective-AllCompleted_example = effective-AllCompleted to_lowercase two

validate-effective_example : validate regex_error (effective to_lowercase two) ≡ []
validate-effective_example = validate-effective to_lowercase regex_error two two_valid

-- One mount below another is refused.
nested :
    validate regex_error (config_of (mount_at (text "/a") ∷ mount_at (text "/a/b") ∷ []))
    ≡ overlapping_mount_paths (text "/a") (text "/a/b") ∷ []
unfolding validate duplicates overlaps overlap_of errors_of paths_of normalize_path any list_beq
    starts_with strip_prefix trim_end
nested = refl

-- One path with and without a slash at the end is accepted as two mounts.
slash_at_end :
    validate regex_error (config_of (mount_at (text "/a") ∷ mount_at (text "/a/") ∷ [])) ≡ []
unfolding validate duplicates overlaps overlap_of errors_of paths_of normalize_path any list_beq
    starts_with strip_prefix trim_end
slash_at_end = refl

strip_mount_prefix-validate_example : normalize_path (text "/a") ≡ normalize_path (text "/a/")
unfolding any list_beq paths_of starts_with strip_mount_prefix strip_normalized strip_prefix
    trim_end
strip_mount_prefix-validate_example =
    strip_mount_prefix-validate regex_error
      (config_of (mount_at (text "/a") ∷ mount_at (text "/a/") ∷ [])) (text "/a/x") (text "/a")
      (text "/a/") (text "x") (text "x") slash_at_end refl refl refl refl refl

-- The matches in "${A} ${B}".
abbrev two_variables : Str → List (Str × Str)
two_variables input = (text "${A}", text "A") ∷ (text "${B}", text "B") ∷ []

abbrev no_b : Str → Option Str
no_b name = if name == text "A" then some (text "${B}") else none

abbrev both : Str → Option Str
both name = if name == text "A" then some (text "${B}") else some (text "x")

interpolate_env_lem_example :
    interpolate_env two_variables no_b (text "${A} ${B}") ≡ err (missing_env_vars (text "B" ∷ []))
unfolding missing replaced list_beq
interpolate_env_lem_example = interpolate_env_lem two_variables no_b (text "${A} ${B}")

-- A value that looks like a variable is substituted in its turn.
value_substituted : interpolate_env two_variables both (text "${A} ${B}") ≡ ok (text "x x")
unfolding interpolate_env substitute replace_from strip_prefix list_beq
value_substituted = refl

from_str-display_example : from_str (display 1536) ≡ ok 1024
from_str-display_example = from_str-display 1536 (omega arith)
