-- ===== src/Config/Files.antt =====
-- crates/openfs-config/src/env.rs and migration.rs: what is done to the text of a configuration file before it is
-- parsed, and to the configuration after. The matches of the third-party regular expression, each with the name
-- in it, and the environment are parameters.
use open_fs.Prelude.{
  ℕ, zero, suc, ◌-◌, ◌≡◌, refl, sym, ◌∙◌, ap, Option, none, some, List, [], ◌∷◌, ◌++◌, length,
  list_eq, nat_eq, ◌==◌, if◌then◌else◌, Option-cases, inl, inr,
}
use open_fs.Prelude.Text.{Str, text, is_empty, has_prefix}
use open_fs.Error.{Result, ok, err}
use open_fs.Config.{VfsConfig}
use open_fs.Config.Validation.{ConfigError, missing_env_vars, invalid_config}

-- `str::replace`, within a match that has `skip` bytes left
unfoldable pub replace_from : Str → Str → ℕ → Str → Str
replace_from part to skip [] = []
replace_from part to (suc skip) (x ∷ s) = replace_from part to skip s
replace_from part to zero (x ∷ s) =
    let here = replace_from part to (length part - 1) s in
    let on = replace_from part to zero s in if has_prefix part (x ∷ s) then to ++ here else x ∷ on

module _ (captures : Str → List (Str × Str)) (var : Str → Option Str) where
  -- the loop over the matches
  unfoldable pub substitute : List (Str × Str) → Str → List Str → Str × List Str
  unfolding replace_from
  substitute [] result errors = (result, errors)
  substitute ((full_match, var_name) ∷ matches) result errors = elim (var var_name) [
    | some value ↦ substitute matches (replace_from full_match value 0 result) errors
    | none ↦ substitute matches result (errors ++ var_name ∷ [])
  ]

  abbrev answer : Str × List Str → Result ConfigError Str
  answer (result, errors) = if is_empty errors then ok result else err (missing_env_vars errors)

  unfoldable pub interpolate_env : Str → Result ConfigError Str
  unfolding substitute
  interpolate_env input = answer (substitute (captures input) input [])

  -- The names that the environment does not have.
  unfoldable pub missing : List (Str × Str) → List Str
  missing [] = []
  missing ((full_match, var_name) ∷ matches) =
      let rest = missing matches in elim (var var_name) [ none ↦ var_name ∷ rest | some _ ↦ rest ]

  -- The text after the replacements that can be made.
  unfoldable pub replaced : List (Str × Str) → Str → Str
  unfolding replace_from
  replaced [] result = result
  replaced ((full_match, var_name) ∷ matches) result = elim (var var_name) [
    | none ↦ replaced matches result
    | some value ↦ replaced matches (replace_from full_match value 0 result)
  ]

  append_assoc : (xs : List Str) (y : Str) (ys : List Str) → (xs ++ y ∷ []) ++ ys ≡ xs ++ y ∷ ys
  append_assoc [] y ys = refl
  append_assoc (x ∷ xs) y ys = ap (λ l. x ∷ l) (append_assoc xs y ys)

  append_none : (xs : List Str) → xs ++ [] ≡ xs
  append_none [] = refl
  append_none (x ∷ xs) = ap (λ l. x ∷ l) (append_none xs)

  substitute-replaced :
      (matches : List (Str × Str)) (result : Str) (errors : List Str)
      → substitute matches result errors ≡ (replaced matches result, errors ++ missing matches)
  unfolding substitute replaced missing
  substitute-replaced [] result errors = ap (λ l. (result, l)) (sym (append_none errors))
  substitute-replaced ((full_match, var_name) ∷ matches) result errors =
      elim (Option-cases (var var_name)) [
        | inl absent ↦
            rw (absent, substitute, replaced, missing)
              (substitute-replaced matches result (errors ++ var_name ∷ [])
                ∙ ap (λ l. (replaced matches result, l))
                    (append_assoc errors var_name (missing matches)))
        | inr (value, there) ↦
            rw (there, substitute, replaced, missing)
              (substitute-replaced matches (replace_from full_match value 0 result) errors)
      ]

  -- Substitution fails exactly if the environment lacks a variable of the text, and then names all that it lacks,
  -- in their order; otherwise every match has been replaced, one after the other.
  pub interpolate_env_lem :
      (input : Str)
      → interpolate_env input ≡ (
          if is_empty (missing (captures input))
          then ok (replaced (captures input) input)
          else err (missing_env_vars (missing (captures input))))
  unfolding interpolate_env
  interpolate_env_lem input = ap answer (substitute-replaced (captures input) input [])

-- `CURRENT_VERSION`
abbrev pub current_version : Str
current_version = text "0.2"

unfoldable pub detect_version : VfsConfig → Str
detect_version config = elim config.version [ none ↦ text "0.1" | some v ↦ v ]

abbrev pub migrate_0_1_to_0_2 : VfsConfig → VfsConfig
migrate_0_1_to_0_2 config = record config { version = some current_version }

unfoldable pub migrate : VfsConfig → Result ConfigError VfsConfig
unfolding detect_version
migrate config =
    let version = detect_version config in
    if version == text "0.1"
    then ok (migrate_0_1_to_0_2 config)
    else if version == current_version
    then ok config
    else err (
        invalid_config (
          text "Unknown config version '"
          ++ version
          ++ text "'. Supported versions: 0.1, "
          ++ current_version))
