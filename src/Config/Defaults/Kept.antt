-- ===== src/Config/Defaults/Kept.antt =====
-- What the defaults of crates/openfs-config/src/defaults.rs keep: a configuration that has them, and one that is
-- accepted by crates/openfs-config/src/validation.rs.
use open_fs.Prelude.{
  ◌≡◌, refl, ap, Bool, true, false, not, Option, none, some, List, [], ◌∷◌, ◌++◌, map, arith,
  list_eq, nat_eq, eq_iff, Option-cases, inl, inr,
}
use open_fs.Prelude.Map
use open_fs.Prelude.Text.{Str}
use open_fs.Config.{BackendConfig, MountConfig, MountMode, IndexConfig, VfsConfig}
use open_fs.Config.Validation.{
  ConfigError, undefined_backend, errors_of, errors_in, when, check_backend, check_sync,
  check_parts, check_index, paths_of, validate, validate_chunk_config, validate_embedding_config,
  validate_watch_config, is_defined,
}
use open_fs.Config.Validation.Parts.{append_nil, validate-nil}
use open_fs.Config.Defaults.{
  or_else, single_backend, complete, effective, infer_indexing, index_by, infer_mode,
  derive_collection_name,
}

or_else_again : {A : Type 0} (a b : Option A) → or_else (or_else a b) b ≡ or_else a b
or_else_again none none = refl
or_else_again none (some y) = refl
or_else_again (some x) b = refl

or_else_twice :
    {A : Type 0} (a : Option A) (x y : A)
    → or_else (or_else a (some x)) (some y) ≡ or_else a (some x)
or_else_twice none x y = refl
or_else_twice (some z) x y = refl

or_else-some : {A : Type 0} (a b : Option A) (x : A) → a ≡ some x → or_else a b ≡ some x
or_else-some none b x h = ground arith
or_else-some (some y) b x h = h

or_else-there : {A : Type 0} (a : Option A) (y : A) → (x : A) × (or_else a (some y) ≡ some x)
or_else-there none y = (y, refl)
or_else-there (some x) y = (x, refl)

-- What a mount `m'` has of `m`, and that nothing which may be inferred is missing.
pub record Completed (m m' : MountConfig) : Type 0 where
  pub path : m'.path ≡ m.path
  pub read_only : m'.read_only ≡ m.read_only
  pub sync_config : m'.sync_config ≡ m.sync_config
  pub watch : m'.watch ≡ m.watch
  pub backend : (x : Str) → m.backend ≡ some x → m'.backend ≡ some x
  pub collection : (x : Str) → m.collection ≡ some x → m'.collection ≡ some x
  pub mode : (x : MountMode) → m.mode ≡ some x → m'.mode ≡ some x
  pub index : (x : IndexConfig) → m.index ≡ some x → m'.index ≡ some x
  pub has_collection : (x : Str) × (m'.collection ≡ some x)
  pub has_mode : (x : MountMode) × (m'.mode ≡ some x)
  pub has_index : (x : IndexConfig) × (m'.index ≡ some x)

abbrev pub AllCompleted : List MountConfig → List MountConfig → Type 0
AllCompleted [] [] = Unit {0}
AllCompleted [] (n ∷ ns) = ⊥
AllCompleted (m ∷ ms) [] = ⊥
AllCompleted (m ∷ ms) (n ∷ ns) = Completed m n × AllCompleted ms ns

module _ (to_lowercase : Str → Str) where
  complete-complete :
      (bs : Map.Map Str BackendConfig) (m : MountConfig)
      → complete to_lowercase bs (complete to_lowercase bs m) ≡ complete to_lowercase bs m
  unfolding complete
  complete-complete bs m =
      let backend = or_else m.backend (single_backend bs) in
      let name = derive_collection_name m.path in
      let mode = infer_mode backend m.read_only bs in
      let index = infer_indexing to_lowercase m.path in
      rw
        (
          or_else_again m.backend (single_backend bs),
          or_else_twice m.collection name name,
          or_else_twice m.mode mode mode,
          or_else_twice m.index index index,
        )
        refl

  map-complete :
      (bs : Map.Map Str BackendConfig) (ms : List MountConfig)
      → map (complete to_lowercase bs) (map (complete to_lowercase bs) ms)
        ≡ map (complete to_lowercase bs) ms
  map-complete bs [] = refl
  map-complete bs (m ∷ ms) = rw (complete-complete bs m, map-complete bs ms) refl

  complete-Completed :
      (bs : Map.Map Str BackendConfig) (m : MountConfig) → Completed m (complete to_lowercase bs m)
  unfolding complete
  complete-Completed bs m = record {
    path = refl;
    read_only = refl;
    sync_config = refl;
    watch = refl;
    backend = λ x h. or_else-some m.backend (single_backend bs) x h;
    collection = λ x h. or_else-some m.collection (some (derive_collection_name m.path)) x h;
    mode = λ x h.
        or_else-some m.mode
          (some (infer_mode (or_else m.backend (single_backend bs)) m.read_only bs)) x h;
    index = λ x h. or_else-some m.index (some (infer_indexing to_lowercase m.path)) x h;
    has_collection = or_else-there m.collection (derive_collection_name m.path);
    has_mode =
        or_else-there m.mode (infer_mode (or_else m.backend (single_backend bs)) m.read_only bs);
    has_index = or_else-there m.index (infer_indexing to_lowercase m.path);
  }

  map-AllCompleted :
      (bs : Map.Map Str BackendConfig) (ms : List MountConfig)
      → AllCompleted ms (map (complete to_lowercase bs) ms)
  map-AllCompleted bs [] = tt
  map-AllCompleted bs (m ∷ ms) = (complete-Completed bs m, map-AllCompleted bs ms)

  -- The defaults leave every mount where it was, with all that it has set, and with a collection, a
  -- mode and an index; they leave the backends and the defaults; and to apply them twice is to apply
  -- them once.
  pub effective-AllCompleted :
      (c : VfsConfig)
      → AllCompleted c.mounts (effective to_lowercase c).mounts
        × ((effective to_lowercase c).backends ≡ c.backends)
        × ((effective to_lowercase c).defaults ≡ c.defaults)
        × (effective to_lowercase (effective to_lowercase c) ≡ effective to_lowercase c)
  unfolding effective
  effective-AllCompleted c =
      (map-AllCompleted c.backends c.mounts, refl, refl, rw (map-complete c.backends c.mounts) refl)

-- What keeps the errors of each mount away keeps away those of all.
errors_of-map :
    {A : Type 0} (f : A → List ConfigError) (g : A → A)
    → ((a : A) → f a ≡ [] → f (g a) ≡ [])
    → (l : List A) → errors_of f l ≡ []
    → errors_of f (map g l) ≡ []
unfolding errors_of
errors_of-map f g keeps [] h = refl
errors_of-map f g keeps (x ∷ l) h =
    let parts = append_nil (f x) (errors_of f l) h in
    rw (keeps x (parts.0), errors_of-map f g keeps l (parts.1)) refl

single_backend-is_defined :
    (bs : Map.Map Str BackendConfig) (name : Str)
    → single_backend bs ≡ some name
    → is_defined name bs ≡ true
unfolding single_backend Map.get
single_backend-is_defined [] name h = ground arith
single_backend-is_defined ((k, b) ∷ []) name h = ground (arith, eq_iff k name)
single_backend-is_defined (x ∷ y ∷ bs) name h = ground arith

append_both : {A : Type 0} (xs ys : List A) → xs ≡ [] → ys ≡ [] → xs ++ ys ≡ []
append_both xs ys h k = rw (h, k) refl

errors_in-or_else :
    {A : Type 0} (f : A → List ConfigError) (a b : Option A)
    → errors_in f a ≡ []
    → errors_in f b ≡ []
    → errors_in f (or_else a b) ≡ []
errors_in-or_else f none b h k = k
errors_in-or_else f (some x) b h k = h

check_index-index_by :
    (context : Str) (code prose scratch : Bool)
    → check_index context (index_by code prose scratch) ≡ []
unfolding validate_chunk_config validate_embedding_config
check_index-index_by context true prose scratch = refl
check_index-index_by context false true scratch = refl
check_index-index_by context false false true = refl
check_index-index_by context false false false = refl

module _ (to_lowercase : Str → Str) (bs : Map.Map Str BackendConfig) where
  paths_of-complete :
      (ms : List MountConfig) → paths_of (map (complete to_lowercase bs) ms) ≡ paths_of ms
  unfolding paths_of complete
  paths_of-complete [] = refl
  paths_of-complete (m ∷ ms) = ap (λ ps. m.path ∷ ps) (paths_of-complete ms)

  -- The backend that is inferred is defined.
  check_backend-complete :
      (m : MountConfig)
      → check_backend bs m ≡ []
      → check_backend bs (complete to_lowercase bs m) ≡ []
  unfolding complete
  check_backend-complete m h =
      errors_in-or_else (λ name. when (not (is_defined name bs)) (undefined_backend name m.path))
        m.backend (single_backend bs) h
        (elim (Option-cases (single_backend bs)) [
          | inl several ↦ rw several refl
          | inr (name, one) ↦ rw (one, single_backend-is_defined bs name one) refl
        ])

  check_index-infer_indexing :
      (context path : Str) → check_index context (infer_indexing to_lowercase path) ≡ []
  unfolding infer_indexing
  check_index-infer_indexing context path = check_index-index_by context _ _ _

  check_parts-complete :
      (regex_error : Str → Option Str) (m : MountConfig)
      → check_parts regex_error m ≡ []
      → check_parts regex_error (complete to_lowercase bs m) ≡ []
  unfolding complete
  check_parts-complete regex_error m h =
      let watch = errors_in (validate_watch_config regex_error m.path) m.watch in
      let parts = append_nil (errors_in (check_index m.path) m.index) watch h in
      append_both
        (errors_in (check_index m.path)
          (or_else m.index (some (infer_indexing to_lowercase m.path))))
        watch
        (errors_in-or_else (check_index m.path) m.index (some (infer_indexing to_lowercase m.path))
          (parts.0) (check_index-infer_indexing m.path m.path))
        (parts.1)

module _ (to_lowercase : Str → Str) (regex_error : Str → Option Str) where
  -- A configuration without errors has none after the defaults are applied.
  pub validate-effective :
      (c : VfsConfig)
      → validate regex_error c ≡ []
      → validate regex_error (effective to_lowercase c) ≡ []
  unfolding validate effective complete
  validate-effective c h =
      let ms = c.mounts in
      let done = complete to_lowercase c.backends in
      let (p1, p2, p3, p4, p5, p6, p7, p8) = validate-nil regex_error c h in
      let backend' =
        errors_of-map (check_backend c.backends) done
          (check_backend-complete to_lowercase c.backends) ms p3 in
      let sync' = errors_of-map check_sync done (λ m e. e) ms p5 in
      let parts' =
        errors_of-map (check_parts regex_error) done
          (check_parts-complete to_lowercase c.backends regex_error) ms p7 in
      rw (paths_of-complete to_lowercase c.backends ms, p1, p2, p4, p6, p8, backend', sync', parts')
        refl
