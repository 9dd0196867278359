-- ===== src/Config/Disjoint.antt =====
-- The mounts of a configuration that crates/openfs-config/src/validation.rs accepts, under the resolution of
-- crates/openfs-remote/src/router.rs.
use open_fs.Prelude.{
  ◌≡◌, ◌⊎◌, inl, inr, refl, sym, ◌∙◌, ap, Bool, true, false, ◌||◌, Option, some, List, [], ◌∷◌,
  ◌++◌, any, arith, list_eq, nat_eq, ◌==◌, eq_iff, Bool-cases,
}
use open_fs.Prelude.Text.{Str, slash, has_prefix, strip_prefix, starts_with}
use open_fs.Router.{strip_mount_prefix}
use open_fs.Router.Prefix.{LiesAt, strip_mount_prefix_iff}
use open_fs.Config.{VfsConfig}
use open_fs.Config.Validation.{
  ConfigError, errors_of, overlap_of, overlaps, normalize_path, paths_of, validate,
}
use open_fs.Config.Validation.Parts.{append_nil, validate-nil}

abbrev has : Str → List Str → Bool
has a ps = any (λ p. p == a) ps

has-append : (a : Str) (ps qs : List Str) → has a (ps ++ qs) ≡ (has a ps || has a qs)
unfolding any
has-append a [] qs = refl
has-append a (p ∷ ps) qs = ground (arith, has-append a ps qs)

errors_of-nil :
    (f : Str → List ConfigError) (b : Str) (ps : List Str)
    → errors_of f ps ≡ []
    → has b ps ≡ true
    → f b ≡ []
unfolding errors_of any
errors_of-nil f b [] h there = ground arith
errors_of-nil f b (p ∷ ps) h there =
    let parts = append_nil (f p) (errors_of f ps) h in
    elim (Bool-cases (p == b)) [
      | inl e ↦ ap f (sym ((eq_iff p b).0 e)) ∙ parts.0
      | inr e ↦ errors_of-nil f b ps (parts.1) (ground (arith, e, there))
    ]

-- Without errors no path is below another one of the list.
overlaps-nil :
    (a b : Str) (before after : List Str)
    → overlaps before after ≡ []
    → has a after ≡ true
    → has b (before ++ after) ≡ true
    → (a == b) ≡ false
    → overlap_of a b ≡ []
unfolding overlaps any
overlaps-nil a b before [] h at bt ne = ground arith
overlaps-nil a b before (x ∷ after) h at bt ne =
    let parts =
      append_nil (errors_of (overlap_of x) (before ++ after)) (overlaps (before ++ x ∷ []) after)
        h in
    elim (Bool-cases (x == a)) [
      | inl e ↦
          let there : has b (before ++ after) ≡ true = ground (
            arith,
            has-append b before (x ∷ after),
            has-append b before after,
            eq_iff x a,
            eq_iff a b,
            eq_iff x b,
            bt,
            e,
            ne,
          ) in
          ap (λ z. overlap_of z b) (sym ((eq_iff x a).0 e))
          ∙ errors_of-nil (overlap_of x) b (before ++ after) (parts.0) there
      | inr e ↦
          overlaps-nil a b (before ++ x ∷ []) after (parts.1) (ground (arith, e, at))
            (ground (
              arith,
              has-append b before (x ∷ after),
              has-append b (before ++ x ∷ []) after,
              has-append b before (x ∷ []),
              bt,
            ))
            ne
    ]

-- Two prefixes of a path that end where a slash follows: they are one, or one is below the other.
prefixes-cases :
    (a b r s : Str)
    → a ++ slash ∷ r ≡ b ++ slash ∷ s
    → (a ≡ b) ⊎ ((has_prefix (a ++ slash ∷ []) b ≡ true) ⊎ (has_prefix (b ++ slash ∷ []) a ≡ true))
unfolding strip_prefix
prefixes-cases [] [] r s h = inl refl
prefixes-cases [] (y ∷ b) r s h =
    let head : slash ≡ y = ground (arith, h) in inr (inl (ground (arith, head)))
prefixes-cases (x ∷ a) [] r s h =
    let head : slash ≡ x = ground (arith, h) in inr (inr (ground (arith, head)))
prefixes-cases (x ∷ a) (y ∷ b) r s h =
    let head : x ≡ y = ground (arith, h) in
    let tail : a ++ slash ∷ r ≡ b ++ slash ∷ s = ground (arith, h) in
    elim (prefixes-cases a b r s tail) [
      | inl e ↦ inl (rw (head, e) refl)
      | inr (inl below) ↦ inr (inl (ground (arith, head, below)))
      | inr (inr below) ↦ inr (inr (ground (arith, head, below)))
    ]

-- A text that goes on after a slash is below the text before the slash.
below-append : (a r : Str) → has_prefix (a ++ slash ∷ []) (a ++ slash ∷ r) ≡ true
unfolding strip_prefix
below-append [] r = ground arith
below-append (x ∷ a) r = ground (arith, below-append a r)

overlap_of-below :
    (a b : Str)
    → overlap_of a b ≡ []
    → has_prefix (normalize_path a ++ slash ∷ []) (normalize_path b) ≡ false
unfolding overlap_of
overlap_of-below a b h =
    elim (Bool-cases (has_prefix (normalize_path a ++ slash ∷ []) (normalize_path b))) [
      | inl below ↦ ground (arith, below, h)
      | inr apart ↦ apart
    ]

-- On two paths of which neither is below the other no path lies.
LiesAt-apart :
    (path a b r s : Str)
    → has_prefix (a ++ slash ∷ []) b ≡ false
    → has_prefix (b ++ slash ∷ []) a ≡ false
    → LiesAt path a r
    → LiesAt path b s
    → a ≡ b
LiesAt-apart path a b r s ab ba (inl (pa, _)) (inl (pb, _)) = sym pa ∙ pb
LiesAt-apart path a b r s ab ba (inl (pa, _)) (inr pb) =
    let below : has_prefix (b ++ slash ∷ []) a ≡ true =
      ap (has_prefix (b ++ slash ∷ [])) (sym pa ∙ pb) ∙ below-append b s in
    ground (arith, below, ba)
LiesAt-apart path a b r s ab ba (inr pa) (inl (pb, _)) =
    let below : has_prefix (a ++ slash ∷ []) b ≡ true =
      ap (has_prefix (a ++ slash ∷ [])) (sym pb ∙ pa) ∙ below-append a r in
    ground (arith, below, ab)
LiesAt-apart path a b r s ab ba (inr pa) (inr pb) = elim (prefixes-cases a b r s (sym pa ∙ pb)) [
  | inl e ↦ e
  | inr (inl below) ↦ ground (arith, below, ab)
  | inr (inr below) ↦ ground (arith, below, ba)
]

-- In a configuration without errors, an absolute path that lies at two mounts lies at mounts whose paths are
-- one but for slashes at the end.
pub strip_mount_prefix-validate :
    (regex_error : Str → Option Str) (c : VfsConfig) (path a b r s : Str)
    → validate regex_error c ≡ []
    → has a (paths_of c.mounts) ≡ true
    → has b (paths_of c.mounts) ≡ true
    → starts_with slash path ≡ true
    → strip_mount_prefix path a ≡ some r
    → strip_mount_prefix path b ≡ some s
    → normalize_path a ≡ normalize_path b
unfolding normalize_path
strip_mount_prefix-validate regex_error c path a b r s valid at bt absolute fa fb =
    let (p1, p2, p3, apart, p5, p6, p7, p8) = validate-nil regex_error c valid in
    elim (Bool-cases (a == b)) [
      | inl e ↦ ap normalize_path ((eq_iff a b).0 e)
      | inr ne ↦
          let ab = overlap_of-below a b (overlaps-nil a b [] (paths_of c.mounts) apart at bt ne) in
          let ne' : (b == a) ≡ false = ground (arith, eq_iff a b, eq_iff b a, ne) in
          let ba = overlap_of-below b a (overlaps-nil b a [] (paths_of c.mounts) apart bt at ne') in
          LiesAt-apart path (normalize_path a) (normalize_path b) r s ab ba
            ((strip_mount_prefix_iff path a r absolute).0 fa)
            ((strip_mount_prefix_iff path b s absolute).0 fb)
    ]
