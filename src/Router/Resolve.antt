-- ===== src/Router/Resolve.antt =====
-- `resolve` finds the longest mount that fits, in whatever order the mounts are configured
-- (crates/openfs-remote/src/router.rs).
use mathlib.Core.Path.{subst₂}
use mathlib.Core.Option.{some-injective}
use mathlib.Core.List.{Memᴰ}
use open_fs.Prelude.{
  ◌≤◌, ◌≡◌, refl, ◌⊎◌, ◌↔◌, inl, inr, ap, ◌∙◌, Bool, none, some, List, [], ◌∷◌, arith, length, leb,
  All, All-mono, All-mem, Option-cases, Bool-cases,
}
use open_fs.Prelude.Text.{Str, slash, trim_end}
use open_fs.Error.{no_mount, ok, err}
use open_fs.Router.{
  Mount, normalize_path, strip_mount_prefix, insert_sorted, sort_mounts, new, first_match, resolve,
}
use open_fs.Router.Prefix.{LiesAt, strip_mount_prefix_iff, starts_with-normalize_path}

module _ {ℓ} {B : Type ℓ} where
  abbrev IsSorted : List (Mount B) → Type 0
  IsSorted [] = Unit
  IsSorted (m ∷ ms) = All (λ n. length n.path ≤ length m.path) ms × IsSorted ms

  module _ {κ} (P : Mount B → Type κ) where
    insert_sorted-All :
        (m : Mount B) (ms : List (Mount B)) → P m → All P ms → All P (insert_sorted m ms)
    unfolding insert_sorted
    insert_sorted-All m [] pm h = (pm, tt)
    insert_sorted-All m (n ∷ ns) pm h = elim (Bool-cases (leb (length n.path) (length m.path))) [
      | inl stop ↦ rw stop (pm, h)
      | inr on ↦ rw on (h.0, insert_sorted-All m ns pm h.1)
    ]

    All-insert_sorted :
        (m : Mount B) (ms : List (Mount B)) → All P (insert_sorted m ms) → P m × All P ms
    unfolding insert_sorted
    All-insert_sorted m [] h = h
    All-insert_sorted m (n ∷ ns) h = elim (Bool-cases (leb (length n.path) (length m.path))) [
      | inl stop ↦ rw (stop, insert_sorted) at h
      | inr on ↦
          let h' : P n × All P (insert_sorted m ns) = rw (on, insert_sorted) at h in
          let rest = All-insert_sorted m ns h'.1 in (rest.0, (h'.0, rest.1))
    ]

    sort_mounts-All : (ms : List (Mount B)) → All P ms → All P (sort_mounts ms)
    unfolding sort_mounts
    sort_mounts-All [] h = tt
    sort_mounts-All (m ∷ ms) h = insert_sorted-All m (sort_mounts ms) h.0 (sort_mounts-All ms h.1)

    All-sort_mounts : (ms : List (Mount B)) → All P (sort_mounts ms) → All P ms
    unfolding sort_mounts
    All-sort_mounts [] h = tt
    All-sort_mounts (m ∷ ms) h =
        let parts = All-insert_sorted m (sort_mounts ms) h in (parts.0, All-sort_mounts ms parts.1)

  insert_sorted-IsSorted :
      (m : Mount B) (ms : List (Mount B)) → IsSorted ms → IsSorted (insert_sorted m ms)
  unfolding insert_sorted
  insert_sorted-IsSorted m [] h = (tt, tt)
  insert_sorted-IsSorted m (n ∷ ns) h = elim (Bool-cases (leb (length n.path) (length m.path))) [
    | inl stop ↦
        let le : length n.path ≤ length m.path = ground arith in
        rw stop (
          (
            le,
            All-mono (λ k. length k.path ≤ length n.path) (λ k. length k.path ≤ length m.path)
                (λ k hk. omega arith) ns h.0,
          ),
          h,
        )
    | inr on ↦
        let le : length m.path ≤ length n.path = ground arith in
        rw on (
          insert_sorted-All (λ k. length k.path ≤ length n.path) m ns le h.0,
          insert_sorted-IsSorted m ns h.1,
        )
  ]

  sort_mounts-IsSorted : (ms : List (Mount B)) → IsSorted (sort_mounts ms)
  unfolding sort_mounts
  sort_mounts-IsSorted [] = tt
  sort_mounts-IsSorted (m ∷ ms) =
      insert_sorted-IsSorted m (sort_mounts ms) (sort_mounts-IsSorted ms)

  -- A mount that does not fit the path, or is no longer than `m`.
  abbrev pub NoLonger : Str → Mount B → Mount B → Type 0
  NoLonger path m n = (strip_mount_prefix path n.path ≡ none) ⊎ (length n.path ≤ length m.path)

  record Found {κ} (P : Mount B → Type κ) (path : Str) (ms : List (Mount B)) (m : Mount B)
      (relative : Str) : Type (ℓ ⊔ κ) where
    fits : strip_mount_prefix path m.path ≡ some relative
    holds : P m
    longest : All (NoLonger path m) ms

  module _ {κ} (P : Mount B → Type κ) where
    first_match-Found :
        (path : Str) (ms : List (Mount B)) (m : Mount B) (relative : Str)
        → IsSorted ms
        → All P ms
        → first_match path ms ≡ some (m, relative)
        → Found P path ms m relative
    unfolding first_match
    first_match-Found path [] m relative s h e = absurd (ground arith)
    first_match-Found path (n ∷ ns) m relative s h e =
        elim (Option-cases (strip_mount_prefix path n.path)) [
          | inl miss ↦
              let rest =
                first_match-Found path ns m relative s.1 h.1 (rw (miss, first_match) at e) in
              record { fits = rest.fits; holds = rest.holds; longest = (inl miss, rest.longest) }
          | inr (r, hit) ↦
              let p : (n, r) ≡ (m, relative) = some-injective _ _ (rw (hit, first_match) at e) in
              subst₂ (Found P path (n ∷ ns)) (ap (λ t. t.0) p) (ap (λ t. t.1) p) (record {
                fits = hit;
                holds = h.0;
                longest = (
                  inr (omega arith),
                  All-mono (λ k. length k.path ≤ length n.path) (NoLonger path n) (λ k hk. inr hk)
                      ns s.0,
                );
              })
        ]

  first_match-none :
      (path : Str) (ms : List (Mount B))
      → (first_match path ms ≡ none) ↔ All (λ m. strip_mount_prefix path m.path ≡ none) ms
  unfolding first_match
  first_match-none path [] = (λ _. tt, λ _. refl)
  first_match-none path (m ∷ ms) = elim (Option-cases (strip_mount_prefix path m.path)) [
    | inl miss ↦ (
      λ e. (miss, (first_match-none path ms).0 (rw (miss, first_match) at e)),
      λ all. rw (miss, first_match) ((first_match-none path ms).1 all.1),
    )
    | inr (r, hit) ↦ (λ e. absurd (ground arith), λ all. absurd (ground arith))
  ]

  module _ (mounts : List (Mount B)) (path : Str) where
    -- A path resolves to a configured mount whose path it has, or continues by a slash and the
    -- relative path; no configured mount that fits is longer; and the read-only flag is that mount's.
    pub resolve_longest :
        {b : B} {relative : Str} {ro : Bool}
        → resolve (new mounts) path ≡ ok (b, relative, ro)
        → (m : Mount B) × Memᴰ m mounts
          × (m.backend ≡ b)
          × (m.read_only ≡ ro)
          × LiesAt (normalize_path path) (trim_end slash m.path) relative
          × All (NoLonger (normalize_path path) m) mounts
    unfolding resolve new
    resolve_longest {b} {relative} {ro} e =
        elim (Option-cases (first_match (normalize_path path) (sort_mounts mounts))) [
          | inl miss ↦ absurd (ground arith)
          | inr ((m, r), hit) ↦
              let found =
                first_match-Found (λ n. Memᴰ n mounts) (normalize_path path) (sort_mounts mounts) m
                  r (sort_mounts-IsSorted mounts)
                  (sort_mounts-All (λ n. Memᴰ n mounts) mounts (All-mem mounts)) hit in
              (
                m,
                found.holds,
                ground arith,
                ground arith,
                (strip_mount_prefix_iff (normalize_path path) m.path relative
                      (starts_with-normalize_path path)).0
                    (found.fits ∙ ground arith),
                All-sort_mounts (NoLonger (normalize_path path) m) mounts found.longest,
              )
        ]

    -- Resolution fails exactly if no configured mount fits, and names the path as it was given.
    pub resolve-no_mount :
        (resolve (new mounts) path ≡ err (no_mount path))
        ↔ All (λ m. strip_mount_prefix (normalize_path path) m.path ≡ none) mounts
    unfolding resolve new
    resolve-no_mount = (
      λ e. elim (Option-cases (first_match (normalize_path path) (sort_mounts mounts))) [
        | inl miss ↦
            All-sort_mounts (λ m. strip_mount_prefix (normalize_path path) m.path ≡ none) mounts
              ((first_match-none (normalize_path path) (sort_mounts mounts)).0 miss)
        | inr (found, hit) ↦ absurd (ground arith)
      ],
      λ all. rw (
        (first_match-none (normalize_path path) (sort_mounts mounts)).1 (
            sort_mounts-All (λ m. strip_mount_prefix (normalize_path path) m.path ≡ none) mounts
              all),
        resolve,
      ),
    )
