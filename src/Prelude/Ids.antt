-- ===== src/Prelude/Ids.antt =====
-- Ids that a table gives out by AUTOINCREMENT: they increase down the table, up to the last one given;
-- and lists of rows of which no two have an id in common.
use Prim.Native.Nat.{ℕ, zero, suc, ◌+◌, ◌≤◌, ◌<◌}
use mathlib.Core.Path.{◌≡◌, refl}
use mathlib.Core.Bool.{Bool, false}
use mathlib.Core.Logic.{inl, inr}
use mathlib.Core.List.{List, [], ◌∷◌, ◌++◌, map}
use native.Mathlib.Omega.{arith}
use open_fs.Prelude.Tests.{leb, nat_eq, ◌==◌, Bool-cases}
use open_fs.Prelude.Lists.{take, retain, All, All-append, All-retain}
use open_fs.Prelude.Sort.{insert_by, sort_by, sort_by-All, take-All}

abbrev pub Ascends : ℕ → List ℕ → Type 0
Ascends n [] = Unit
Ascends n (i ∷ is) = (i ≤ n) × All (λ j. i < j) is × Ascends n is

pub Ascends-next : (n : ℕ) (is : List ℕ) → Ascends n is → Ascends (n + 1) (is ++ (n + 1) ∷ [])
Ascends-next n [] h = (omega arith, tt, tt)
Ascends-next n (i ∷ is) h = (
  omega arith,
  All-append (λ j. i < j) is ((n + 1) ∷ []) h.1 (omega arith, tt),
  Ascends-next n is h.2,
)

-- no id of the table is above the last one given
pub Ascends-bound : (n : ℕ) (is : List ℕ) → Ascends n is → All (λ i. i ≤ n) is
Ascends-bound n [] h = tt
Ascends-bound n (i ∷ is) h = (h.0, Ascends-bound n is h.2)

module _ {ℓ} {A : Type ℓ} (key : A → ℕ) (p : A → Bool) where
  retain-above :
      (i : ℕ) (l : List A) → All (λ j. i < j) (map key l) → All (λ j. i < j) (map key (retain p l))
  unfolding retain
  retain-above i [] h = tt
  retain-above i (x ∷ l) h = elim (Bool-cases (p x)) [
    | inl stays ↦ rw (stays, retain) (h.0, retain-above i l h.1)
    | inr goes ↦ rw (goes, retain) (retain-above i l h.1)
  ]

  pub Ascends-retain :
      (n : ℕ) (l : List A) → Ascends n (map key l) → Ascends n (map key (retain p l))
  unfolding retain
  Ascends-retain n [] h = tt
  Ascends-retain n (x ∷ l) h = elim (Bool-cases (p x)) [
    | inl stays ↦ rw (stays, retain) (h.0, retain-above (key x) l h.1, Ascends-retain n l h.2)
    | inr goes ↦ rw (goes, retain) (Ascends-retain n l h.2)
  ]

pub map-append-one {ℓ} :
    {A : Type ℓ} (key : A → ℕ) (l : List A) (a : A)
    → map key (l ++ a ∷ []) ≡ map key l ++ key a ∷ []
map-append-one key [] a = refl
map-append-one key (x ∷ l) a = rw (map-append-one key l a)

module _ {ℓ} {A : Type ℓ} (id : A → ℕ) where
  -- The id of `a` is none of the list.
  abbrev pub IsNew : A → List A → Type 0
  IsNew a = All (λ x. (id a == id x) ≡ false)

  abbrev pub Apart : List A → Type 0
  Apart [] = Unit
  Apart (a ∷ l) = IsNew a l × Apart l

  above-IsNew : (a : A) (l : List A) → All (λ j. id a < j) (map id l) → IsNew a l
  above-IsNew a [] h = tt
  above-IsNew a (x ∷ l) h = (ground (arith, h.0), above-IsNew a l h.1)

  pub Ascends-Apart : (n : ℕ) (l : List A) → Ascends n (map id l) → Apart l
  Ascends-Apart n [] h = tt
  Ascends-Apart n (a ∷ l) h = (above-IsNew a l h.1, Ascends-Apart n l h.2)

  pub Apart-retain : (p : A → Bool) (l : List A) → Apart l → Apart (retain p l)
  unfolding retain
  Apart-retain p [] h = tt
  Apart-retain p (a ∷ l) h = elim (Bool-cases (p a)) [
    | inl stays ↦
        rw (stays, retain) (All-retain (λ x. (id a == id x) ≡ false) p l h.0, Apart-retain p l h.1)
    | inr goes ↦ rw (goes, retain) (Apart-retain p l h.1)
  ]

  pub take-Apart : (n : ℕ) (l : List A) → Apart l → Apart (take n l)
  take-Apart zero l h = tt
  take-Apart (suc n) [] h = tt
  take-Apart (suc n) (a ∷ l) h =
      (take-All (λ x. (id a == id x) ≡ false) n l h.0, take-Apart n l h.1)

  module _ (key : A → ℕ) where
    insert_by-IsNew :
        (e a : A) (l : List A) → (id e == id a) ≡ false → IsNew e l → IsNew e (insert_by key a l)
    unfolding insert_by
    insert_by-IsNew e a [] ha h = (ha, tt)
    insert_by-IsNew e a (x ∷ l) ha h = elim (Bool-cases (leb (key a) (key x))) [
      | inl stop ↦ rw stop (ha, h)
      | inr on ↦ rw on (h.0, insert_by-IsNew e a l ha h.1)
    ]

    insert_by-Apart : (a : A) (l : List A) → IsNew a l → Apart l → Apart (insert_by key a l)
    unfolding insert_by
    insert_by-Apart a [] ha h = (tt, tt)
    insert_by-Apart a (x ∷ l) ha h = elim (Bool-cases (leb (key a) (key x))) [
      | inl stop ↦ rw stop (ha, h)
      | inr on ↦
          let back : (id x == id a) ≡ false = ground (arith, ha.0) in
          rw on (insert_by-IsNew x a l back h.0, insert_by-Apart a l ha.1 h.1)
    ]

    pub sort_by-Apart : (l : List A) → Apart l → Apart (sort_by key l)
    unfolding sort_by
    sort_by-Apart [] h = tt
    sort_by-Apart (a ∷ l) h =
        insert_by-Apart a (sort_by key l) (sort_by-All key (λ x. (id a == id x) ≡ false) l h.0)
          (sort_by-Apart l h.1)
