-- ===== src/Prelude/Sort.antt =====
-- `ORDER BY key ASC` and a stable sort by a number: equal keys keep their order.
use Prim.Native.Nat.{ℕ, zero, suc, ◌≤◌, min}
use mathlib.Core.Path.{◌≡◌, refl, ◌∙◌, ap}
use mathlib.Core.Bool.{Bool, true}
use mathlib.Core.Logic.{inl, inr}
use mathlib.Core.List.{List, [], ◌∷◌}
use native.Mathlib.Omega.{arith}
use open_fs.Prelude.Tests.{leb, if◌then◌else◌, Bool-cases}
use open_fs.Prelude.Lists.{length, take, retain, All, All-mono}

module _ {ℓ} {A : Type ℓ} (key : A → ℕ) where
  unfoldable pub insert_by : A → List A → List A
  insert_by a [] = a ∷ []
  insert_by a (x ∷ xs) = if leb (key a) (key x) then a ∷ x ∷ xs else x ∷ insert_by a xs

  unfoldable pub sort_by : List A → List A
  unfolding insert_by
  sort_by [] = []
  sort_by (a ∷ xs) = insert_by a (sort_by xs)

  abbrev pub Ordered : List A → Type 0
  Ordered [] = Unit
  Ordered (a ∷ xs) = All (λ x. key a ≤ key x) xs × Ordered xs

  pub length-insert_by : (a : A) (xs : List A) → length (insert_by a xs) ≡ suc (length xs)
  unfolding insert_by
  length-insert_by a [] = refl
  length-insert_by a (x ∷ xs) = ground (arith, length-insert_by a xs)

  pub length-sort_by : (xs : List A) → length (sort_by xs) ≡ length xs
  unfolding sort_by
  length-sort_by [] = refl
  length-sort_by (a ∷ xs) = length-insert_by a (sort_by xs) ∙ ap suc (length-sort_by xs)

  module _ {κ} (P : A → Type κ) where
    insert_by-All : (a : A) (xs : List A) → P a → All P xs → All P (insert_by a xs)
    unfolding insert_by
    insert_by-All a [] pa h = (pa, tt)
    insert_by-All a (x ∷ xs) pa h = elim (Bool-cases (leb (key a) (key x))) [
      | inl stop ↦ rw stop (pa, h)
      | inr on ↦ rw on (h.0, insert_by-All a xs pa h.1)
    ]

    pub sort_by-All : (xs : List A) → All P xs → All P (sort_by xs)
    unfolding sort_by
    sort_by-All [] h = tt
    sort_by-All (a ∷ xs) h = insert_by-All a (sort_by xs) h.0 (sort_by-All xs h.1)

  insert_by-Ordered : (a : A) (xs : List A) → Ordered xs → Ordered (insert_by a xs)
  unfolding insert_by
  insert_by-Ordered a [] h = (tt, tt)
  insert_by-Ordered a (x ∷ xs) h = elim (Bool-cases (leb (key a) (key x))) [
    | inl stop ↦
        let le : key a ≤ key x = ground arith in
        rw stop
          ((le, All-mono (λ y. key x ≤ key y) (λ y. key a ≤ key y) (λ y hy. omega arith) xs h.0), h)
    | inr on ↦
        let le : key x ≤ key a = ground arith in
        rw on (insert_by-All (λ y. key x ≤ key y) a xs le h.0, insert_by-Ordered a xs h.1)
  ]

  pub sort_by-Ordered : (xs : List A) → Ordered (sort_by xs)
  unfolding sort_by
  sort_by-Ordered [] = tt
  sort_by-Ordered (a ∷ xs) = insert_by-Ordered a (sort_by xs) (sort_by-Ordered xs)

module _ {ℓ κ} {A : Type ℓ} (P : A → Type κ) where
  pub take-All : (n : ℕ) (xs : List A) → All P xs → All P (take n xs)
  take-All zero xs h = tt
  take-All (suc n) [] h = tt
  take-All (suc n) (x ∷ xs) h = (h.0, take-All n xs h.1)

pub take-Ordered {ℓ} :
    {A : Type ℓ} (key : A → ℕ) (n : ℕ) (xs : List A) → Ordered key xs → Ordered key (take n xs)
take-Ordered key zero xs h = tt
take-Ordered key (suc n) [] h = tt
take-Ordered key (suc n) (x ∷ xs) h =
    (take-All (λ y. key x ≤ key y) n xs h.0, take-Ordered key n xs h.1)

pub length-take {ℓ} : {A : Type ℓ} (n : ℕ) (xs : List A) → length (take n xs) ≡ min n (length xs)
length-take zero xs = omega arith
length-take (suc n) [] = omega arith
length-take (suc n) (x ∷ xs) = omega (arith, length-take n xs)

-- What is retained passes the test.
pub retain-All {ℓ} : {A : Type ℓ} (p : A → Bool) (xs : List A) → All (λ x. p x ≡ true) (retain p xs)
unfolding retain
retain-All p [] = tt
retain-All p (x ∷ xs) = elim (Bool-cases (p x)) [
  | inl stays ↦ rw (stays, retain) (stays, retain-All p xs)
  | inr goes ↦ rw (goes, retain) (retain-All p xs)
]
