-- ===== src/Prelude/Decimal.antt =====
-- `to_string` of an unsigned number: its decimal digits, and that no two numbers have the same ones.
use open_fs.Prelude.Tests.{ltb, if◌then◌else◌, Bool-cases}
use Prim.Native.Nat.{ℕ, zero, suc, ◌+◌, ◌-◌, ◌*◌, ◌/◌, ◌%◌, ◌≤◌, ◌<◌}
use mathlib.Core.Path.{◌≡◌, sym, ap, ◌∙◌}
use mathlib.Core.Logic.{inl, inr}
use mathlib.Core.List.{List, [], ◌∷◌}
use native.Mathlib.Omega.{arith}

-- The digits of `n` before those in `done`; a number has fewer digits than `fuel` if it is below it.
unfoldable pub digits : ℕ → ℕ → List ℕ → List ℕ
digits zero n done = done
digits (suc fuel) n done =
    let rest = digits fuel (n / 10) ((48 + n % 10) ∷ done) in
    if ltb n 10 then (48 + n) ∷ done else rest

unfoldable pub to_string : ℕ → List ℕ
unfolding digits
to_string n = digits (suc n) n []

-- Reading digits from the left.
unfoldable pub parse : ℕ → List ℕ → ℕ
parse a [] = a
parse a (d ∷ ds) = parse (10 * a + (d - 48)) ds

parse-digits : (fuel n : ℕ) (done : List ℕ) → n < fuel → parse 0 (digits fuel n done) ≡ parse n done
unfolding digits parse
parse-digits zero n done h = absurd (omega arith)
parse-digits (suc fuel) n done h = elim (Bool-cases (ltb n 10)) [
  | inl small ↦
      let value : 10 * 0 + ((48 + n) - 48) ≡ n = omega arith in
      rw small (ap (λ a. parse a done) value)
  | inr big ↦
      let value : 10 * (n / 10) + ((48 + n % 10) - 48) ≡ n = omega arith in
      let above : 10 ≤ n = ground arith in
      rw big (
        parse-digits fuel (n / 10) ((48 + n % 10) ∷ done) (omega (arith, above, h))
        ∙ ap (λ a. parse a done) value)
]

pub parse-to_string : (n : ℕ) → parse 0 (to_string n) ≡ n
unfolding to_string parse
parse-to_string n = parse-digits (suc n) n [] (omega arith)

pub to_string-injective : (m n : ℕ) → to_string m ≡ to_string n → m ≡ n
to_string-injective m n h = sym (parse-to_string m) ∙ ap (parse 0) h ∙ parse-to_string n
