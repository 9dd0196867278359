-- ===== src/Config/Shown.antt =====
-- A size that is written and read again (`HumanBytes` of crates/openfs-config/src/types.rs).
use open_fs.Prelude.{
  ℕ, zero, suc, ◌+◌, ◌*◌, ◌/◌, ◌%◌, ◌^◌, ◌≤◌, ◌<◌, ◌≡◌, refl, sym, ◌∙◌, ap, true, false, ◌&&◌, none,
  some, [], ◌∷◌, ◌++◌, leb, ltb, arith, nat_eq, list_eq, if-elim, Bool-cases, inl, inr,
}
use open_fs.Prelude.Decimal.{to_string, digits, parse-to_string}
use open_fs.Prelude.Text.{Str, text, is_empty, strip_prefix}
use open_fs.Error.{ok}
use open_fs.Config.Sizes.{
  times, unsigned, number, rev, all_digits, parse_u64, scaled, with_unit, from_str, unit_of,
  display,
}

append_assoc : (a b c : Str) → (a ++ b) ++ c ≡ a ++ (b ++ c)
append_assoc [] b c = refl
append_assoc (x ∷ a) b c = ap (λ l. x ∷ l) (append_assoc a b c)

append_none : (a : Str) → a ++ [] ≡ a
append_none [] = refl
append_none (x ∷ a) = ap (λ l. x ∷ l) (append_none a)

rev-append : (a b : Str) → rev (a ++ b) ≡ rev b ++ rev a
unfolding rev
rev-append [] b = sym (append_none (rev b))
rev-append (x ∷ a) b =
    ap (λ l. l ++ x ∷ []) (rev-append a b) ∙ append_assoc (rev b) (rev a) (x ∷ [])

rev-rev : (a : Str) → rev (rev a) ≡ a
unfolding rev
rev-rev [] = refl
rev-rev (x ∷ a) = rev-append (rev a) (x ∷ []) ∙ ap (λ l. x ∷ l) (rev-rev a)

-- The digits of a number are digits.
all_digits-digits :
    (fuel n : ℕ) (done : Str) → all_digits done ≡ true → all_digits (digits fuel n done) ≡ true
unfolding digits all_digits
all_digits-digits zero n done h = h
all_digits-digits (suc fuel) n done h =
    let low : n % 10 < 10 = omega arith in
    elim (Bool-cases (ltb n 10)) [
      | inl small ↦ rw small (ground (arith, h, small))
      | inr big ↦
          rw big (all_digits-digits fuel (n / 10) ((48 + n % 10) ∷ done) (ground (arith, h, low)))
    ]

not_empty-digits : (fuel n : ℕ) (done : Str) → n < fuel → is_empty (digits fuel n done) ≡ false
unfolding digits
not_empty-digits zero n done h = absurd (omega arith)
not_empty-digits (suc fuel) n done h = elim (Bool-cases (ltb n 10)) [
  | inl small ↦ rw small refl
  | inr big ↦
      let above : 10 ≤ n = ground arith in
      rw big (not_empty-digits fuel (n / 10) ((48 + n % 10) ∷ done) (omega (arith, above, h)))
]

all_digits-to_string : (n : ℕ) → all_digits (to_string n) ≡ true
unfolding to_string all_digits
all_digits-to_string n = all_digits-digits (suc n) n [] refl

strip_prefix-all_digits :
    (c : ℕ) (s : Str)
    → all_digits s ≡ true
    → (leb 48 c && leb c 57) ≡ false
    → strip_prefix (c ∷ []) s ≡ none
unfolding strip_prefix all_digits
strip_prefix-all_digits c [] h above = refl
strip_prefix-all_digits c (x ∷ s) h above = ground (arith, h, above)

parse_u64-to_string : (n : ℕ) → n < 2 ^ 64 → parse_u64 (to_string n) ≡ some n
unfolding parse_u64
parse_u64-to_string n h =
    let some_digits : is_empty (to_string n) ≡ false =
      unfold to_string in not_empty-digits (suc n) n [] (omega arith) in
    let digits_only : all_digits (to_string n) ≡ true =
      unfold to_string in all_digits-digits (suc n) n [] refl in
    let no_sign : unsigned (to_string n) ≡ to_string n =
      rw (strip_prefix-all_digits 43 (to_string n) digits_only refl, unsigned) refl in
    ap number no_sign ∙ rw (some_digits, digits_only, parse-to_string n) (ground (arith, h))

all_digits-append : (a b : Str) → all_digits (a ++ b) ≡ (all_digits a && all_digits b)
unfolding all_digits
all_digits-append [] b = refl
all_digits-append (x ∷ a) b = ground (arith, all_digits-append a b)

all_digits-rev : (a : Str) → all_digits (rev a) ≡ all_digits a
unfolding all_digits rev
all_digits-rev [] = refl
all_digits-rev (x ∷ a) = ground (arith, all_digits-append (rev a) (x ∷ []), all_digits-rev a)

scaled-rev :
    (whole : Str) (multiplier k : ℕ)
    → k < 2 ^ 64
    → k * multiplier % 2 ^ 64 ≡ k * multiplier
    → scaled whole multiplier (rev (rev (to_string k))) ≡ ok (k * multiplier)
unfolding scaled
scaled-rev whole multiplier k small exact =
    ap (times whole multiplier) (ap parse_u64 (rev-rev (to_string k)) ∙ parse_u64-to_string k small)
    ∙ ap (λ n. ok n) exact

-- The unit at the end of a text is found.
from_str-unit :
    (ds : Str)
    → (from_str (ds ++ text "tb") ≡ scaled (ds ++ text "tb") (2 ^ 40) (rev (rev ds)))
      × (from_str (ds ++ text "gb") ≡ scaled (ds ++ text "gb") (2 ^ 30) (rev (rev ds)))
      × (from_str (ds ++ text "mb") ≡ scaled (ds ++ text "mb") (2 ^ 20) (rev (rev ds)))
      × (from_str (ds ++ text "kb") ≡ scaled (ds ++ text "kb") (2 ^ 10) (rev (rev ds)))
unfolding from_str strip_prefix rev
from_str-unit ds = (
  rw (rev-append ds (text "tb")) refl,
  rw (rev-append ds (text "gb")) refl,
  rw (rev-append ds (text "mb")) refl,
  rw (rev-append ds (text "kb")) refl,
)

from_str-bytes :
    (ds : Str)
    → all_digits ds ≡ true
    → from_str (ds ++ text "b") ≡ scaled (ds ++ text "b") 1 (rev (rev ds))
unfolding from_str strip_prefix rev
from_str-bytes ds h =
    let back = all_digits-rev ds ∙ h in
    rw (rev-append ds (text "b")) (
      rw
        (
          strip_prefix-all_digits 116 (rev ds) back refl,
          strip_prefix-all_digits 103 (rev ds) back refl,
          strip_prefix-all_digits 109 (rev ds) back refl,
          strip_prefix-all_digits 107 (rev ds) back refl,
          with_unit,
        )
        refl)

-- What is read of a size that was written with a unit.
abbrev IsRead : ℕ → ℕ × Str → Type 0
IsRead n u = from_str (to_string (n / u.0) ++ u.1) ≡ ok (n / u.0 * u.0)

module _ (n : ℕ) (h : n < 2 ^ 64) where
  IsRead-tb : IsRead n (2 ^ 40, text "tb")
  IsRead-tb =
      (from_str-unit (to_string (n / 2 ^ 40))).0
      ∙ scaled-rev _ (2 ^ 40) (n / 2 ^ 40) (omega (arith, h)) (omega (arith, h))

  IsRead-gb : IsRead n (2 ^ 30, text "gb")
  IsRead-gb =
      (from_str-unit (to_string (n / 2 ^ 30))).1
      ∙ scaled-rev _ (2 ^ 30) (n / 2 ^ 30) (omega (arith, h)) (omega (arith, h))

  IsRead-mb : IsRead n (2 ^ 20, text "mb")
  IsRead-mb =
      (from_str-unit (to_string (n / 2 ^ 20))).2
      ∙ scaled-rev _ (2 ^ 20) (n / 2 ^ 20) (omega (arith, h)) (omega (arith, h))

  IsRead-kb : IsRead n (2 ^ 10, text "kb")
  IsRead-kb =
      (from_str-unit (to_string (n / 2 ^ 10))).3
      ∙ scaled-rev _ (2 ^ 10) (n / 2 ^ 10) (omega (arith, h)) (omega (arith, h))

  IsRead-b : IsRead n (1, text "b")
  IsRead-b =
      from_str-bytes (to_string (n / 1)) (all_digits-to_string (n / 1))
      ∙ scaled-rev _ 1 (n / 1) (omega (arith, h)) (omega (arith, h))

  -- A size below 2^64 that is written and read again is rounded down to a multiple of the unit that it is
  -- written in.
  pub from_str-display : from_str (display n) ≡ ok (n / (unit_of n).0 * (unit_of n).0)
  unfolding display
  from_str-display =
      if-elim (IsRead n) (leb (2 ^ 40) n) (2 ^ 40, text "tb") _ IsRead-tb
        (if-elim (IsRead n) (leb (2 ^ 30) n) (2 ^ 30, text "gb") _ IsRead-gb
          (if-elim (IsRead n) (leb (2 ^ 20) n) (2 ^ 20, text "mb") _ IsRead-mb
            (if-elim (IsRead n) (leb (2 ^ 10) n) (2 ^ 10, text "kb") (1, text "b") IsRead-kb
              IsRead-b)))
