-- ===== src/Chunker/Slice.antt =====
-- What `&text[start..end]` is, and how long, in crates/openfs-local/src/chunkers/fixed.rs.
use mathlib.Core.Path.{subst}
use mathlib.Core.List.{Memᴰ}
use mathlib.Core.List.Memᴰ.{head, tail}
use open_fs.Prelude.{
  ℕ, zero, suc, ◌-◌, ◌≤◌, ◌≡◌, refl, sym, some, List, [], ◌∷◌, arith, length, take, drop, All,
}
use open_fs.Prelude.Text.{Str}
use open_fs.Chunker.{slice}

pub length-take : (n : ℕ) (s : Str) → n ≤ length s → length (take n s) ≡ n
length-take zero s h = refl
length-take (suc n) [] h = absurd (omega arith)
length-take (suc n) (x ∷ s) h = omega (arith, length-take n s (omega arith))

pub length-drop : (n : ℕ) (s : Str) → length (drop n s) ≡ length s - n
length-drop zero s = omega arith
length-drop (suc n) [] = omega arith
length-drop (suc n) (x ∷ s) = omega (arith, length-drop n s)

pub All-lookup {ℓ κ} : {A : Type ℓ} (P : A → Type κ) (l : List A) (a : A) → All P l → Memᴰ a l → P a
All-lookup P [] a h m = elim m [ ]
All-lookup P (x ∷ l) a h (head e) = subst P (sym e) h.0
All-lookup P (x ∷ l) a h (tail m) = All-lookup P l a h.1 m

-- The text between two offsets.
abbrev pub between : ℕ → ℕ → Str → Str
between start end text = take (end - start) (drop start text)

pub length-between :
    (start end : ℕ) (text : Str) → end ≤ length text → length (between start end text) ≡ end - start
length-between start end text h =
    length-take (end - start) (drop start text) (omega (arith, length-drop start text))

pub slice-between :
    (text : Str) (start end : ℕ) (s : Str)
    → slice text start end ≡ some s
    → s ≡ between start end text
unfolding slice
slice-between text start end s h = ground arith
