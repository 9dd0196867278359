-- ===== src/Prelude/Text.antt =====
-- Rust strings as their UTF-8 bytes: what the program does with a path is a matter of its bytes,
-- since `/` is one byte and no other character's encoding contains it.
use Prim.Native.Nat.{ℕ}
use Prim.Native.Char.{code}
use Prim.Native.String.{String}
use mathlib.Core.Bool.{Bool, true, false, ◌||◌}
use mathlib.Core.Option.{Option, none, some}
use mathlib.Core.List.{List, [], ◌∷◌}
use open_fs.Prelude.Tests.{nat_eq, ◌==◌, if◌then◌else◌}

abbrev pub Str : Type 0
Str = List ℕ

abbrev pub slash : ℕ
slash = b'/'

-- A literal of the source; the literals there are ASCII.
abbrev pub text : String → Str
text String.[] = []
text (String.◌∷◌ c s) = code c ∷ text s

abbrev pub is_empty {ℓ} : {A : Type ℓ} → List A → Bool
is_empty [] = true
is_empty (x ∷ xs) = false

cons_head : ℕ → List Str → List Str
cons_head x [] = (x ∷ []) ∷ []
cons_head x (w ∷ ws) = (x ∷ w) ∷ ws

-- `str::split` at one byte
unfoldable pub split : ℕ → Str → List Str
unfolding cons_head
split c [] = [] ∷ []
split c (x ∷ xs) = let rest = split c xs in if x == c then [] ∷ rest else cons_head x rest

-- `str::starts_with` a byte
unfoldable pub starts_with : ℕ → Str → Bool
starts_with c [] = false
starts_with c (x ∷ xs) = x == c

-- `str::ends_with` a byte
unfoldable pub ends_with : ℕ → Str → Bool
ends_with c [] = false
ends_with c (x ∷ []) = x == c
ends_with c (x ∷ y ∷ ys) = ends_with c (y ∷ ys)

-- `String::pop`, without the popped byte
unfoldable pub pop : Str → Str
pop [] = []
pop (x ∷ []) = []
pop (x ∷ y ∷ ys) = x ∷ pop (y ∷ ys)

-- `str::strip_prefix`
unfoldable pub strip_prefix : Str → Str → Option Str
strip_prefix [] s = some s
strip_prefix (p ∷ ps) [] = none
strip_prefix (p ∷ ps) (x ∷ xs) = if p == x then strip_prefix ps xs else none

-- `str::trim_start_matches`
unfoldable pub trim_start : ℕ → Str → Str
trim_start c [] = []
trim_start c (x ∷ xs) = if x == c then trim_start c xs else x ∷ xs

-- `str::trim_end_matches`
unfoldable pub trim_end : ℕ → Str → Str
trim_end c [] = []
trim_end c (x ∷ xs) =
    let rest = trim_end c xs in
    if x == c then (if is_empty rest then [] else x ∷ rest) else x ∷ rest

-- `str::trim_matches`
unfoldable pub trim : ℕ → Str → Str
unfolding trim_start trim_end
trim c s = trim_end c (trim_start c s)

-- `starts_with` and `contains` with a text
abbrev pub has_prefix : Str → Str → Bool
has_prefix p s = elim (strip_prefix p s) [ none ↦ false | some _ ↦ true ]

unfoldable pub contains : Str → Str → Bool
contains part [] = has_prefix part []
contains part (x ∷ s) = let rest = contains part s in has_prefix part (x ∷ s) || rest
