-- ===== src/Config/Sizes.antt =====
-- crates/openfs-config/src/types.rs: sizes as they are written in a configuration (`HumanBytes`). The text is in
-- lower case and has no blanks at its ends, which the code sees to first.
use open_fs.Prelude.{
  ℕ, ◌*◌, ◌/◌, ◌%◌, ◌^◌, Bool, true, not, ◌&&◌, Option, none, some, [], ◌∷◌, ◌++◌, leb, ltb, nat_eq,
  list_eq, if◌then◌else◌,
}
use open_fs.Prelude.Decimal.{to_string, parse}
use open_fs.Prelude.Text.{Str, text, is_empty, strip_prefix}
use open_fs.Error.{Result, ok, err}

unfoldable pub rev : Str → Str
rev [] = []
rev (x ∷ s) = rev s ++ x ∷ []

unfoldable pub all_digits : Str → Bool
all_digits [] = true
all_digits (d ∷ ds) = let rest = all_digits ds in (leb 48 d && leb d 57) && rest

-- `str::parse::<u64>`, which takes a plus sign before the digits
abbrev pub unsigned : Str → Str
unsigned s = elim (strip_prefix (text "+") s) [ some num ↦ num | none ↦ s ]

abbrev pub number : Str → Option ℕ
number s =
    if (not (is_empty s) && all_digits s) && ltb (parse 0 s) (2 ^ 64)
    then some (parse 0 s)
    else none

unfoldable pub parse_u64 : Str → Option ℕ
unfolding all_digits parse
parse_u64 s = number (unsigned s)

-- `num * multiplier`, which wraps where overflow is not checked
abbrev pub times : Str → ℕ → Option ℕ → Result Str ℕ
times whole multiplier none = err (text "Invalid number in bytes: " ++ whole)
times whole multiplier (some num) = ok (num * multiplier % 2 ^ 64)

unfoldable pub scaled : Str → ℕ → Str → Result Str ℕ
unfolding parse_u64
scaled whole multiplier num_str = times whole multiplier (parse_u64 num_str)

-- a unit at the end of the text, which is given from its end
abbrev pub with_unit : Str → Str → ℕ → Str → Result Str ℕ → Result Str ℕ
with_unit whole unit multiplier r otherwise = elim (strip_prefix unit r) [
  | some num ↦ scaled whole multiplier (rev num)
  | none ↦ otherwise
]

unfoldable pub from_str : Str → Result Str ℕ
unfolding scaled rev
from_str s =
    let r = rev s in
    with_unit s (text "bt") (2 ^ 40) r (
      with_unit s (text "bg") (2 ^ 30) r (
        with_unit s (text "bm") (2 ^ 20) r
          (with_unit s (text "bk") (2 ^ 10) r (with_unit s (text "b") 1 r (scaled s 1 s)))))

-- the largest unit that a size reaches
abbrev pub unit_of : ℕ → ℕ × Str
unit_of bytes =
    if leb (2 ^ 40) bytes
    then (2 ^ 40, text "tb")
    else if leb (2 ^ 30) bytes
    then (2 ^ 30, text "gb")
    else if leb (2 ^ 20) bytes
    then (2 ^ 20, text "mb")
    else if leb (2 ^ 10) bytes
    then (2 ^ 10, text "kb")
    else (1, text "b")

unfoldable pub display : ℕ → Str
unfolding to_string
display bytes = to_string (bytes / (unit_of bytes).0) ++ (unit_of bytes).1
