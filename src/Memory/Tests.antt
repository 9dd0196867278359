-- ===== src/Memory/Tests.antt =====
-- Runs of the memory backend, and its theorems at concrete inputs
-- (crates/openfs-remote/src/backends/memory.rs).
use open_fs.Prelude.{
  ◌+◌, ◌≡◌, refl, true, false, none, some, [], ◌∷◌, list_beq, nat_eq, list_eq, arith, any,
}
use open_fs.Prelude.Decimal.{to_string, digits}
use open_fs.Prelude.Map
use open_fs.Prelude.Text.{Str, text, trim, trim_start, trim_end, split, strip_prefix}
use open_fs.Error.{precondition_failed, ok, err}
use open_fs.Memory.{
  MemoryBackend, normalize_path, read, write, append, delete, rename, exists, stat,
  compare_and_swap, precondition, last_of,
}
use open_fs.Memory.Swap.{file_at, changes, written, swapped, stale_token-fails}

program : Unit {0}
unfolding normalize_path trim trim_start trim_end read write append delete rename exists stat
    last_of split strip_prefix any to_string digits precondition compare_and_swap Map.get Map.insert
    Map.remove list_beq
program = tt

abbrev a : Str
a = text "/docs/a.txt"

abbrev b0 : MemoryBackend
b0 = record {
  files = (text "docs/a.txt", record { content = 1 ∷ []; mtime = 5; version = 3 }) ∷ [];
}

decimal : to_string 1205 ≡ text "1205"
unfolding program
decimal = refl

found : (exists (text "docs/") b0 ≡ true) × (exists (text "doc") b0 ≡ false)
unfolding program
found = (refl, refl)

described :
    stat (text "docs") b0
    ≡ ok (record {
      path = text "docs";
      name = text "docs";
      is_dir = true;
      size = none;
      modified = none;
    })
unfolding program
described = refl

there : file_at a b0 ≡ some (record { content = 1 ∷ []; mtime = 5; version = 3 })
unfolding program
there = refl

stale_token-fails_example :
    compare_and_swap 9 a
      (some (to_string 3))
      (2 ∷ [])
      (changes a (written 6 (7 ∷ []) ∷ swapped 7 [] ∷ []) b0)
    ≡ (
      changes a (written 6 (7 ∷ []) ∷ swapped 7 [] ∷ []) b0,
      err (precondition_failed a (to_string 3) (to_string (3 + 2))),
    )
stale_token-fails_example =
    stale_token-fails 9 a (2 ∷ []) b0 (record { content = 1 ∷ []; mtime = 5; version = 3 })
      (written 6 (7 ∷ [])) (swapped 7 [] ∷ []) there (omega arith)

free : file_at (text "new") b0 ≡ none
unfolding program
free = refl
