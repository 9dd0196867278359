-- ===== src/Router/Tests.antt =====
-- Runs of the router, and its theorems at concrete inputs (crates/openfs-remote/src/router.rs).
use mathlib.Core.List.{Memᴰ}
use open_fs.Prelude.{◌≡◌, refl, true, false, some, List, [], ◌∷◌, ℕ, All, list_beq}
use open_fs.Prelude.Text.{
  slash, text, starts_with, ends_with, pop, strip_prefix, trim_start, trim_end,
}
use open_fs.Error.{no_mount, ok, err}
use open_fs.Router
use open_fs.Router.{
  Mount, Router, normalize_path, strip_mount_prefix, strip_normalized, resolve, first_match,
  sort_mounts, insert_sorted, get_mount,
}
use open_fs.Router.Prefix.{LiesAt}
use open_fs.Router.Resolve.{NoLonger, resolve_longest}

program : Unit {0}
unfolding Router.new resolve first_match sort_mounts insert_sorted strip_mount_prefix
    strip_normalized normalize_path starts_with ends_with pop strip_prefix trim_start trim_end
    list_beq get_mount
program = tt

abbrev work : Mount ℕ
work = record { path = text "/work"; backend = 1; read_only = false }

abbrev docs : Mount ℕ
docs = record { path = text "/work/docs"; backend = 2; read_only = true }

abbrev mounts : List (Mount ℕ)
mounts = work ∷ docs ∷ []

resolves : resolve (Router.new mounts) (text "work/docs/a.txt/") ≡ ok (2, text "a.txt", true)
unfolding program
resolves = refl

resolves_shorter : resolve (Router.new mounts) (text "/work/docsx") ≡ ok (1, text "docsx", false)
unfolding program
resolves_shorter = refl

misses : resolve (Router.new mounts) (text "/workx") ≡ err (no_mount (text "/workx"))
unfolding program
misses = refl

gets : get_mount (Router.new mounts) (text "/work") ≡ some work
unfolding program
gets = refl

root_path :
    resolve (Router.new (record work { path = text "/" } ∷ [])) (text "/a/b")
    ≡ ok (1, text "a/b", false)
unfolding program
root_path = refl

resolve_longest_example :
    (m : Mount ℕ) × Memᴰ m mounts
    × (m.backend ≡ 2)
    × (m.read_only ≡ true)
    × LiesAt (normalize_path (text "work/docs/a.txt/")) (trim_end slash m.path) (text "a.txt")
    × All (NoLonger (normalize_path (text "work/docs/a.txt/")) m) mounts
resolve_longest_example = resolve_longest mounts (text "work/docs/a.txt/") resolves
