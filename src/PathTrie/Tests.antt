-- ===== src/PathTrie/Tests.antt =====
-- Runs of the path trie, and its theorems at concrete inputs (crates/openfs-core/src/path_trie.rs).
use open_fs.Prelude.{
  ◌≡◌, refl, ◌↔◌, arith, ◌+◌, true, false, List, [], ◌∷◌, ◌++◌, list_beq, if◌then◌else◌, retain,
}
use open_fs.Prelude.Text.{Str, text, split}
use open_fs.PathTrie
use open_fs.PathTrie.{
  PathTrie, new, split_path, contains, has_prefix, contains_at, list_children, all_paths, insert_at,
  remove_recursive, remove_under, put_or_prune, find, child_get, child_put, child_remove,
  has_prefix_at, names, collect, join_path, count_terminals, remove_subtree,
}
use open_fs.PathTrie.Distinct.{IsDistinct}
use open_fs.PathTrie.Lookup.{same_path, contains-remove}
use open_fs.PathTrie.Count.{IsValid, operations-IsValid}
use open_fs.PathTrie.Live.{IsLive}
use open_fs.PathTrie.Prefix.{has_prefix_iff}

program : Unit {0}
unfolding split split_path PathTrie.insert PathTrie.remove contains has_prefix list_children
    all_paths child_get child_put child_remove find retain list_beq IsDistinct IsLive
    count_terminals remove_subtree
program = tt

abbrev abc : Str
abc = text "/a/b/c"

abbrev abd : Str
abd = text "a/b//d/"

abbrev two : PathTrie
two = PathTrie.insert abd (PathTrie.insert abc new)

removes :
    (contains abd (PathTrie.remove abc two).0 ≡ true)
    × (contains abc (PathTrie.remove abc two).0 ≡ false)
unfolding program
removes = (refl, refl)

prefixes : (has_prefix (text "/a/b") two ≡ true) × (has_prefix (text "/a/x") two ≡ false)
unfolding program
prefixes = (refl, refl)

children : list_children (text "/a/b") two ≡ text "c" ∷ text "d" ∷ []
unfolding program
children = refl

paths : all_paths two ≡ text "/a/b/c" ∷ text "/a/b/d" ∷ []
unfolding program
paths = refl

two-IsValid : IsValid two
unfolding program
two-IsValid = record {
  distinct = (refl, (refl, (refl, tt, (refl, tt, tt)), tt), tt);
  counted = refl;
}

two-IsLive : IsLive two.root
unfolding program
two-IsLive = (omega arith, (omega arith, (omega arith, tt, (omega arith, tt, tt)), tt), tt)

contains-remove_example :
    ((PathTrie.remove abc two).1 ≡ contains abc two)
    × (contains abd (PathTrie.remove abc two).0
        ≡ (if same_path abc abd then false else contains abd two))
contains-remove_example = contains-remove abc abd two two-IsValid.distinct

operations-IsValid_example :
    IsValid (PathTrie.insert abc two)
    × IsValid (PathTrie.remove abc two).0
    × IsValid (remove_subtree abc two).0
    × ((remove_subtree abc two).0.len + (remove_subtree abc two).1 ≡ two.len)
operations-IsValid_example = operations-IsValid abc two two-IsValid

has_prefix_iff_example :
    (has_prefix (text "/a/b") two ≡ true)
    ↔ ((r : List Str) × (contains_at (split_path (text "/a/b") ++ r) two.root ≡ true))
has_prefix_iff_example = has_prefix_iff (text "/a/b") two two-IsLive
