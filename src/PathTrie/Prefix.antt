-- ===== src/PathTrie/Prefix.antt =====
-- What `has_prefix` holds of (crates/openfs-core/src/path_trie.rs).
use open_fs.Prelude.{
  ◌<◌, ◌≡◌, refl, Bool, true, false, Option, none, some, List, [], ◌∷◌, ◌∙◌, ◌++◌, arith, nat_eq,
  list_eq, eq_iff, eq_refl, Option-cases, inl, inr, ◌↔◌,
}
use open_fs.Prelude.Text.{Str}
use open_fs.PathTrie.Distinct.{IsDistinct}
use open_fs.PathTrie.Lookup.{
  contains_at-cons, contains_at-leaf, is_prefix, contains-insert, contains-remove_subtree,
}
use open_fs.PathTrie.Count.{IsValid, insert-IsValid}
use open_fs.PathTrie.{
  TrieNode, node, nil, cons, PathTrie, new, child_get, child_put, insert_at, insert, remove_under,
  remove_subtree, contains, new_node, count_terminals, find, contains_at, has_prefix_at, has_prefix,
  split_path,
}
use open_fs.PathTrie.Live.{AreLive, IsLive, child-IsLive, count-pos}

some_path :
    (n : TrieNode) → IsLive n → 0 < count_terminals n → (q : List Str) × (contains_at q n ≡ true)
unfolding AreLive count_terminals child_get
some_path (node cs true) h pos = ([], unfold contains_at find in refl)
some_path (node nil false) h pos = absurd (omega arith)
some_path (node (cons k m cs) false) h pos =
    let (q, found) = some_path m h.1 h.0 in
    (k ∷ q, ground (arith, contains_at-cons k q (cons k m cs) false, eq_refl k, found))

find-IsLive :
    (c : Str) (p : List Str) (n m : TrieNode)
    → IsLive n
    → find (c ∷ p) n ≡ some m
    → (0 < count_terminals m) × IsLive m
unfolding find AreLive
find-IsLive c [] (node cs t) m h e = elim (Option-cases (child_get c cs)) [
  | inl absent ↦ absurd (ground arith)
  | inr (k, there) ↦ child-IsLive c m cs h (ground arith)
]
find-IsLive c (d ∷ p) (node cs t) m h e = elim (Option-cases (child_get c cs)) [
  | inl absent ↦ absurd (ground arith)
  | inr (k, there) ↦ find-IsLive d p k m (child-IsLive c k cs h there).1 (rw (there, find) at e)
]

abbrev contains_below : List Str → Option TrieNode → Bool
contains_below r none = false
contains_below r (some m) = contains_at r m

contains_at-append :
    (p r : List Str) (n : TrieNode) → contains_at (p ++ r) n ≡ contains_below r (find p n)
unfolding find
contains_at-append [] r n = refl
contains_at-append (c ∷ p) r (node cs t) = elim (Option-cases (child_get c cs)) [
  | inl absent ↦ contains_at-cons c (p ++ r) cs t ∙ rw (absent, find) refl
  | inr (k, there) ↦ contains_at-cons c (p ++ r) cs t ∙ rw (there, find) (contains_at-append p r k)
]

has_prefix_at_complete :
    (p : List Str) (n : TrieNode)
    → IsLive n
    → has_prefix_at p n ≡ true
    → (r : List Str) × (contains_at (p ++ r) n ≡ true)
unfolding has_prefix_at
has_prefix_at_complete [] n h e = some_path n h (count-pos n h (ground arith))
has_prefix_at_complete (c ∷ p) n h e = elim (Option-cases (find (c ∷ p) n)) [
  | inl absent ↦ absurd (ground arith)
  | inr (m, there) ↦
      let (pos, hm) = find-IsLive c p n m h there in
      let (r, found) = some_path m hm pos in (r, contains_at-append (c ∷ p) r n ∙ rw there found)
]

has_prefix_at_sound :
    (p r : List Str) (n : TrieNode) → contains_at (p ++ r) n ≡ true → has_prefix_at p n ≡ true
unfolding has_prefix_at contains_at find child_get
has_prefix_at_sound [] [] (node cs t) e = ground arith
has_prefix_at_sound [] (d ∷ r) (node nil t) e = ground (arith, contains_at-cons d r nil t)
has_prefix_at_sound [] (d ∷ r) (node (cons k m cs) t) e = ground arith
has_prefix_at_sound (c ∷ p) r n e = ground (arith, contains_at-append (c ∷ p) r n)

-- In a trie where every branch is in use, `has_prefix` holds exactly if some stored path begins
-- with the components of the prefix.
pub has_prefix_iff :
    (p : Str) (t : PathTrie)
    → IsLive t.root
    → (has_prefix p t ≡ true) ↔ ((r : List Str) × (contains_at (split_path p ++ r) t.root ≡ true))
unfolding has_prefix
has_prefix_iff p t h = (
  has_prefix_at_complete (split_path p) t.root h,
  λ found. has_prefix_at_sound (split_path p) found.0 t.root found.1,
)

stale_node :
    (c d : Str) (ds : List Str)
    → has_prefix_at (c ∷ []) (remove_under c (d ∷ ds) (insert_at (c ∷ d ∷ ds) new_node).0).0 ≡ true
unfolding has_prefix_at find insert_at remove_under child_get child_put
stale_node c d ds = ground (arith, eq_refl c)

is_prefix_refl : (p : List Str) → is_prefix p p ≡ true
is_prefix_refl [] = refl
is_prefix_refl (c ∷ p) = ground (arith, eq_refl c, is_prefix_refl p)

contains-new : (r : Str) → contains r new ≡ false
unfolding contains
contains-new r = contains_at-leaf (split_path r) new_node refl refl

new-IsValid : IsValid new
unfolding IsDistinct count_terminals
new-IsValid = record { distinct = tt; counted = refl }

contains-insert-remove_subtree :
    (p r : Str) → contains r (remove_subtree p (insert p new)).0 ≡ false
contains-insert-remove_subtree p r = ground (
  arith,
  contains-remove_subtree p r (insert p new) (insert-IsValid p new new-IsValid).distinct,
  contains-insert p r new,
  contains-new r,
  eq_iff (split_path p) (split_path r),
  is_prefix_refl (split_path p),
)

-- `remove_subtree` does not prune: after a path of two or more components is inserted into an empty
-- trie and its subtree is removed, `has_prefix` still holds of its first component, although the
-- trie contains no path.
pub has_prefix-remove_subtree_stale :
    (p q r c d : Str) (ds : List Str)
    → split_path p ≡ c ∷ d ∷ ds
    → split_path q ≡ c ∷ []
    → (has_prefix q (remove_subtree p (insert p new)).0 ≡ true)
      × (contains r (remove_subtree p (insert p new)).0 ≡ false)
unfolding has_prefix remove_subtree insert
has_prefix-remove_subtree_stale p q r c d ds hp hq =
    (rw (hp, hq) (stale_node c d ds), contains-insert-remove_subtree p r)
