-- ===== src/PathTrie/Lookup.antt =====
-- What `contains` answers after `insert`, `remove` and `remove_subtree`
-- (crates/openfs-core/src/path_trie.rs).
use open_fs.Prelude.{
  ◌≡◌, refl, Bool, true, false, ◌&&◌, Option, none, some, List, [], ◌∷◌, arith, nat_eq, list_eq,
  ◌==◌, list_beq, if◌then◌else◌, eq_iff, Option-cases, inl, inr,
}
use open_fs.Prelude.Text.{Str}
use open_fs.PathTrie.Distinct.{
  child_get-put, child_get-remove, IsDistinct, AreDistinct, IsDistinct-child,
}
use open_fs.PathTrie.{
  TrieNode, Children, node, nil, cons, PathTrie, child_get, child_put, child_remove, or_new,
  insert_at, insert, find, contains_at, contains, split_path, remove_recursive, remove,
  remove_subtree, remove_subtree_at, new_node, remove_under, put_or_prune, is_terminal, no_children,
  children,
}

-- `p` is the beginning of `q`.
abbrev pub is_prefix : List Str → List Str → Bool
is_prefix [] q = true
is_prefix (c ∷ p) [] = false
is_prefix (c ∷ p) (d ∷ q) = c == d && is_prefix p q

abbrev pub below : List Str → Option TrieNode → Bool
below q none = false
below q (some n) = contains_at q n

pub contains_at-cons :
    (d : Str) (q : List Str) (cs : Children) (t : Bool)
    → contains_at (d ∷ q) (node cs t) ≡ below q (child_get d cs)
unfolding contains_at find
contains_at-cons d q cs t = ground arith

below-new : (q : List Str) (o : Option TrieNode) → contains_at q (or_new o) ≡ below q o
unfolding contains_at find child_get
below-new [] none = refl
below-new (c ∷ q) none = refl
below-new q (some n) = refl

below-put :
    (c d : Str) (q : List Str) (m : TrieNode) (cs : Children)
    → below q (child_get d (child_put c m cs))
      ≡ (if c == d then contains_at q m else below q (child_get d cs))
below-put c d q m cs = ground (arith, child_get-put c d m cs)

contains_at-insert_at :
    (p q : List Str) (n : TrieNode)
    → contains_at q (insert_at p n).0 ≡ (if p == q then true else contains_at q n)
unfolding insert_at list_beq
contains_at-insert_at [] [] (node cs t) = unfold contains_at find in refl
contains_at-insert_at [] (d ∷ q) (node cs t) = rw contains_at-cons (rw contains_at-cons refl)
contains_at-insert_at (c ∷ p) [] (node cs t) = unfold contains_at find in refl
contains_at-insert_at (c ∷ p) (d ∷ q) (node cs t) = ground (
  arith,
  contains_at-cons d q cs t,
  contains_at-cons d q (child_put c (insert_at p (or_new (child_get c cs))).0 cs) t,
  below-put c d q (insert_at p (or_new (child_get c cs))).0 cs,
  contains_at-insert_at p q (or_new (child_get c cs)),
  below-new q (child_get c cs),
  eq_iff c d,
)

pub contains_at-leaf :
    (q : List Str) (n : TrieNode)
    → is_terminal n ≡ false
    → no_children (children n) ≡ true
    → contains_at q n ≡ false
unfolding contains_at find child_get
contains_at-leaf [] (node cs t) h e = h
contains_at-leaf (d ∷ q) (node nil t) h e = refl
contains_at-leaf (d ∷ q) (node (cons k m cs) t) h e = cc

below-put_or_prune :
    (c d : Str) (q : List Str) (m : TrieNode) (removed : Bool) (cs : Children)
    → AreDistinct cs
    → below q (child_get d (put_or_prune c m removed cs))
      ≡ (if c == d then contains_at q m else below q (child_get d cs))
unfolding put_or_prune
below-put_or_prune c d q m removed cs h =
    ground (arith, child_get-put c d m cs, child_get-remove c d cs h, contains_at-leaf q m)

contains_at-remove_recursive :
    (p q : List Str) (n : TrieNode)
    → IsDistinct n
    → contains_at q (remove_recursive p n).0 ≡ (if p == q then false else contains_at q n)
unfolding remove_recursive list_beq IsDistinct
contains_at-remove_recursive [] [] (node cs t) h = unfold contains_at find in refl
contains_at-remove_recursive [] (d ∷ q) (node cs t) h =
    rw contains_at-cons (rw contains_at-cons refl)
contains_at-remove_recursive (c ∷ p) [] (node cs t) h = elim (Option-cases (child_get c cs)) [
  | inl absent ↦ rw (absent, remove_recursive) refl
  | inr (n, there) ↦ rw (there, remove_recursive) (unfold contains_at find in refl)
]
contains_at-remove_recursive (c ∷ p) (d ∷ q) (node cs t) h = elim (Option-cases (child_get c cs)) [
  | inl absent ↦
      rw (absent, remove_recursive) (ground (arith, contains_at-cons d q cs t, eq_iff c d))
  | inr (n, there) ↦
      let m = (remove_recursive p n).0 in
      let cs' = put_or_prune c m (remove_recursive p n).1 cs in
      rw (there, remove_recursive)
        (ground (
          arith,
          contains_at-cons d q cs t,
          contains_at-cons d q cs' t,
          below-put_or_prune c d q m (remove_recursive p n).1 cs h,
          contains_at-remove_recursive p q n (IsDistinct-child c n cs h there),
          eq_iff c d,
        ))
]

removed-contains_at : (p : List Str) (n : TrieNode) → (remove_recursive p n).1 ≡ contains_at p n
unfolding remove_recursive contains_at find
removed-contains_at [] (node cs t) = refl
removed-contains_at (c ∷ p) (node cs t) = elim (Option-cases (child_get c cs)) [
  | inl absent ↦ rw (absent, remove_recursive, find) refl
  | inr (n, there) ↦ rw (there, remove_recursive, find) (removed-contains_at p n)
]

is_terminal-remove_under :
    (c : Str) (p : List Str) (n : TrieNode)
    → contains_at [] (remove_under c p n).0 ≡ contains_at [] n
unfolding remove_under contains_at find
is_terminal-remove_under c [] (node cs t) = elim (Option-cases (child_get c cs)) [
  | inl absent ↦ rw (absent, remove_under) refl
  | inr (n, there) ↦ rw (there, remove_under) refl
]
is_terminal-remove_under c (d ∷ p) (node cs t) = elim (Option-cases (child_get c cs)) [
  | inl absent ↦ rw (absent, remove_under) refl
  | inr (n, there) ↦ rw (there, remove_under) refl
]

contains_at-remove_under :
    (c : Str) (p q : List Str) (n : TrieNode)
    → IsDistinct n
    → contains_at q (remove_under c p n).0
      ≡ (if is_prefix (c ∷ p) q then false else contains_at q n)
unfolding remove_under IsDistinct
contains_at-remove_under c [] [] (node cs t) h = is_terminal-remove_under c [] (node cs t)
contains_at-remove_under c [] (d ∷ q) (node cs t) h = elim (Option-cases (child_get c cs)) [
  | inl absent ↦ rw (absent, remove_under) (ground (arith, contains_at-cons d q cs t, eq_iff c d))
  | inr (n, there) ↦
      rw (there, remove_under)
        (ground (
          arith,
          contains_at-cons d q cs t,
          contains_at-cons d q (child_remove c cs) t,
          child_get-remove c d cs h,
        ))
]
contains_at-remove_under c (e ∷ p) [] (node cs t) h = is_terminal-remove_under c (e ∷ p) (node cs t)
contains_at-remove_under c (e ∷ p) (d ∷ q) (node cs t) h = elim (Option-cases (child_get c cs)) [
  | inl absent ↦ rw (absent, remove_under) (ground (arith, contains_at-cons d q cs t, eq_iff c d))
  | inr (n, there) ↦
      let m = (remove_under e p n).0 in
      rw (there, remove_under)
        (ground (
          arith,
          contains_at-cons d q cs t,
          contains_at-cons d q (child_put c m cs) t,
          below-put c d q m cs,
          contains_at-remove_under e p q n (IsDistinct-child c n cs h there),
          eq_iff c d,
        ))
]

abbrev pub same_path : Str → Str → Bool
same_path p q = split_path p == split_path q

module _ (p q : Str) (t : PathTrie) where
  -- After `insert` the trie contains the path, however it is spelled, and what it contained before.
  pub contains-insert : contains q (insert p t) ≡ (if same_path p q then true else contains q t)
  unfolding contains insert
  contains-insert = contains_at-insert_at (split_path p) (split_path q) t.root

module _ (p q : Str) (t : PathTrie) (h : IsDistinct t.root) where
  -- `remove` says whether the trie contained the path; afterwards it does not, and every other path
  -- is as before.
  pub contains-remove :
      ((remove p t).1 ≡ contains p t)
      × (contains q (remove p t).0 ≡ (if same_path p q then false else contains q t))
  unfolding contains remove
  contains-remove = (
    removed-contains_at (split_path p) t.root,
    contains_at-remove_recursive (split_path p) (split_path q) t.root h,
  )

  -- `remove_subtree` takes away exactly the paths that begin with the components of the prefix.
  pub contains-remove_subtree :
      contains q (remove_subtree p t).0
      ≡ (if is_prefix (split_path p) (split_path q) then false else contains q t)
  unfolding contains remove_subtree
  contains-remove_subtree = go (split_path p)
    where
      go :
          (ps : List Str)
          → contains_at (split_path q) (remove_subtree_at ps t).0.root
            ≡ (if is_prefix ps (split_path q) then false else contains_at (split_path q) t.root)
      go [] = contains_at-leaf (split_path q) new_node refl refl
      go (c ∷ ps) = contains_at-remove_under c ps (split_path q) t.root h
