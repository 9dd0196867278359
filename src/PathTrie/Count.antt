-- ===== src/PathTrie/Count.antt =====
-- The counter `len` is the number of terminal nodes, through every operation
-- (crates/openfs-core/src/path_trie.rs).
use open_fs.Prelude.{
  ℕ, ◌+◌, ◌≡◌, refl, Bool, Option, none, some, List, [], ◌∷◌, arith, nat_eq, list_eq, if◌then◌else◌,
  Option-cases, inl, inr, true, length, ◌++◌, length-append, length-map, false, ◌∙◌, sym,
}
use open_fs.Prelude.Text.{Str}
use open_fs.PathTrie.Distinct.{
  IsDistinct, insert_at-IsDistinct, remove_recursive-IsDistinct, remove_under-IsDistinct,
}
use open_fs.PathTrie.{
  TrieNode, Children, node, nil, cons, PathTrie, children, is_terminal, no_children, child_get,
  child_put, child_remove, or_new, insert_at, insert, put_or_prune, remove_recursive, remove,
  count_terminals, count_children, remove_under, remove_subtree, remove_subtree_at, split_path,
  collect, collect_children, all_paths,
}

abbrev count_of : Option TrieNode → ℕ
count_of none = 0
count_of (some n) = count_terminals n

count-child_put :
    (k : Str) (n : TrieNode) (cs : Children)
    → count_children (child_put k n cs) + count_of (child_get k cs)
      ≡ count_children cs + count_terminals n
unfolding child_put child_get count_children
count-child_put k n nil = omega arith
count-child_put k n (cons j m cs) = ground (arith, count-child_put k n cs)

count-child_remove :
    (k : Str) (cs : Children)
    → count_children (child_remove k cs) + count_of (child_get k cs) ≡ count_children cs
unfolding child_remove child_get count_children
count-child_remove k nil = omega arith
count-child_remove k (cons j m cs) = ground (arith, count-child_remove k cs)

count-or_new : (o : Option TrieNode) → count_terminals (or_new o) ≡ count_of o
unfolding count_terminals count_children
count-or_new none = refl
count-or_new (some n) = refl

abbrev pub one_if : Bool → ℕ
one_if b = if b then 1 else 0

pub count-insert_at :
    (p : List Str) (n : TrieNode)
    → count_terminals (insert_at p n).0 ≡ count_terminals n + one_if (insert_at p n).1
unfolding insert_at count_terminals
count-insert_at [] (node cs t) = ground arith
count-insert_at (c ∷ p) (node cs t) = omega (
  arith,
  count-insert_at p (or_new (child_get c cs)),
  count-child_put c (insert_at p (or_new (child_get c cs))).0 cs,
  count-or_new (child_get c cs),
)

count-leaf :
    (n : TrieNode) → is_terminal n ≡ false → no_children (children n) ≡ true → count_terminals n ≡ 0
unfolding count_terminals count_children
count-leaf (node nil t) h e = ground arith
count-leaf (node (cons k m cs) t) h e = cc

count-put_or_prune :
    (c : Str) (n : TrieNode) (removed : Bool) (cs : Children)
    → count_children (put_or_prune c n removed cs) + count_of (child_get c cs)
      ≡ count_children cs + count_terminals n
unfolding put_or_prune
count-put_or_prune c n removed cs =
    ground (arith, count-child_put c n cs, count-child_remove c cs, count-leaf n)

pub count-remove_recursive :
    (p : List Str) (n : TrieNode)
    → count_terminals (remove_recursive p n).0 + one_if (remove_recursive p n).1 ≡ count_terminals n
unfolding remove_recursive count_terminals
count-remove_recursive [] (node cs t) = ground arith
count-remove_recursive (c ∷ p) (node cs t) = elim (Option-cases (child_get c cs)) [
  | inl absent ↦ rw (absent, remove_recursive) (omega arith)
  | inr (n, there) ↦
      let m = (remove_recursive p n).0 in
      rw (there, remove_recursive)
        (ground
          (arith, count-remove_recursive p n, count-put_or_prune c m (remove_recursive p n).1 cs))
]

pub count-remove_under :
    (c : Str) (p : List Str) (n : TrieNode)
    → count_terminals (remove_under c p n).0 + (remove_under c p n).1 ≡ count_terminals n
unfolding remove_under count_terminals
count-remove_under c [] (node cs t) = elim (Option-cases (child_get c cs)) [
  | inl absent ↦ rw (absent, remove_under) (omega arith)
  | inr (n, there) ↦ rw (there, remove_under) (ground (arith, count-child_remove c cs))
]
count-remove_under c (d ∷ p) (node cs t) = elim (Option-cases (child_get c cs)) [
  | inl absent ↦ rw (absent, remove_under) (omega arith)
  | inr (n, there) ↦
      rw (there, remove_under)
        (ground (arith, count-remove_under d p n, count-child_put c (remove_under d p n).0 cs))
]

pub record IsValid (t : PathTrie) : Type 0 where
  pub distinct : IsDistinct t.root
  pub counted : t.len ≡ count_terminals t.root

module _ (p : Str) (t : PathTrie) (h : IsValid t) where
  pub insert-IsValid : IsValid (insert p t)
  unfolding insert
  insert-IsValid = record {
    distinct = insert_at-IsDistinct (split_path p) t.root h.distinct;
    counted = ground (arith, count-insert_at (split_path p) t.root);
  }

  pub remove-IsValid : IsValid (remove p t).0
  unfolding remove
  remove-IsValid = record {
    distinct = remove_recursive-IsDistinct (split_path p) t.root h.distinct;
    counted = ground (arith, count-remove_recursive (split_path p) t.root);
  }

  subtree :
      (ps : List Str)
      → IsValid (remove_subtree_at ps t).0
        × ((remove_subtree_at ps t).0.len + (remove_subtree_at ps t).1 ≡ t.len)
  unfolding count_terminals IsDistinct
  subtree [] = (record { distinct = tt; counted = refl }, omega arith)
  subtree (c ∷ ps) =
      let e : t.len ≡ count_terminals t.root = h.counted in
      let f = count-remove_under c ps t.root in
      (
        record {
          distinct = remove_under-IsDistinct c ps t.root h.distinct;
          counted = omega (arith, e, f);
        },
        omega (arith, e, f),
      )

  -- Every operation keeps the counter `len` at the number of stored paths and no name twice among
  -- the children of a node, and what `remove_subtree` returns is by how much `len` fell.
  pub operations-IsValid :
      IsValid (insert p t)
      × IsValid (remove p t).0
      × IsValid (remove_subtree p t).0
      × ((remove_subtree p t).0.len + (remove_subtree p t).1 ≡ t.len)
  unfolding remove_subtree
  operations-IsValid =
      (insert-IsValid, remove-IsValid, (subtree (split_path p)).0, (subtree (split_path p)).1)

mutual
  unfolding collect count_terminals

  length-collect_node :
      (n : TrieNode) (done : List Str) → length (collect done n) ≡ count_terminals n
  length-collect_node (node cs true) done = omega (arith, length-collect_children cs done)
  length-collect_node (node cs false) done = omega (arith, length-collect_children cs done)

  length-collect_children :
      (cs : Children) (done : List Str) → length (collect_children done cs) ≡ count_children cs
  length-collect_children nil done = refl
  length-collect_children (cons k n cs) done = omega (
    arith,
    length-append (collect (done ++ k ∷ []) n) (collect_children done cs),
    length-collect_node n (done ++ k ∷ []),
    length-collect_children cs done,
  )

-- `all_paths` lists as many paths as `len` says.
pub length-all_paths : (t : PathTrie) → IsValid t → length (all_paths t) ≡ t.len
unfolding all_paths
length-all_paths t h = length-collect_all ∙ sym h.counted
  where
    length-collect_all : length (all_paths t) ≡ count_terminals t.root
    length-collect_all = length-map _ (collect [] t.root) ∙ length-collect_node t.root []
