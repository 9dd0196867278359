-- ===== src/PathTrie/Live.antt =====
-- The pruning that `has_prefix` relies on (crates/openfs-core/src/path_trie.rs).
use mathlib.Core.Path.{subst}
use open_fs.Prelude.{
  ◌<◌, ◌≡◌, refl, Bool, true, false, some, List, [], ◌∷◌, arith, nat_eq, list_eq, ◌==◌,
  Option-cases, Bool-cases, inl, inr, ◌&&◌, not,
}
use open_fs.Prelude.Text.{Str}
use open_fs.PathTrie.Count.{count-remove_recursive}
use open_fs.PathTrie.{
  TrieNode, Children, node, nil, cons, PathTrie, children, is_terminal, no_children, child_get,
  child_put, child_remove, or_new, insert_at, insert, put_or_prune, remove_recursive, remove,
  count_terminals, count_children, split_path,
}

-- Below every node but the root there is a stored path.
unfoldable mutual
  pub IsLive : TrieNode → Type 0
  IsLive (node cs t) = AreLive cs

  pub AreLive : Children → Type 0
  AreLive nil = Unit
  AreLive (cons k n cs) = (0 < count_terminals n) × IsLive n × AreLive cs

pub child-IsLive :
    (k : Str) (n : TrieNode) (cs : Children)
    → AreLive cs
    → child_get k cs ≡ some n
    → (0 < count_terminals n) × IsLive n
unfolding child_get AreLive
child-IsLive k n nil h e = absurd (ground arith)
child-IsLive k n (cons i m cs) h e = elim (Bool-cases (i == k)) [
  | inl here ↦ subst (λ m. (0 < count_terminals m) × IsLive m) (ground arith) (h.0, h.1)
  | inr there ↦ child-IsLive k n cs h.2 (ground arith)
]

put-AreLive :
    (k : Str) (n : TrieNode) (cs : Children)
    → 0 < count_terminals n
    → IsLive n
    → AreLive cs
    → AreLive (child_put k n cs)
unfolding child_put AreLive
put-AreLive k n nil pos hn h = (pos, hn, tt)
put-AreLive k n (cons i m cs) pos hn h = elim (Bool-cases (i == k)) [
  | inl here ↦ rw here (pos, hn, h.2)
  | inr there ↦ rw there (h.0, h.1, put-AreLive k n cs pos hn h.2)
]

remove-AreLive : (k : Str) (cs : Children) → AreLive cs → AreLive (child_remove k cs)
unfolding child_remove AreLive
remove-AreLive k nil h = tt
remove-AreLive k (cons i m cs) h = elim (Bool-cases (i == k)) [
  | inl here ↦ rw here h.2
  | inr there ↦ rw there (h.0, h.1, remove-AreLive k cs h.2)
]

or_new-IsLive : (k : Str) (cs : Children) → AreLive cs → IsLive (or_new (child_get k cs))
unfolding AreLive
or_new-IsLive k cs h = elim (Option-cases (child_get k cs)) [
  | inl absent ↦ rw absent tt
  | inr (n, there) ↦ rw there (child-IsLive k n cs h there).1
]

child_put-pos :
    (k : Str) (n : TrieNode) (cs : Children)
    → 0 < count_terminals n
    → 0 < count_children (child_put k n cs)
unfolding child_put count_terminals
child_put-pos k n nil pos = omega arith
child_put-pos k n (cons i m cs) pos = ground (arith, child_put-pos k n cs pos)

insert_at-pos : (p : List Str) (n : TrieNode) → 0 < count_terminals (insert_at p n).0
unfolding insert_at count_terminals
insert_at-pos [] (node cs t) = ground arith
insert_at-pos (c ∷ p) (node cs t) = ground (
  arith,
  child_put-pos c (insert_at p (or_new (child_get c cs))).0 cs
      (insert_at-pos p (or_new (child_get c cs))),
)

pub insert_at-IsLive : (p : List Str) (n : TrieNode) → IsLive n → IsLive (insert_at p n).0
unfolding insert_at AreLive
insert_at-IsLive [] (node cs t) h = h
insert_at-IsLive (c ∷ p) (node cs t) h =
    put-AreLive c (insert_at p (or_new (child_get c cs))).0 cs
      (insert_at-pos p (or_new (child_get c cs)))
      (insert_at-IsLive p (or_new (child_get c cs)) (or_new-IsLive c cs h)) h

-- A live node that is not a bare leaf has a stored path.
pub count-pos :
    (n : TrieNode)
    → IsLive n
    → (not (is_terminal n) && no_children (children n)) ≡ false
    → 0 < count_terminals n
unfolding AreLive count_terminals
count-pos (node nil true) h e = omega arith
count-pos (node nil false) h e = cc
count-pos (node (cons k m cs) t) h e = ground (arith, h.0)

put_or_prune-AreLive :
    (c : Str) (n : TrieNode) (removed : Bool) (cs : Children)
    → (removed ≡ false → 0 < count_terminals n)
    → IsLive n
    → AreLive cs
    → AreLive (put_or_prune c n removed cs)
unfolding put_or_prune
put_or_prune-AreLive c n false cs pos hn h = put-AreLive c n cs (pos refl) hn h
put_or_prune-AreLive c n true cs pos hn h =
    elim (Bool-cases (not (is_terminal n) && no_children (children n))) [
      | inl prune ↦ rw prune (remove-AreLive c cs h)
      | inr keep ↦ rw keep (put-AreLive c n cs (count-pos n hn keep) hn h)
    ]

pub remove_recursive-IsLive :
    (p : List Str) (n : TrieNode) → IsLive n → IsLive (remove_recursive p n).0
unfolding remove_recursive AreLive
remove_recursive-IsLive [] (node cs t) h = h
remove_recursive-IsLive (c ∷ p) (node cs t) h = elim (Option-cases (child_get c cs)) [
  | inl absent ↦ rw (absent, remove_recursive) h
  | inr (n, there) ↦
      let (pos, hn) = child-IsLive c n cs h there in
      rw (there, remove_recursive)
        (put_or_prune-AreLive c (remove_recursive p n).0 (remove_recursive p n).1 cs
          (λ e. ground (arith, count-remove_recursive p n)) (remove_recursive-IsLive p n hn) h)
]

-- Both operations that the cache uses keep every branch of the trie in use.
pub insert-remove-IsLive :
    (p : Str) (t : PathTrie) → IsLive t.root → IsLive (insert p t).root × IsLive (remove p t).0.root
unfolding insert remove
insert-remove-IsLive p t h =
    (insert_at-IsLive (split_path p) t.root h, remove_recursive-IsLive (split_path p) t.root h)
