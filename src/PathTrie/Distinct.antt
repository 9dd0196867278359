-- ===== src/PathTrie/Distinct.antt =====
-- Reading the children of a node after a write to them, and the invariant that no name stands
-- twice among them, which a hash map has by itself (crates/openfs-core/src/path_trie.rs).
use mathlib.Core.Path.{subst}
use open_fs.Prelude.{
  ◌≡◌, refl, Bool, not, ◌&&◌, none, some, arith, Option-cases, nat_eq, list_eq, ◌==◌, eq_iff,
  eq_comm, eq_sound, if◌then◌else◌, Bool-cases, inl, inr, List, [], ◌∷◌,
}
use open_fs.Prelude.Text.{Str}
use open_fs.PathTrie.{
  TrieNode, Children, node, nil, cons, children, is_terminal, no_children, child_get, child_put,
  child_remove, put_or_prune, or_new, insert_at, remove_recursive, remove_under,
}

pub child_get-put :
    (k j : Str) (n : TrieNode) (cs : Children)
    → child_get j (child_put k n cs) ≡ (if k == j then some n else child_get j cs)
unfolding child_get child_put
child_get-put k j n nil = refl
child_get-put k j n (cons i m cs) =
    ground (arith, eq_iff k j, eq_iff i k, eq_iff i j, child_get-put k j n cs)

unfoldable mutual
  pub IsDistinct : TrieNode → Type 0
  IsDistinct (node cs t) = AreDistinct cs

  pub AreDistinct : Children → Type 0
  AreDistinct nil = Unit
  AreDistinct (cons k n cs) = (child_get k cs ≡ none) × IsDistinct n × AreDistinct cs

pub child_get-remove :
    (k j : Str) (cs : Children)
    → AreDistinct cs
    → child_get j (child_remove k cs) ≡ (if k == j then none else child_get j cs)
unfolding child_get child_remove AreDistinct
child_get-remove k j nil h = ground arith
child_get-remove k j (cons i m cs) h =
    ground (arith, eq_iff k j, eq_iff i k, eq_iff i j, child_get-remove k j cs h.2)

pub IsDistinct-child :
    (k : Str) (n : TrieNode) (cs : Children)
    → AreDistinct cs
    → child_get k cs ≡ some n
    → IsDistinct n
unfolding child_get AreDistinct
IsDistinct-child k n nil h e = ground arith
IsDistinct-child k n (cons i m cs) h e = elim (Bool-cases (i == k)) [
  | inl here ↦ subst IsDistinct (ground arith) h.1
  | inr there ↦ IsDistinct-child k n cs h.2 (ground arith)
]

AreDistinct-put :
    (k : Str) (n : TrieNode) (cs : Children)
    → IsDistinct n
    → AreDistinct cs
    → AreDistinct (child_put k n cs)
unfolding child_put AreDistinct child_get
AreDistinct-put k n nil hn h = (refl, hn, tt)
AreDistinct-put k n (cons i m cs) hn h = elim (Bool-cases (i == k)) [
  | inl here ↦ rw here (subst (λ j. child_get j cs ≡ none) (eq_sound i k here) h.0, hn, h.2)
  | inr there ↦
      rw there
        (ground (arith, child_get-put k i n cs, eq_comm i k), h.1, AreDistinct-put k n cs hn h.2)
]

AreDistinct-remove : (k : Str) (cs : Children) → AreDistinct cs → AreDistinct (child_remove k cs)
unfolding child_remove AreDistinct
AreDistinct-remove k nil h = tt
AreDistinct-remove k (cons i m cs) h = elim (Bool-cases (i == k)) [
  | inl here ↦ rw here h.2
  | inr there ↦
      rw there (ground (arith, child_get-remove k i cs h.2), h.1, AreDistinct-remove k cs h.2)
]

IsDistinct-or_new :
    (k : Str) (cs : Children) → AreDistinct cs → IsDistinct (or_new (child_get k cs))
unfolding AreDistinct
IsDistinct-or_new k cs h = elim (Option-cases (child_get k cs)) [
  | inl absent ↦ rw absent tt
  | inr (n, there) ↦ rw there (IsDistinct-child k n cs h there)
]

pub insert_at-IsDistinct :
    (p : List Str) (n : TrieNode) → IsDistinct n → IsDistinct (insert_at p n).0
unfolding insert_at AreDistinct
insert_at-IsDistinct [] (node cs t) h = h
insert_at-IsDistinct (c ∷ p) (node cs t) h =
    AreDistinct-put c (insert_at p (or_new (child_get c cs))).0 cs
      (insert_at-IsDistinct p (or_new (child_get c cs)) (IsDistinct-or_new c cs h)) h

put_or_prune-AreDistinct :
    (c : Str) (n : TrieNode) (removed : Bool) (cs : Children)
    → IsDistinct n
    → AreDistinct cs
    → AreDistinct (put_or_prune c n removed cs)
unfolding put_or_prune
put_or_prune-AreDistinct c n removed cs hn h =
    elim (Bool-cases (removed && (not (is_terminal n) && no_children (children n)))) [
      | inl prune ↦ rw prune (AreDistinct-remove c cs h)
      | inr keep ↦ rw keep (AreDistinct-put c n cs hn h)
    ]

pub remove_recursive-IsDistinct :
    (p : List Str) (n : TrieNode) → IsDistinct n → IsDistinct (remove_recursive p n).0
unfolding remove_recursive AreDistinct
remove_recursive-IsDistinct [] (node cs t) h = h
remove_recursive-IsDistinct (c ∷ p) (node cs t) h = elim (Option-cases (child_get c cs)) [
  | inl absent ↦ rw (absent, remove_recursive) h
  | inr (n, there) ↦
      rw (there, remove_recursive)
        (put_or_prune-AreDistinct c (remove_recursive p n).0 (remove_recursive p n).1 cs
          (remove_recursive-IsDistinct p n (IsDistinct-child c n cs h there)) h)
]

pub remove_under-IsDistinct :
    (c : Str) (p : List Str) (n : TrieNode) → IsDistinct n → IsDistinct (remove_under c p n).0
unfolding remove_under AreDistinct
remove_under-IsDistinct c [] (node cs t) h = elim (Option-cases (child_get c cs)) [
  | inl absent ↦ rw (absent, remove_under) h
  | inr (n, there) ↦ rw (there, remove_under) (AreDistinct-remove c cs h)
]
remove_under-IsDistinct c (d ∷ p) (node cs t) h = elim (Option-cases (child_get c cs)) [
  | inl absent ↦ rw (absent, remove_under) h
  | inr (n, there) ↦
      rw (there, remove_under)
        (AreDistinct-put c (remove_under d p n).0 cs
          (remove_under-IsDistinct d p n (IsDistinct-child c n cs h there)) h)
]
