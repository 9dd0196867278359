-- ===== src/PathTrie.antt =====
-- crates/openfs-core/src/path_trie.rs: a trie over the components of a path.
-- `children` is a hash map there, and an association list here; the loops that walk down from the
-- root are recursions on the components.
pub mod Distinct
pub mod Lookup
pub mod Count
pub mod Live
pub mod Prefix
mod Tests
use open_fs.Prelude.{
  ℕ, ◌+◌, ◌-◌, Bool, true, false, not, ◌&&◌, ◌||◌, Option, none, some, List, [], ◌∷◌, ◌++◌, map,
  retain, nat_eq, list_eq, ◌==◌, if◌then◌else◌,
}
use open_fs.Prelude.Text.{Str, slash, split, is_empty}

mutual
  pub data TrieNode : Type 0 where
    node : Children → Bool → TrieNode

  pub data Children : Type 0 where
    nil : Children
    cons : Str → TrieNode → Children → Children

pub record PathTrie : Type 0 where
  pub root : TrieNode
  pub len : ℕ

abbrev pub children : TrieNode → Children
children (node cs t) = cs

abbrev pub is_terminal : TrieNode → Bool
is_terminal (node cs t) = t

abbrev pub no_children : Children → Bool
no_children nil = true
no_children (cons k n cs) = false

-- `HashMap::get`, `insert` over a present or an absent key, and `remove`
unfoldable pub child_get : Str → Children → Option TrieNode
child_get k nil = none
child_get k (cons j n cs) = if j == k then some n else child_get k cs

unfoldable pub child_put : Str → TrieNode → Children → Children
child_put k n nil = cons k n nil
child_put k n (cons j m cs) = if j == k then cons k n cs else cons j m (child_put k n cs)

unfoldable pub child_remove : Str → Children → Children
child_remove k nil = nil
child_remove k (cons j m cs) = if j == k then cs else cons j m (child_remove k cs)

abbrev pub new_node : TrieNode
new_node = node nil false

abbrev pub new : PathTrie
new = record { root = new_node; len = 0 }

pub split_path : Str → List Str
split_path path = retain (λ s. not (is_empty s)) (split slash path)

abbrev pub or_new : Option TrieNode → TrieNode
or_new none = new_node
or_new (some n) = n

-- The node, and whether its terminal mark is new.
pub insert_at : List Str → TrieNode → TrieNode × Bool
insert_at [] (node cs t) = (node cs true, not t)
insert_at (c ∷ rest) (node cs t) =
    let (child, added) = insert_at rest (or_new (child_get c cs)) in
    (node (child_put c child cs) t, added)

pub insert : Str → PathTrie → PathTrie
unfolding insert_at
insert path t =
    let (root, added) = insert_at (split_path path) t.root in
    record { root = root; len = if added then t.len + 1 else t.len }

-- The children with `child` put back, or without it where nothing is left below it.
unfoldable pub put_or_prune : Str → TrieNode → Bool → Children → Children
put_or_prune c child removed cs =
    if removed && (not (is_terminal child) && no_children (children child))
    then child_remove c cs
    else child_put c child cs

pub remove_recursive : List Str → TrieNode → TrieNode × Bool
remove_recursive [] (node cs t) = (node cs false, t)
remove_recursive (c ∷ rest) (node cs t) = elim (child_get c cs) [
  | none ↦ (node cs t, false)
  | some child ↦
      let (child', removed) = remove_recursive rest child in
      (node (put_or_prune c child' removed cs) t, removed)
]

pub remove : Str → PathTrie → PathTrie × Bool
unfolding remove_recursive put_or_prune
remove path t =
    let (root, removed) = remove_recursive (split_path path) t.root in
    (record { root = root; len = if removed then t.len - 1 else t.len }, removed)

-- the loops of `contains`, `has_prefix` and `list_children`
unfoldable pub find : List Str → TrieNode → Option TrieNode
find [] n = some n
find (c ∷ rest) (node cs t) = elim (child_get c cs) [ none ↦ none | some child ↦ find rest child ]

abbrev pub terminal_at : Option TrieNode → Bool
terminal_at none = false
terminal_at (some n) = is_terminal n

unfoldable pub contains_at : List Str → TrieNode → Bool
contains_at components n = terminal_at (find components n)

pub contains : Str → PathTrie → Bool
unfolding contains_at
contains path t = contains_at (split_path path) t.root

pub has_prefix_at : List Str → TrieNode → Bool
has_prefix_at [] n = is_terminal n || not (no_children (children n))
has_prefix_at (c ∷ rest) n = elim (find (c ∷ rest) n) [ none ↦ false | some _ ↦ true ]

pub has_prefix : Str → PathTrie → Bool
unfolding has_prefix_at
has_prefix prefix t = has_prefix_at (split_path prefix) t.root

unfoldable pub names : Children → List Str
names nil = []
names (cons k n cs) = k ∷ names cs

pub list_children : Str → PathTrie → List Str
unfolding names
list_children path t = elim (find (split_path path) t.root) [
  | none ↦ []
  | some n ↦ names (children n)
]

unfoldable mutual
  pub count_terminals : TrieNode → ℕ
  count_terminals (node cs t) = (if t then 1 else 0) + count_children cs

  pub count_children : Children → ℕ
  count_children nil = 0
  count_children (cons k n cs) = count_terminals n + count_children cs

-- `remove_subtree` below the root: the node, and how many paths went.
pub remove_under : Str → List Str → TrieNode → TrieNode × ℕ
remove_under c [] (node cs t) = elim (child_get c cs) [
  | none ↦ (node cs t, 0)
  | some gone ↦ (node (child_remove c cs) t, count_terminals gone)
]
remove_under c (d ∷ rest) (node cs t) = elim (child_get c cs) [
  | none ↦ (node cs t, 0)
  | some child ↦
      let (child', count) = remove_under d rest child in (node (child_put c child' cs) t, count)
]

abbrev pub remove_subtree_at : List Str → PathTrie → PathTrie × ℕ
remove_subtree_at [] t = (new, t.len)
remove_subtree_at (c ∷ rest) t =
    let (root, count) = remove_under c rest t.root in
    (record { root = root; len = t.len - count }, count)

pub remove_subtree : Str → PathTrie → PathTrie × ℕ
unfolding remove_under count_terminals
remove_subtree prefix t = remove_subtree_at (split_path prefix) t

-- `components.join("/")` after a slash; the root is `/`
unfoldable pub join_path : List Str → Str
join_path [] = slash ∷ []
join_path (c ∷ []) = slash ∷ c
join_path (c ∷ d ∷ rest) = slash ∷ (c ++ join_path (d ∷ rest))

-- the component lists of the stored paths, in the order of the walk of `collect_paths`
unfoldable mutual
  pub collect : List Str → TrieNode → List (List Str)
  collect done (node cs t) = (if t then done ∷ [] else []) ++ collect_children done cs

  pub collect_children : List Str → Children → List (List Str)
  collect_children done nil = []
  collect_children done (cons k n cs) = collect (done ++ k ∷ []) n ++ collect_children done cs

pub all_paths : PathTrie → List Str
unfolding collect join_path
all_paths t = map join_path (collect [] t.root)
