-- ===== src/Inode/Steps.antt =====
-- The tables that the operations of crates/openfs-fuse/src/inode.rs lead to.
use open_fs.Prelude.{
  ℕ, ◌≡◌, ◌≢◌, ◌↔◌, ◌∙◌, sym, Bool, none, some, arith, nat_eq, list_eq, ◌==◌, eq_iff, if◌then◌else◌,
  Option-cases, inl, inr,
}
use mathlib.Core.Option.{some-injective}
use open_fs.Prelude.Map
use open_fs.Prelude.Text.{Str}
use open_fs.Inode.{
  Process, InodeTable, new, normalize_path, update_attr, get_or_create, get_ino, get_path, remove,
  remove_path, create_symlink, alloc_virtual_ino,
}
use open_fs.Inode.Table.{
  IsValid, new-IsValid, with_mapping-IsValid, update_attr-IsValid, get_or_create-IsValid,
  remove-IsValid,
}

-- One operation. A link is created at a path that has no number.
pub data Step : InodeTable → InodeTable → Type 0 where
  created :
      (p : Process) (path : Str) (is_dir : Bool) (size : ℕ) (t : InodeTable)
      → Step t (get_or_create p path is_dir size t).0
  updated :
      (p : Process) (ino size : ℕ) (is_dir : Bool) (t : InodeTable)
      → Step t (update_attr p ino size is_dir t)
  removed : (ino : ℕ) (t : InodeTable) → Step t (remove ino t)
  removed_path : (path : Str) (t : InodeTable) → Step t (remove_path path t)
  linked :
      (p : Process) (path target : Str) (t : InodeTable)
      → get_ino path t ≡ none
      → Step t (create_symlink p path target t).0
  allocated : (t : InodeTable) → Step t (alloc_virtual_ino t).0

pub data Reachable (p : Process) : InodeTable → Type 0 where
  start : Reachable p (new p)
  next : {t u : InodeTable} → Reachable p t → Step t u → Reachable p u

remove_path-IsValid : (path : Str) (t : InodeTable) → IsValid t → IsValid (remove_path path t)
unfolding remove_path
remove_path-IsValid path t h = elim (Option-cases (Map.get (normalize_path path) t.path_to_ino)) [
  | inl absent ↦ rw (absent, remove_path) h
  | inr (ino, there) ↦ rw (there, remove_path) (remove-IsValid ino t h)
]

create_symlink-IsValid :
    (p : Process) (path target : Str) (t : InodeTable)
    → get_ino path t ≡ none
    → IsValid t
    → IsValid (create_symlink p path target t).0
unfolding create_symlink get_ino
create_symlink-IsValid p path target t free h =
    with_mapping-IsValid (normalize_path path) _ t h free

alloc-IsValid : (t : InodeTable) → IsValid t → IsValid (alloc_virtual_ino t).0
unfolding alloc_virtual_ino
alloc-IsValid t h = record {
  back = h.back;
  forth = h.forth;
  below = λ q i e. ground (arith, h.below q i);
}

Step-IsValid : {t u : InodeTable} → Step t u → IsValid t → IsValid u
Step-IsValid (created p path is_dir size t) h = get_or_create-IsValid p path is_dir size t h
Step-IsValid (updated p ino size is_dir t) h = update_attr-IsValid p ino size is_dir t h
Step-IsValid (removed ino t) h = remove-IsValid ino t h
Step-IsValid (removed_path path t) h = remove_path-IsValid path t h
Step-IsValid (linked p path target t free) h = create_symlink-IsValid p path target t free h
Step-IsValid (allocated t) h = alloc-IsValid t h

-- In every table that operations lead to from a new one, where links are created at free paths, the
-- two maps are inverse to each other and every number that has a path is below the next one.
pub Reachable-IsValid : {p : Process} {t : InodeTable} → Reachable p t → IsValid t
Reachable-IsValid {p} start = new-IsValid p
Reachable-IsValid (next r s) = Step-IsValid s (Reachable-IsValid r)

module _ (t : InodeTable) (h : IsValid t) where
  -- Two paths have one number exactly if they have a number and are normalised to one path.
  pub get_ino-injective :
      (p q : Str) (i : ℕ)
      → get_ino p t ≡ some i
      → (get_ino q t ≡ some i) ↔ (normalize_path p ≡ normalize_path q)
  unfolding get_ino
  get_ino-injective p q i e = (
    λ f. some-injective _ _ (sym (h.back (normalize_path p) i e) ∙ h.back (normalize_path q) i f),
    λ same. rw (← same) e,
  )

  module _ (p : Process) (path : Str) (is_dir : Bool) (size : ℕ) where
    update_attr-maps :
        (ino : ℕ)
        → ((update_attr p ino size is_dir t).path_to_ino ≡ t.path_to_ino)
          × ((update_attr p ino size is_dir t).ino_to_path ≡ t.ino_to_path)
    unfolding update_attr
    update_attr-maps ino = (ground arith, ground arith)

    -- After `get_or_create` the path has the returned number, which is the one that it had, if any; the
    -- number has the normalised path; and the numbers and paths of all others are as before.
    pub get_or_create-get :
        let (u, ino) = get_or_create p path is_dir size t in
        (ino ≡ elim (get_ino path t) [ none ↦ t.next_ino | some old ↦ old ])
        × ((q : Str)
            → get_ino q u
              ≡ (if normalize_path path == normalize_path q then some ino else get_ino q t))
        × ((i : ℕ) → get_path i u ≡ (if ino == i then some (normalize_path path) else get_path i t))
    unfolding get_or_create get_ino get_path
    get_or_create-get = elim (Option-cases (Map.get (normalize_path path) t.path_to_ino)) [
      | inl absent ↦ (
        ground arith,
        λ q. ground (
          arith,
          Map.get-insert (normalize_path path) (normalize_path q) t.next_ino t.path_to_ino,
        ),
        λ i. ground (arith, Map.get-insert t.next_ino i (normalize_path path) t.ino_to_path),
      )
      | inr (ino, there) ↦
          let maps = update_attr-maps ino in
          (
            ground arith,
            λ q. ground (arith, maps.0, eq_iff (normalize_path path) (normalize_path q)),
            λ i. ground (arith, maps.1, eq_iff ino i, h.back (normalize_path path) ino there),
          )
    ]

  -- After `remove` the number and its path are unknown, and all others are as before.
  pub get-remove :
      (ino : ℕ) (path : Str)
      → get_path ino t ≡ some path
      → ((i : ℕ) → get_path i (remove ino t) ≡ (if ino == i then none else get_path i t))
        × ((q : Str)
            → get_ino q (remove ino t) ≡ (if path == normalize_path q then none else get_ino q t))
        × ((q : Str) → get_ino q (remove ino t) ≢ some ino)
  unfolding get_ino get_path remove
  get-remove ino path e = (
    λ i. ground (arith, Map.get-remove ino i t.ino_to_path),
    λ q. ground (arith, Map.get-remove path (normalize_path q) t.path_to_ino),
    λ q f. ground (
      arith,
      Map.get-remove path (normalize_path q) t.path_to_ino,
      eq_iff path (normalize_path q),
      h.back (normalize_path q) ino,
    ),
  )
