-- ===== src/Inode/Table.antt =====
-- The two maps of crates/openfs-fuse/src/inode.rs are inverse to each other, and stay so.
use open_fs.Prelude.{
  ℕ, ◌<◌, ◌≡◌, Bool, none, some, [], ◌∷◌, arith, nat_eq, list_eq, eq_iff, if-elim, Option-cases,
  inl, inr,
}
use open_fs.Prelude.Map
use open_fs.Prelude.Text.{Str, slash}
use open_fs.Inode.{
  Process, InodeAttr, InodeTable, new, normalize_path, update_attr, with_mapping, get_or_create,
  remove,
}

-- A number is given to one path only, the maps are inverse, every number with a path has attributes
-- that bear it, and the numbers up to the next one are used up.
pub record IsValid (t : InodeTable) : Type 0 where
  pub back : (p : Str) (i : ℕ) → Map.get p t.path_to_ino ≡ some i → Map.get i t.ino_to_path ≡ some p
  pub forth :
      (p : Str) (i : ℕ) → Map.get i t.ino_to_path ≡ some p → Map.get p t.path_to_ino ≡ some i
  pub below : (p : Str) (i : ℕ) → Map.get i t.ino_to_path ≡ some p → i < t.next_ino

pub new-IsValid : (p : Process) → IsValid (new p)
unfolding new Map.get
new-IsValid p = record {
  back = λ q i e. ground (arith, eq_iff (slash ∷ []) q, eq_iff 1 i);
  forth = λ q i e. ground (arith, eq_iff (slash ∷ []) q, eq_iff 1 i);
  below = λ q i e. ground (arith, eq_iff 1 i);
}

-- A number that was never given is given to a path that has none.
pub with_mapping-IsValid :
    (path : Str) (a : InodeAttr) (t : InodeTable)
    → IsValid t
    → Map.get path t.path_to_ino ≡ none
    → IsValid (with_mapping path t.next_ino a t)
with_mapping-IsValid path a t h free = record {
  back = λ q i e. ground (
    arith,
    Map.get-insert path q t.next_ino t.path_to_ino,
    Map.get-insert t.next_ino i path t.ino_to_path,
    eq_iff path q,
    eq_iff t.next_ino i,
    h.back q i,
    h.below q i,
  );
  forth = λ q i e. ground (
    arith,
    Map.get-insert path q t.next_ino t.path_to_ino,
    Map.get-insert t.next_ino i path t.ino_to_path,
    eq_iff path q,
    eq_iff t.next_ino i,
    h.forth q i,
    h.below q i,
  );
  below = λ q i e.
      ground
        (arith, Map.get-insert t.next_ino i path t.ino_to_path, eq_iff t.next_ino i, h.below q i);
}

pub update_attr-IsValid :
    (p : Process) (ino size : ℕ) (is_dir : Bool) (t : InodeTable)
    → IsValid t
    → IsValid (update_attr p ino size is_dir t)
unfolding update_attr
update_attr-IsValid p ino size is_dir t h = elim (Option-cases (Map.get ino t.attrs)) [
  | inl absent ↦ rw (absent, update_attr) h
  | inr (a, there) ↦
      rw (there, update_attr)
        (if-elim IsValid is_dir t _ h (record { back = h.back; forth = h.forth; below = h.below }))
]

pub get_or_create-IsValid :
    (p : Process) (path : Str) (is_dir : Bool) (size : ℕ) (t : InodeTable)
    → IsValid t
    → IsValid (get_or_create p path is_dir size t).0
unfolding get_or_create
get_or_create-IsValid p path is_dir size t h =
    elim (Option-cases (Map.get (normalize_path path) t.path_to_ino)) [
      | inl absent ↦
          rw (absent, get_or_create) (with_mapping-IsValid (normalize_path path) _ t h absent)
      | inr (ino, there) ↦ rw (there, get_or_create) (update_attr-IsValid p ino size is_dir t h)
    ]

pub remove-IsValid : (ino : ℕ) (t : InodeTable) → IsValid t → IsValid (remove ino t)
unfolding remove
remove-IsValid ino t h = elim (Option-cases (Map.get ino t.ino_to_path)) [
  | inl absent ↦ rw (absent, remove) h
  | inr (path, there) ↦
      rw (there, remove)
        (record {
          back = λ q i e. ground (
            arith,
            Map.get-remove path q t.path_to_ino,
            Map.get-remove ino i t.ino_to_path,
            eq_iff path q,
            eq_iff ino i,
            h.back q i,
            h.forth path ino,
          );
          forth = λ q i e. ground (
            arith,
            Map.get-remove path q t.path_to_ino,
            Map.get-remove ino i t.ino_to_path,
            eq_iff path q,
            eq_iff ino i,
            h.forth q i,
            h.back path ino,
            h.forth path ino,
          );
          below = λ q i e.
              ground (arith, Map.get-remove ino i t.ino_to_path, eq_iff ino i, h.below q i);
        })
]
