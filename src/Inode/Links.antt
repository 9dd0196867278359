-- ===== src/Inode/Links.antt =====
-- What crates/openfs-fuse/src/inode.rs makes of paths that end in two slashes, and of a symbolic link
-- at a path that has a number already.
use open_fs.Prelude.{
  ℕ, ◌≡◌, ◌≢◌, refl, ap, ◌∙◌, true, some, [], ◌∷◌, ◌++◌, arith, nat_eq, list_eq, eq_iff, eq_refl,
  length-append,
}
use open_fs.Prelude.Map
use open_fs.Prelude.Text.{Str, slash, starts_with, ends_with, pop}
use open_fs.Router
use open_fs.Inode.{Process, InodeTable, normalize_path, create_symlink, get_ino, get_path}
use open_fs.Inode.Table.{IsValid}

-- The table normalises paths as the router does.
pub normalize_path-normalize_path : (p : Str) → normalize_path p ≡ Router.normalize_path p
unfolding normalize_path Router.normalize_path
normalize_path-normalize_path p = refl

-- A link that is created at a path with a number takes the path over, but the old number still leads
-- to the path: the two maps are no longer inverse.
pub create_symlink-stale :
    (p : Process) (path target : Str) (t : InodeTable) (old : ℕ)
    → IsValid t
    → get_ino path t ≡ some old
    → (get_path old (create_symlink p path target t).0 ≡ some (normalize_path path))
      × (get_ino path (create_symlink p path target t).0 ≡ some (create_symlink p path target t).1)
      × ((create_symlink p path target t).1 ≢ old)
      × ¬ IsValid (create_symlink p path target t).0
unfolding create_symlink get_ino get_path
create_symlink-stale p path target t old h e =
    let n = normalize_path path in
    let kept : Map.get old (Map.insert t.next_ino n t.ino_to_path) ≡ some n = ground (
      arith,
      Map.get-insert t.next_ino old n t.ino_to_path,
      eq_iff t.next_ino old,
      h.back n old e,
      h.below n old,
    ) in
    (
      kept,
      Map.get-insert_self n t.next_ino t.path_to_ino,
      λ same. ground (arith, h.below n old (h.back n old e)),
      λ valid. ground (
        arith,
        valid.forth n old kept,
        Map.get-insert_self n t.next_ino t.path_to_ino,
        h.below n old (h.back n old e),
      ),
    )

ends_with-append : (p : Str) (c : ℕ) → ends_with c (p ++ c ∷ []) ≡ true
unfolding ends_with
ends_with-append [] c = eq_refl c
ends_with-append (x ∷ []) c = eq_refl c
ends_with-append (x ∷ y ∷ p) c = ends_with-append (y ∷ p) c

pop-append : (p : Str) (c : ℕ) → pop (p ++ c ∷ []) ≡ p
unfolding pop
pop-append [] c = refl
pop-append (x ∷ []) c = refl
pop-append (x ∷ y ∷ p) c = ap (λ l. x ∷ l) (pop-append (y ∷ p) c)

append-two : (p : Str) (c : ℕ) → p ++ c ∷ c ∷ [] ≡ (p ++ c ∷ []) ++ c ∷ []
append-two [] c = refl
append-two (x ∷ p) c = ap (λ l. x ∷ l) (append-two p c)

normalize_path-append :
    (x : ℕ) (p : Str)
    → starts_with slash (x ∷ p) ≡ true
    → normalize_path (x ∷ p ++ slash ∷ []) ≡ x ∷ p
unfolding normalize_path starts_with
normalize_path-append x p h = ground (
  arith,
  h,
  ends_with-append (x ∷ p) slash,
  pop-append (x ∷ p) slash,
  length-append p (slash ∷ []),
)

-- Of two slashes at the end of a path one is left, so such a path has another number than the path
-- without them.
pub normalize_path-slashes :
    (p : Str)
    → starts_with slash p ≡ true
    → normalize_path (p ++ slash ∷ slash ∷ []) ≡ p ++ slash ∷ []
unfolding normalize_path starts_with
normalize_path-slashes [] h = ground arith
normalize_path-slashes (x ∷ p) h =
    ap normalize_path (ap (λ l. x ∷ l) (append-two p slash))
    ∙ normalize_path-append x (p ++ slash ∷ []) h
