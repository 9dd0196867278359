-- ===== src/Oracle/Serial.antt =====
-- The judgement of crates/openfs-sim/src/sim.rs on two operations on the shared mount, where the backend made
-- the one after the other.
use open_fs.Prelude.{
  ℕ, ◌≡◌, refl, sym, ◌∙◌, ap, Bool, true, false, Option, none, some, List, [], ◌∷◌, any, arith,
  list_eq, nat_eq, option_eq, eq_iff, eq_refl, Option-cases, Bool-cases, ◌==◌, inl, inr,
}
use mathlib.Core.Path.{subst}
use open_fs.Prelude.Map
use open_fs.Prelude.Text.{Str}
use open_fs.Error.{BackendError, VfsError, from_backend}
use open_fs.Wal.{Bytes}
use open_fs.Memory
use open_fs.Memory.{MemoryBackend}
use open_fs.Oracle.{
  MountId, work, indexed, shared_read, shared_write, Op, write, append, read, delete, list, stat,
  exists, rename, index_file, search_chroma, flush_write_back, Files, ok_if,
}
use open_fs.Oracle.Harness.{execute_direct, execute_change, change_outcome, classify_error}
use open_fs.Cache.{Moka}
use open_fs.Cached.{CachedBackend}
use open_fs.Oracle.Execute.Through.{IsMissed}
use open_fs.Oracle.Contents.{
  IsPlain, contents_of, contents_of-write, contents_of-append, contents_of-delete,
  contents_of-rename,
}
use open_fs.Oracle.Looks.{found, read-contents_of, delete-contents_of, rename-contents_of}
use open_fs.Oracle.Predicted.{HasPlainPaths}
use open_fs.Oracle.Shared.{
  is_shared_write, op_is_mutating_shared_write, has_key, predict_shared_write,
  apply_shared_write_op, read_shared_write_map, shared_map_matches, outcome_matches_simple,
  value_of, flat,
}

at_shared : (mount : MountId) → is_shared_write (some mount) ≡ true → mount ≡ shared_write
at_shared shared_write h = refl
at_shared work h = ground arith
at_shared indexed h = ground arith
at_shared shared_read h = ground arith

-- A property of the operations that change the shared mount.
pub shared_write-elim :
    (P : Op → Type 0)
    → ((path : Str) (content : Bytes) → P (write shared_write path content))
    → ((path : Str) (content : Bytes) → P (append shared_write path content))
    → ((path : Str) → P (delete shared_write path))
    → ((from to : Str) → P (rename shared_write from to))
    → (op : Op) → op_is_mutating_shared_write op ≡ true
    → P op
unfolding op_is_mutating_shared_write
shared_write-elim P w a d r (write mount path content) h =
    subst (λ m. P (write m path content)) (sym (at_shared mount h)) (w path content)
shared_write-elim P w a d r (append mount path content) h =
    subst (λ m. P (append m path content)) (sym (at_shared mount h)) (a path content)
shared_write-elim P w a d r (delete mount path) h =
    subst (λ m. P (delete m path)) (sym (at_shared mount h)) (d path)
shared_write-elim P w a d r (rename mount from to) h =
    subst (λ m. P (rename m from to)) (sym (at_shared mount h)) (r from to)
shared_write-elim P w a d r (read mount path) h = ground arith
shared_write-elim P w a d r (list mount path) h = ground arith
shared_write-elim P w a d r (stat mount path) h = ground arith
shared_write-elim P w a d r (exists mount path) h = ground arith
shared_write-elim P w a d r (index_file path) h = ground arith
shared_write-elim P w a d r (search_chroma query) h = ground arith
shared_write-elim P w a d r flush_write_back h = ground arith

-- A change of the shared mount looks nothing up in the cache that it would answer from.
pub mutating-IsMissed {κ} :
    {M : Type κ} (moka : Moka M) (t : CachedBackend MemoryBackend M) (op : Op)
    → op_is_mutating_shared_write op ≡ true
    → IsMissed moka op t
unfolding IsMissed
mutating-IsMissed moka t op changes =
    shared_write-elim (λ op. IsMissed moka op t) (λ path content. tt) (λ path content. tt)
      (λ path. tt) (λ from to. tt) op changes

module _ (vfs_text : VfsError → Str) (path to : Str) where
  found_matches :
      (r : Option Bytes)
      → outcome_matches_simple
          (ok_if r)
          (change_outcome vfs_text
            (execute_change false path (λ b. (b, found path (λ c. tt) r)) Memory.new)).1
        ≡ true
  unfolding outcome_matches_simple change_outcome execute_change classify_error from_backend
  found_matches none = refl
  found_matches (some c) = refl

module _ (vfs_text : VfsError → Str) (backend_text : BackendError → Str)
    (pipeline : Str → Bytes → Bool) (search : Str → Option Str) (now : ℕ) (b : MemoryBackend) where
  -- What the operation makes of the files, and its outcome, are what the judgement takes them for.
  abbrev IsServed : Op → Type 0
  IsServed op =
      let done = execute_direct vfs_text backend_text pipeline search now false op b in
      HasPlainPaths op
      → (contents_of done.0 ≡ apply_shared_write_op op (contents_of b))
        × (outcome_matches_simple (predict_shared_write (contents_of b) op) done.1 ≡ true)

  pub execute-shared_write : (op : Op) → op_is_mutating_shared_write op ≡ true → IsServed op
  unfolding execute_direct HasPlainPaths apply_shared_write_op predict_shared_write
      outcome_matches_simple Memory.write Memory.append
  execute-shared_write =
      shared_write-elim IsServed
        (λ path content plain. (contents_of-write now path plain b content, refl))
        (λ path content plain. (contents_of-append now path plain b content, refl))
        (λ path plain. (
          contents_of-delete path b plain,
          rw (delete-contents_of path plain b)
              (found_matches vfs_text path path (Map.get path (contents_of b))),
        ))
        (λ from to plain. (
          contents_of-rename from to b (plain.0) (plain.1),
          rw (rename-contents_of from (plain.0) b to)
              (found_matches vfs_text from to (Map.get from (contents_of b))),
        ))

-- What is read back of the touched paths is what the backend holds there.
module _ (b : MemoryBackend) where
  read-IsPlain : (k : Str) → IsPlain k → value_of (Memory.read k b) ≡ Map.get k (contents_of b)
  read-IsPlain k plain = elim (Option-cases (Map.get k (contents_of b))) [
    | inl absent ↦ rw (read-contents_of k plain b, absent) refl
    | inr (c, there) ↦ rw (read-contents_of k plain b, there) refl
  ]

  get-read_shared_write_map :
      (k : Str) (keys : List Str)
      → has_key keys k ≡ true
      → Map.get k (read_shared_write_map b keys) ≡ some (value_of (Memory.read k b))
  unfolding read_shared_write_map any
  get-read_shared_write_map k [] h = ground arith
  get-read_shared_write_map k (j ∷ keys) h = ground (
    arith,
    eq_iff j k,
    get-read_shared_write_map k keys,
    Map.get-insert j k (value_of (Memory.read j b)) (read_shared_write_map b keys),
  )

  -- Files that match what is read back have, at each key, what the backend has.
  pub get-shared_map_matches :
      (files : Files) (all keys : List Str)
      → shared_map_matches (read_shared_write_map b all) files keys ≡ true
      → (k : Str) → has_key keys k ≡ true
      → has_key all k ≡ true
      → IsPlain k
      → Map.get k files ≡ Map.get k (contents_of b)
  unfolding shared_map_matches any
  get-shared_map_matches files all [] fits k h within plain = ground arith
  get-shared_map_matches files all (j ∷ keys) fits k h within plain =
      let found' : flat (Map.get k (read_shared_write_map b all)) ≡ Map.get k (contents_of b) =
        ap flat (get-read_shared_write_map k all within) ∙ read-IsPlain k plain in
      elim (Bool-cases (j == k)) [
        | inl e ↦
            let same : j ≡ k = (eq_iff j k).0 e in
            let eq : Map.get j files ≡ flat (Map.get j (read_shared_write_map b all)) = ground (
              arith,
              eq_iff (Map.get j files) (flat (Map.get j (read_shared_write_map b all))),
              fits,
            ) in
            subst (λ i. Map.get i files ≡ flat (Map.get i (read_shared_write_map b all))) same eq
            ∙ found'
        | inr ne ↦
            get-shared_map_matches files all keys (ground (arith, fits)) k (ground (arith, h, ne))
              within plain
      ]

  pub shared_map_matches-read :
      (files : Files) (all keys : List Str)
      → contents_of b ≡ files
      → ((k : Str) → has_key keys k ≡ true → (has_key all k ≡ true) × IsPlain k)
      → shared_map_matches (read_shared_write_map b all) files keys ≡ true
  unfolding shared_map_matches any
  shared_map_matches-read files all [] holds within = refl
  shared_map_matches-read files all (k ∷ keys) holds within =
      let here = within k (ground (arith, eq_iff k k)) in
      let rest =
        shared_map_matches-read files all keys holds (λ j h. within j (ground (arith, h))) in
      let found' : flat (Map.get k (read_shared_write_map b all)) ≡ Map.get k files =
        ap flat (get-read_shared_write_map k all (here.0))
        ∙ read-IsPlain k (here.1)
        ∙ ap (Map.get k) holds in
      rw (found', rest, eq_refl (Map.get k files)) refl
