-- ===== src/Oracle/BeforeAfter.antt =====
-- A look at a path that a memory backend served before or after a change, under the judgement of
-- crates/openfs-sim/src/sim.rs (`shared_readlike_race_ok`).
use open_fs.Prelude.{
  ℕ, ◌≡◌, refl, sym, ◌∙◌, ap, Bool, true, false, ◌||◌, Option, some, arith, list_eq, nat_eq,
  option_eq, ◌==◌, eq_refl, if◌then◌else◌, Option-cases, Bool-cases, inl, inr,
}
use mathlib.Core.Path.{subst}
use open_fs.Prelude.Map
use open_fs.Prelude.Text.{Str}
use open_fs.Error.{BackendError, VfsError}
use open_fs.Wal.{Bytes}
use open_fs.Memory
use open_fs.Memory.{MemoryBackend, base_name, normalize_path}
use open_fs.Oracle.{
  shared_write, Op, read, stat, exists, Files, EntrySummary, exists_path, stat_entry, normalize_rel,
}
use open_fs.Oracle.Harness.{
  execute_direct, same_bool, same_summary_refl, from_entry, classify_backend_error,
}
use open_fs.Oracle.Contents.{IsPlain, contents_of}
use open_fs.Oracle.Looks.{
  summary_of, read-contents_of, exists_path-contents_of, stat_entry-contents_of, stat-cases,
}
use open_fs.Oracle.Shared.{
  op_is_mutating_shared_write, op_is_readlike_shared_write, apply_shared_write_op,
}
use open_fs.Oracle.Predicted.{HasPlainPaths}
use open_fs.Oracle.Serial.{execute-shared_write}
use open_fs.Oracle.Races.{
  is_none, read_race_ok, exists_race_ok, is_entry, stat_race_ok, shared_read_race_ok,
  shared_exists_path, shared_stat_entry, shared_readlike_race_ok,
}

or_left : (x y : Bool) → x ≡ true → (x || y) ≡ true
or_left x y h = ground arith

or_right : (x y : Bool) → y ≡ true → (x || y) ≡ true
or_right x y h = ground arith

same_bool-eq : (x y : Bool) → y ≡ x → same_bool x y ≡ true
same_bool-eq true true e = refl
same_bool-eq false false e = refl
same_bool-eq true false e = ground arith
same_bool-eq false true e = ground arith

-- On a path that is spelled as it is kept, the judgement looks at files as the oracle does.
shared_exists_path-IsPlain :
    (map : Files) (path : Str) → IsPlain path → exists_path map path ≡ shared_exists_path map path
unfolding exists_path shared_exists_path normalize_rel normalize_path
shared_exists_path-IsPlain map path plain = ap (shared_exists_path map) (plain.0)

shared_stat_entry-IsPlain :
    (map : Files) (path : Str) → IsPlain path → stat_entry map path ≡ shared_stat_entry map path
unfolding stat_entry shared_stat_entry normalize_rel normalize_path
shared_stat_entry-IsPlain map path plain = ap (shared_stat_entry map) (plain.0)

module _ (vfs_text : VfsError → Str) (backend_text : BackendError → Str)
    (pipeline : Str → Bytes → Bool) (search : Str → Option Str) (now : ℕ) (path : Str)
    (plain : IsPlain path) (b : MemoryBackend) where
  read_race :
      (other : Option Bytes)
      → let done =
          execute_direct vfs_text backend_text pipeline search now false
            (read shared_write path)
            b in
        (read_race_ok (Map.get path (contents_of b)) other done.1 ≡ true)
        × (read_race_ok other (Map.get path (contents_of b)) done.1 ≡ true)
  unfolding execute_direct classify_backend_error
  read_race other = elim (Option-cases (Map.get path (contents_of b))) [
    | inl absent ↦ (
      rw (read-contents_of path plain b, absent) refl,
      rw (read-contents_of path plain b, absent)
          (elim (Bool-cases (is_none other)) [ inl e ↦ rw e refl | inr e ↦ rw e refl ]),
    )
    | inr (c, there) ↦ (
      rw (read-contents_of path plain b, there, eq_refl c) refl,
      rw (read-contents_of path plain b, there, eq_refl c)
          (elim (Bool-cases (other == some c)) [ inl e ↦ rw e refl | inr e ↦ rw e refl ]),
    )
  ]

  exists_race :
      (other : Bool)
      → let done =
          execute_direct vfs_text backend_text pipeline search now false
            (exists shared_write path)
            b in
        (exists_race_ok (shared_exists_path (contents_of b) path) other done.1 ≡ true)
        × (exists_race_ok other (shared_exists_path (contents_of b) path) done.1 ≡ true)
  unfolding execute_direct
  exists_race other =
      let same : shared_exists_path (contents_of b) path ≡ Memory.exists path b =
        sym (shared_exists_path-IsPlain (contents_of b) path plain)
        ∙ exists_path-contents_of path b plain in
      let value = Memory.exists path b in
      let here = same_bool-eq value (shared_exists_path (contents_of b) path) same in
      (
        or_left (same_bool value (shared_exists_path (contents_of b) path)) (same_bool value other)
            here,
        or_right (same_bool value other) (same_bool value (shared_exists_path (contents_of b) path))
            here,
      )

  stat_race :
      (other : Option EntrySummary)
      → let done =
          execute_direct vfs_text backend_text pipeline search now false
            (stat shared_write path)
            b in
        (stat_race_ok (shared_stat_entry (contents_of b) path) other done.1 ≡ true)
        × (stat_race_ok other (shared_stat_entry (contents_of b) path) done.1 ≡ true)
  unfolding execute_direct
  stat_race other =
      let same =
        sym (shared_stat_entry-IsPlain (contents_of b) path plain)
        ∙ stat_entry-contents_of path b plain in
      let entry = shared_stat_entry (contents_of b) path in
      elim (stat-cases path b) [
        | inl (e, there) ↦
            let here : is_entry entry (from_entry e) ≡ true =
              subst (λ x. is_entry x (from_entry e) ≡ true) (sym (same ∙ ap summary_of there))
                (same_summary_refl (from_entry e)) in
            (
              rw (there, execute_direct)
                  (or_left (is_entry entry (from_entry e)) (is_entry other (from_entry e)) here),
              rw (there, execute_direct)
                  (or_right (is_entry other (from_entry e)) (is_entry entry (from_entry e)) here),
            )
        | inr absent ↦
            let here : is_none entry ≡ true =
              subst (λ x. is_none x ≡ true) (sym (same ∙ ap summary_of absent)) refl in
            (
              rw (absent, execute_direct) (or_left (is_none entry) (is_none other) here),
              rw (absent, execute_direct) (or_right (is_none other) (is_none entry) here),
            )
      ]

-- The three operations that look at a path of the shared mount.
readlike-elim :
    (P : Op → Type 0)
    → ((path : Str) → P (read shared_write path))
    → ((path : Str) → P (exists shared_write path))
    → ((path : Str) → P (stat shared_write path))
    → (op : Op) → op_is_readlike_shared_write op ≡ true
    → P op
unfolding op_is_readlike_shared_write
readlike-elim P r e s (read shared_write path) h = r path
readlike-elim P r e s (exists shared_write path) h = e path
readlike-elim P r e s (stat shared_write path) h = s path
readlike-elim P r e s op h = ground arith

module _ (vfs_text : VfsError → Str) (backend_text : BackendError → Str)
    (pipeline : Str → Bytes → Bool) (search : Str → Option Str) (now : ℕ) (write_op : Op)
    (b : MemoryBackend) where
  -- the backend that the reading operation finds
  abbrev pub found_directly : Bool → MemoryBackend
  found_directly after =
      if after
      then (execute_direct vfs_text backend_text pipeline search now false write_op b).0
      else b

  -- On the backend itself.
  pub race_ok-execute_direct :
      (after : Bool) (read_op : Op)
      → op_is_mutating_shared_write write_op ≡ true
      → HasPlainPaths write_op
      → op_is_readlike_shared_write read_op ≡ true
      → HasPlainPaths read_op
      → shared_readlike_race_ok
          (contents_of b)
          write_op
          read_op
          (execute_direct vfs_text backend_text pipeline search now false read_op
            (found_directly after)).1
        ≡ true
  unfolding shared_readlike_race_ok shared_read_race_ok HasPlainPaths
  race_ok-execute_direct false read_op changes plain =
      let post = apply_shared_write_op write_op (contents_of b) in
      readlike-elim
        (λ op.
          HasPlainPaths op
          → shared_readlike_race_ok (contents_of b) write_op op
              (execute_direct vfs_text backend_text pipeline search now false op b).1
            ≡ true)
        (λ path plain'.
          (read_race vfs_text backend_text pipeline search now path plain' b (Map.get path post)).0)
        (λ path plain'.
          (exists_race vfs_text backend_text pipeline search now path plain' b
            (shared_exists_path post path)).0)
        (λ path plain'.
          (stat_race vfs_text backend_text pipeline search now path plain' b
            (shared_stat_entry post path)).0)
        read_op
  race_ok-execute_direct true read_op changes plain =
      let b' = (execute_direct vfs_text backend_text pipeline search now false write_op b).0 in
      let base = contents_of b in
      let post =
        (execute-shared_write vfs_text backend_text pipeline search now b write_op changes
          plain).0 in
      readlike-elim
        (λ op.
          HasPlainPaths op
          → shared_readlike_race_ok base write_op op
              (execute_direct vfs_text backend_text pipeline search now false op b').1
            ≡ true)
        (λ path plain'.
          subst
            (λ fs.
              read_race_ok (Map.get path base) (Map.get path fs)
                (execute_direct vfs_text backend_text pipeline search now false
                  (read shared_write path) b').1
              ≡ true)
            post
            (read_race vfs_text backend_text pipeline search now path plain' b'
              (Map.get path base)).1)
        (λ path plain'.
          subst
            (λ fs.
              exists_race_ok (shared_exists_path base path) (shared_exists_path fs path)
                (execute_direct vfs_text backend_text pipeline search now false
                  (exists shared_write path) b').1
              ≡ true)
            post
            (exists_race vfs_text backend_text pipeline search now path plain' b'
              (shared_exists_path base path)).1)
        (λ path plain'.
          subst
            (λ fs.
              stat_race_ok (shared_stat_entry base path) (shared_stat_entry fs path)
                (execute_direct vfs_text backend_text pipeline search now false
                  (stat shared_write path) b').1
              ≡ true)
            post
            (stat_race vfs_text backend_text pipeline search now path plain' b'
              (shared_stat_entry base path)).1)
        read_op
