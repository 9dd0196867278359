-- ===== src/Vfs/Tests.antt =====
-- The virtual file system (crates/openfs-remote/src/vfs.rs) at concrete inputs: two memory backends
-- at three mounts.
use open_fs.Prelude.{
  ℕ, ◌≡◌, ◌≢◌, ◌⊎◌, refl, arith, false, Option, none, some, [], ◌∷◌, nat_eq, list_eq, list_beq,
  ◌==◌, eq_refl, if◌then◌else◌, Option-cases, inl, inr,
}
use open_fs.Prelude.Map
use open_fs.Prelude.Text.{
  Str, text, starts_with, ends_with, pop, strip_prefix, trim, trim_start, trim_end,
}
use open_fs.Error.{ok, err}
use open_fs.Wal.{Bytes}
use open_fs.Memory
use open_fs.Memory.{MemoryBackend}
use open_fs.Router
use open_fs.Router.{Mount, Router, resolve, first_match, strip_mount_prefix, strip_normalized}
use open_fs.Cached.{Backend}
use open_fs.Vfs.{Vfs, state_of, rename}
use open_fs.Vfs.Mounts.{ReadsWrites, Deletes, rename-kept, rename-lost}

program : Unit {0}
unfolding resolve first_match strip_mount_prefix strip_normalized Router.new Router.sort_mounts
    Router.insert_sorted Router.normalize_path starts_with ends_with pop strip_prefix trim_start
    trim_end list_beq
program = tt

-- A memory backend, below mounts that keep nothing for themselves.
abbrev below {ℓ} : {A : Type ℓ} → MemoryBackend × A → (Unit {0} × MemoryBackend) × A
below (b, answer) = ((tt, b), answer)

abbrev memory : Backend (Unit {0} × MemoryBackend)
memory = record {
  read = λ p s. Memory.read p s.1;
  read_with_cas_token = λ p s. Memory.read_with_cas_token p s.1;
  write = λ p c s. below (Memory.write 9 p c s.1);
  compare_and_swap = λ p e c s. below (Memory.compare_and_swap 9 p e c s.1);
  append = λ p c s. below (Memory.append 9 p c s.1);
  delete = λ p s. below (Memory.delete p s.1);
  exists = λ p s. ok (Memory.exists p s.1);
  rename = λ p q s. below (Memory.rename p q s.1);
}

memory_reads : ReadsWrites memory
unfolding Memory.read Memory.write
memory_reads path content s accepted = ground (
  arith,
  Map.get-insert_self (Memory.normalize_path path)
      (record {
        content = content;
        mtime = 9;
        version = Memory.version_after (Map.get (Memory.normalize_path path) s.1.files);
      })
      s.1.files,
)

abbrev kept : Str → MemoryBackend → Option Bytes
kept path b = elim (Memory.read path b) [ ok content ↦ some content | err _ ↦ none ]

memory-Deletes : Deletes memory kept
unfolding Memory.read Memory.delete
memory-Deletes path s accepted =
    let p = Memory.normalize_path path in
    elim (Option-cases (Map.get p s.1.files)) [
      | inl absent ↦ ground (arith, absent, accepted)
      | inr (f, there) ↦ ground (arith, there, Map.get-remove p p s.1.files, eq_refl p)
    ]

abbrev at : Str → ℕ → Mount ℕ
at path i = record { path = path; backend = i; read_only = false }

abbrev v : Vfs (Unit {0}) MemoryBackend
v = record {
  router = record { mounts = at (text "/docs") 0 ∷ at (text "/new") 1 ∷ at (text "/same") 2 ∷ [] };
  backend_of = λ i. if i == 1 then 1 else 0;
  fronts = λ _. tt;
  raws =
      λ _. record { files = (text "a", record { content = 1 ∷ []; mtime = 5; version = 1 }) ∷ [] };
}

from_docs : resolve v.router (text "/docs/a") ≡ ok (0, text "a", false)
unfolding program
from_docs = refl

to_new : resolve v.router (text "/new/b") ≡ ok (1, text "b", false)
unfolding program
to_new = refl

to_same : resolve v.router (text "/same/a") ≡ ok (2, text "a", false)
unfolding program
to_same = refl

apart : ◌≢◌ {A = ℕ} 0 1
apart h = omega arith

a_there : memory.read (text "a") (state_of 0 v) ≡ ok (1 ∷ [])
unfolding Memory.read Memory.normalize_path trim trim_start trim_end Map.get list_beq
a_there = refl

rename-kept_example :
    (state_of 0 (rename memory (text "/docs/a") (text "/new/b") v).0 ≡ state_of 0 v)
    ⊎ (memory.read (text "b") (state_of 1 (rename memory (text "/docs/a") (text "/new/b") v).0)
        ≡ ok (1 ∷ []))
rename-kept_example =
    rename-kept memory (text "/docs/a") (text "/new/b") (text "a") (text "b") 0 1 (1 ∷ []) v
      memory_reads from_docs to_new apart a_there

written_again : (memory.write (text "a") (1 ∷ []) (state_of 2 v)).1 ≡ ok tt
unfolding Memory.write
written_again = refl

deleted : (memory.delete (text "a") (memory.write (text "a") (1 ∷ []) (state_of 2 v)).0).1 ≡ ok tt
unfolding Memory.write Memory.delete Memory.normalize_path trim trim_start trim_end Map.get
    Map.insert list_beq
deleted = refl

rename-lost_example :
    ((rename memory (text "/docs/a") (text "/same/a") v).1 ≡ ok tt)
    × (kept (text "a") ((rename memory (text "/docs/a") (text "/same/a") v).0.raws 0) ≡ none)
    × (kept (text "a") ((rename memory (text "/docs/a") (text "/same/a") v).0.raws 0) ≡ none)
rename-lost_example =
    rename-lost memory kept (text "/docs/a") (text "/same/a") (text "a") 0 2 (1 ∷ []) v
      memory-Deletes from_docs to_same refl refl a_there written_again deleted
