-- ===== src/Cached/Tests.antt =====
-- The theorems on the cached backend at concrete inputs: a memory backend behind a cache that keeps
-- what it is given (crates/openfs-remote/src/cached_backend.rs).
use open_fs.Prelude.{
  ◌≡◌, refl, true, false, [], ◌∷◌, length, inl, inr, arith, nat_eq, list_eq, eq_refl, list_beq,
}
use open_fs.Prelude.Map
use open_fs.Prelude.Text.{Str, text}
use open_fs.Error.{ok}
use open_fs.Wal.{Bytes}
use open_fs.Memory
use open_fs.Memory.{MemoryBackend}
use open_fs.Sync.{default_sync, new, write_through}
use open_fs.Cache.{Moka, MokaLaws, CacheConfig}
use open_fs.Cached.{Backend, CachedBackend, read, write}
use open_fs.Cached.Reads.{read-write, read-write_full, ReadsWrites}

abbrev memory : Backend MemoryBackend
memory = record {
  read = Memory.read;
  read_with_cas_token = Memory.read_with_cas_token;
  write = Memory.write 9;
  compare_and_swap = Memory.compare_and_swap 9;
  append = Memory.append 9;
  delete = Memory.delete;
  exists = λ p b. ok (Memory.exists p b);
  rename = Memory.rename;
}

abbrev keeps : Moka (Map.Map Str Bytes)
keeps = record {
  lookup = Map.get;
  looked_up = λ k m. m;
  insert = Map.insert;
  invalidate = Map.remove;
  entry_count = length;
}

keeps_laws : MokaLaws (Map.Map Str Bytes) keeps
keeps_laws = record {
  lookup-insert = λ k v m. inl (Map.get-insert_self k v m);
  lookup-invalidate = λ k m. ground (arith, Map.get-remove k k m, eq_refl k);
  lookup-invalidate_none = λ j k m h. ground (arith, Map.get-remove k j m, h);
}

memory_reads : ReadsWrites memory keeps
unfolding Memory.read Memory.write
memory_reads path content b accepted = ground (
  arith,
  Map.get-insert_self (Memory.normalize_path path)
      (record {
        content = content;
        mtime = 9;
        version = Memory.version_after (Map.get (Memory.normalize_path path) b.files);
      })
      b.files,
)

abbrev a : Str
a = text "a"

abbrev b : Str
b = text "b"

abbrev limits : CacheConfig
limits = record { max_entries = 2; max_size = 100; ttl = 300; enabled = true }

abbrev files : MemoryBackend
files = record { files = (a, record { content = 1 ∷ []; mtime = 5; version = 1 }) ∷ [] }

abbrev t : CachedBackend MemoryBackend (Map.Map Str Bytes)
t = record {
  inner = files;
  cache = record { config = limits; cache = (b, 7 ∷ []) ∷ [] };
  sync = new (record default_sync { mode = write_through });
  read_only = false;
}

-- with the cache at its limit
abbrev full : CachedBackend MemoryBackend (Map.Map Str Bytes)
full = record t { cache = record { config = limits; cache = (a, 1 ∷ []) ∷ (b, 7 ∷ []) ∷ [] } }

read-write_example :
    ((write memory keeps 9 a (2 ∷ []) t).1 ≡ ok tt)
    × ((read memory keeps a (write memory keeps 9 a (2 ∷ []) t).0).1 ≡ ok (2 ∷ []))
unfolding Memory.write
read-write_example =
    read-write memory keeps 9 a (2 ∷ []) t keeps_laws memory_reads refl refl
      (inr (omega arith, omega arith)) refl

read-write_full_example :
    let u = (write memory keeps 9 a (2 ∷ []) full).0 in
    (Memory.read a u.inner ≡ ok (2 ∷ [])) × ((read memory keeps a u).1 ≡ ok (1 ∷ []))
unfolding Memory.write Map.get list_beq
read-write_full_example =
    read-write_full memory keeps 9 a (2 ∷ []) (1 ∷ []) full memory_reads refl refl refl
      (omega arith) refl refl
