-- ===== src/Chunker/Tests.antt =====
-- Runs of the fixed-size chunker, and its theorems at concrete inputs
-- (crates/openfs-local/src/chunkers/fixed.rs).
use mathlib.Core.List.{Memᴰ}
use open_fs.Prelude.{
  ℕ, ◌≤◌, ◌<◌, ◌≡◌, refl, none, some, List, [], ◌∷◌, length, All, arith, map, retain, Option,
}
use open_fs.Prelude.Text.{Str}
use open_fs.Chunker.{
  ChunkerConfig, Chunk, chunk, chunks_from, new_chunk, count_lines_to_offset, slice, raw_chunks,
  raw_from,
}
use open_fs.Chunker.Cut.{IsCut, chunk-IsCut, chunk-Covered}

program : Unit {0}
unfolding chunk chunks_from new_chunk count_lines_to_offset slice raw_chunks raw_from retain
program = tt

abbrev c : ChunkerConfig
c = record { chunk_size = 4; chunk_overlap = 1; min_chunk_size = 2 }

abbrev ids : ℕ → Str
ids i = i ∷ []

abbrev abcdefgh : Str
abcdefgh = 97 ∷ 98 ∷ 10 ∷ 100 ∷ 101 ∷ 102 ∷ 103 ∷ 104 ∷ []

abbrev offsets : Option (List Chunk) → List (ℕ × ℕ)
offsets none = []
offsets (some ks) = map (λ (k : Chunk). (k.start_offset, k.end_offset)) ks

cuts : offsets (chunk ids c abcdefgh []) ≡ (0, 4) ∷ (3, 7) ∷ (6, 8) ∷ []
unfolding program
cuts = refl

-- the last byte is in no chunk
loses_tail :
    offsets (chunk ids (record c { chunk_overlap = 0 }) (97 ∷ 98 ∷ 99 ∷ 100 ∷ 101 ∷ []) [])
    ≡ (0, 4) ∷ []
unfolding program
loses_tail = refl

abbrev only : Chunk
only = record {
  id = 0 ∷ [];
  source_path = [];
  content = 97 ∷ 10 ∷ 99 ∷ [];
  start_offset = 0;
  end_offset = 3;
  start_line = 1;
  end_line = 2;
  chunk_index = 0;
  total_chunks = 1;
}

one_chunk : chunk ids c (97 ∷ 10 ∷ 99 ∷ []) [] ≡ some (only ∷ [])
unfolding program
one_chunk = refl

chunk-IsCut_example :
    All
      (λ k. IsCut ids c (97 ∷ 10 ∷ 99 ∷ []) [] k × (k.total_chunks ≡ length (only ∷ [])))
      (only ∷ [])
chunk-IsCut_example = chunk-IsCut ids c (97 ∷ 10 ∷ 99 ∷ []) [] (only ∷ []) one_chunk

chunk-Covered_example : (k : Chunk) × Memᴰ k (only ∷ []) × (k.start_offset ≤ 1) × (1 < k.end_offset)
chunk-Covered_example =
    chunk-Covered ids c (97 ∷ 10 ∷ 99 ∷ []) [] (only ∷ []) 1 one_chunk (omega arith) (omega arith)
      (omega arith) (omega arith)
