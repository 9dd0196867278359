-- ===== src/Chunker.antt =====
-- crates/openfs-local/src/chunkers/fixed.rs: a text is cut into overlapping chunks of one size, for
-- the index. The random ids of the chunks are an argument, a function of the number of the chunk.
-- A slice whose end is not on a character's boundary stops the program: that is `none`.
pub mod Cover
pub mod Slice
pub mod Cut
pub mod Boundary
mod Tests
use open_fs.Prelude.{
  ℕ, zero, suc, ◌+◌, ◌-◌, ◌≤◌, Bool, true, false, not, ◌&&◌, ◌||◌, Option, none, some, List, [],
  ◌∷◌, map, length, take, drop, retain, ltb, leb, min, nat_eq, ◌==◌, if◌then◌else◌,
}
use open_fs.Prelude.Text.{Str}

pub record ChunkerConfig : Type 0 where
  pub chunk_size : ℕ
  pub chunk_overlap : ℕ
  pub min_chunk_size : ℕ

-- `ChunkerConfig::default`
abbrev pub default_chunker : ChunkerConfig
default_chunker = record { chunk_size = 512; chunk_overlap = 64; min_chunk_size = 50 }

-- The metadata of a chunk are empty here.
pub record Chunk : Type 0 where
  pub id : Str
  pub source_path : Str
  pub content : Str
  pub start_offset : ℕ
  pub end_offset : ℕ
  pub start_line : ℕ
  pub end_line : ℕ
  pub chunk_index : ℕ
  pub total_chunks : ℕ

-- `str::is_char_boundary` of the rest of a text from an offset on: its end, or a byte that does not
-- continue a character
abbrev pub starts_char : Str → Bool
starts_char [] = true
starts_char (x ∷ xs) = ltb x 128 || leb 192 x

-- `&text[start..end]`, for offsets up to the length of the text
unfoldable pub slice : Str → ℕ → ℕ → Option Str
slice text start end =
    if starts_char (drop start text) && starts_char (drop end text)
    then some (take (end - start) (drop start text))
    else none

-- A newline byte is a newline character. The slice that the code counts in ends at `end`, which is a
-- boundary wherever this is called.
unfoldable pub count_lines_to_offset : Str → ℕ → ℕ
count_lines_to_offset text offset = length (retain (λ c. c == 10) (take offset text)) + 1

-- `chunk_size.saturating_sub(overlap).max(1)`
abbrev pub step_of : ChunkerConfig → ℕ
step_of c = if ltb 0 (c.chunk_size - c.chunk_overlap) then c.chunk_size - c.chunk_overlap else 1

-- The first pass. A text as long as `fuel` is covered, since every step is at least one byte.
unfoldable pub raw_from : ChunkerConfig → ℕ → ℕ → ℕ → List (ℕ × ℕ)
raw_from c len zero start = []
raw_from c len (suc fuel) start =
    let rest = raw_from c len fuel (start + step_of c) in
    if ltb start len then (start, min (start + c.chunk_size) len) ∷ rest else []

unfoldable pub raw_chunks : ChunkerConfig → ℕ → List (ℕ × ℕ)
unfolding raw_from
raw_chunks c len = raw_from c len len 0

abbrev pub is_skipped : ChunkerConfig → ℕ → ℕ → ℕ → Bool
is_skipped c total_chunks chunk_index size =
    ltb size c.min_chunk_size && (ltb 1 total_chunks && ltb 0 chunk_index)

unfoldable pub new_chunk : (ℕ → Str) → Str → Str → ℕ → ℕ → ℕ × ℕ → Str → Chunk
unfolding count_lines_to_offset
new_chunk new_id text source_path total_chunks chunk_index (start, end) content = record {
  id = new_id chunk_index;
  source_path = source_path;
  content = content;
  start_offset = start;
  end_offset = end;
  start_line = count_lines_to_offset text start;
  end_line = count_lines_to_offset text end;
  chunk_index = chunk_index;
  total_chunks = total_chunks;
}

abbrev pub prepend : Chunk → Option (List Chunk) → Option (List Chunk)
prepend k none = none
prepend k (some ks) = some (k ∷ ks)

module _ (new_id : ℕ → Str) (c : ChunkerConfig) (text source_path : Str) where
  -- The second pass.
  unfoldable pub chunks_from : ℕ → ℕ → List (ℕ × ℕ) → Option (List Chunk)
  unfolding slice new_chunk
  chunks_from total_chunks chunk_index [] = some []
  chunks_from total_chunks chunk_index ((start, end) ∷ raw) =
      let skipped = chunks_from total_chunks chunk_index raw in
      let following = chunks_from total_chunks (chunk_index + 1) raw in
      elim (slice text start end) [
        | none ↦ none
        | some content ↦
            if is_skipped c total_chunks chunk_index (length content)
            then skipped
            else prepend
                (new_chunk new_id text source_path total_chunks chunk_index (start, end) content)
                following
      ]

  -- The last loop sets the actual number of chunks. An empty text has no raw chunk.
  unfoldable pub chunk : Option (List Chunk)
  unfolding raw_chunks chunks_from
  chunk =
      let raw = raw_chunks c (length text) in
      elim (chunks_from (length raw) 0 raw) [
        | none ↦ none
        | some chunks ↦ some (map (λ (k : Chunk). record k { total_chunks = length chunks }) chunks)
      ]
