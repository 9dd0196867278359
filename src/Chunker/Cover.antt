-- ===== src/Chunker/Cover.antt =====
-- What the chunks of crates/openfs-local/src/chunkers/fixed.rs cover.
use mathlib.Core.List.{Memᴰ}
use mathlib.Core.List.Memᴰ.{head, tail}
use open_fs.Prelude.{
  ℕ, zero, suc, ◌+◌, ◌≤◌, ◌<◌, ◌≡◌, refl, true, List, arith, ltb, min, Bool-cases, inl, inr, All,
}
use open_fs.Chunker.{ChunkerConfig, step_of, raw_from}

-- A range within the text, no longer than a chunk, and shorter only at the end of the text.
abbrev pub InText : ChunkerConfig → ℕ → ℕ × ℕ → Type 0
InText c len (start, end) = (start < len) × (end ≡ min (start + c.chunk_size) len)

pub raw_from-InText :
    (c : ChunkerConfig) (len fuel start : ℕ) → All (InText c len) (raw_from c len fuel start)
unfolding raw_from
raw_from-InText c len zero start = tt
raw_from-InText c len (suc fuel) start = elim (Bool-cases (ltb start len)) [
  | inl inside ↦
      rw (inside, raw_from) ((ground arith, refl), raw_from-InText c len fuel (start + step_of c))
  | inr past ↦ rw (past, raw_from) tt
]

-- A range of the list that the offset lies in.
abbrev pub Covered : ℕ → List (ℕ × ℕ) → Type 0
Covered i raw = (r : ℕ × ℕ) × Memᴰ r raw × (r.0 ≤ i) × (i < r.1)

pub raw_from-Covered :
    (c : ChunkerConfig) (len fuel start i : ℕ)
    → 0 < c.chunk_size
    → start ≤ i
    → i < len
    → len ≤ start + fuel
    → Covered i (raw_from c len fuel start)
unfolding raw_from
raw_from-Covered c len zero start i pos le lt enough = absurd (omega arith)
raw_from-Covered c len (suc fuel) start i pos le lt enough =
    let inside : ltb start len ≡ true = ground arith in
    let next = start + step_of c in
    let advances : start < next = ground arith in
    elim (Bool-cases (ltb i (start + c.chunk_size))) [
      | inl here ↦
          rw (inside, raw_from)
            ((start, min (start + c.chunk_size) len), head refl, le, ground arith)
      | inr later ↦
          let (r, in_rest, from, to) =
            raw_from-Covered c len fuel next i pos (ground arith) lt
              (omega (arith, enough, advances)) in
          rw (inside, raw_from) (r, tail in_rest, from, to)
    ]
