-- ===== src/Chunkers/Loop/Tiling.antt =====
-- What readers of chunks (ingestion/chunkers.py) expect of them: tilings and covers of a text.
use native.Mathlib.Decide.{dec_lt}
use veloxrag.Prelude.{
  ℕ, suc, ◌+◌, ◌≤◌, ◌<◌, ◌≡◌, ◌⊎◌, inl, inr, List, [], ◌∷◌, arith, length, slice,
}
use veloxrag.Chunkers.Loop.{Chunk}

-- One chunk of a tiling: `previous` is the end of the chunk before it, `low` is behind that one's
-- start, and `i` counts the chunks.
pub record Fits (text : List ℕ) (limit previous low i : ℕ) (c : Chunk) : Type 0 where
  pub index : c.chunk_index ≡ i
  pub content : c.text ≡ slice text c.start_offset c.end_offset
  pub start_grows : low ≤ c.start_offset
  pub no_gap : c.start_offset ≤ previous
  pub end_grows : previous < c.end_offset
  pub inside : c.end_offset ≤ length text
  pub bounded : c.end_offset ≤ c.start_offset + limit

-- Chunks that tile the text from `previous` on.
abbrev pub Tiles : List ℕ → ℕ → ℕ → ℕ → ℕ → List Chunk → Type 0
Tiles text limit previous low i [] = previous ≡ length text
Tiles text limit previous low i (c ∷ cs) =
    Fits text limit previous low i c × Tiles text limit c.end_offset (suc c.start_offset) (i + 1) cs

-- Some chunk of the list covers an offset.
abbrev pub Covers : List Chunk → ℕ → Type 0
Covers [] o = ⊥
Covers (c ∷ cs) o = ((c.start_offset ≤ o) × (o < c.end_offset)) ⊎ Covers cs o

-- A tiling covers all that it has not left behind.
pub Tiles-Covers :
    (text : List ℕ) (limit previous low i : ℕ) (cs : List Chunk)
    → Tiles text limit previous low i cs
    → (o : ℕ) → previous ≤ o
    → o < length text
    → Covers cs o
Tiles-Covers text limit previous low i [] t o h k = absurd (omega arith)
Tiles-Covers text limit previous low i (c ∷ cs) t o h k = elim (dec_lt o c.end_offset) [
  | yes p ↦ inl (omega (arith, t.0.no_gap), p)
  | no p ↦
      inr
        (Tiles-Covers text limit c.end_offset (suc c.start_offset) (i + 1) cs t.1 o (omega arith) k)
]

pub Fits-lower :
    (text : List ℕ) (limit previous low low' i : ℕ) (c : Chunk)
    → low' ≤ low
    → Fits text limit previous low i c
    → Fits text limit previous low' i c
Fits-lower text limit previous low low' i c h f = record {
  index = f.index;
  content = f.content;
  start_grows = omega (arith, f.start_grows);
  no_gap = f.no_gap;
  end_grows = f.end_grows;
  inside = f.inside;
  bounded = f.bounded;
}
