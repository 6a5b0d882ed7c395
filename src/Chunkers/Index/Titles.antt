-- ===== src/Chunkers/Index/Titles.antt =====
-- The title paths of the boundary index (`_title_path_at`, ingestion/chunkers.py).
use veloxrag.Prelude.{ℕ, ◌≡◌, ap, some, List, [], map, All, ok}
use veloxrag.Parsers.Boundary.{Title, StructuralBoundary}
use veloxrag.Parsers.Builder.{StructuralBoundaries, iterate}
use veloxrag.Parsers.Artifact.{validate_for_text_length}
use veloxrag.Parsers.Lookup.Paths.{title_path-at_offset}
use veloxrag.Chunkers.Index.{
  read_path, compact_title_path_at, index_compact_boundaries, packed, index_boundaries,
}

-- Of columns that fit a text and give back a sequence of boundaries, each offset has no titles or
-- the path of one of the boundaries.
pub title_path_at-compact :
    (P : List Title → Type 0) (s : StructuralBoundaries) (bs : List StructuralBoundary) (n : ℕ)
    → validate_for_text_length n s.storage ≡ ok tt
    → iterate s ≡ map ok bs
    → P []
    → All (λ b. P b.title_path) bs
    → (offset : ℕ)
    → (path : List Title) × ((index_boundaries (packed s)).title_path_at offset ≡ some path)
      × P path
unfolding index_boundaries index_compact_boundaries compact_title_path_at
title_path_at-compact P s bs n fits same root titles offset =
    let (path, found, good) = title_path-at_offset P s bs n fits same root titles offset in
    (path, ap read_path found, good)
