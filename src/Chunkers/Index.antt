-- ===== src/Chunkers/Index.antt =====
-- The boundary index of ingestion/chunkers.py: that of packed boundaries, which every parsed artifact
-- has, and that of a plain sequence.
pub mod Titles
use veloxrag.Prelude.{
  ℕ, zero, suc, Bool, true, false, ◌&&◌, Option, none, some, List, [], ◌∷◌, ◌++◌, ltb, ◌==◌,
  if◌then◌else◌, length, get_or, Checked, ok, err,
}
use veloxrag.Parsers.Boundary.{
  Title, BoundaryKind, heading, paragraph, list_item, fenced_code_block, StructuralBoundary,
  ParserFailure,
}
use veloxrag.Parsers.Storage.{Storage}
use veloxrag.Parsers.Titles.{title_path}
use veloxrag.Parsers.Builder.{StructuralBoundaries}
use veloxrag.Parsers.Lookup.{title_path_id_at_offset}
use veloxrag.Chunkers.Packed.{boundary_end_starting_at}
use veloxrag.Chunkers.Packed.Search.{point_set}
use veloxrag.Chunkers.Packed.Packing.{PointMode, starts, both, packed_points}
use veloxrag.Chunkers.Packed.Ends.{packed_points-IsPacked}
use veloxrag.Chunkers.Points.{PointSet, bisect_left, bisect_right, append_distinct}
use veloxrag.Chunkers.Points.Search.{sequence_points}

-- `_BoundaryIndex`, with the two look-ups that read its remaining fields.
pub record BoundaryIndex : Type 0 where
  pub headings : PointSet
  pub structural_starts : PointSet
  pub code_blocks : PointSet
  pub paragraphs : PointSet
  pub list_items : PointSet
  pub paragraph_end_starting_at : ℕ → Option ℕ
  pub title_path_at : ℕ → Option (List Title)  -- `none` where a title cannot be read

-- The lists that the loop of `_index_boundaries` fills.
pub record Collected : Type 0 where
  pub headings : List ℕ
  pub structural_starts : List ℕ
  pub code_blocks : List ℕ
  pub paragraphs : List ℕ
  pub paragraph_starts : List ℕ
  pub paragraph_ends : List ℕ
  pub list_items : List ℕ
  pub title_offsets : List ℕ
  pub title_paths : List (List Title)

abbrev pub nothing_collected : Collected
nothing_collected = record {
  headings = [];
  structural_starts = [];
  code_blocks = [];
  paragraphs = [];
  paragraph_starts = [];
  paragraph_ends = [];
  list_items = [];
  title_offsets = [];
  title_paths = [];
}

append_both : List ℕ → StructuralBoundary → List ℕ
unfolding append_distinct
append_both points b = append_distinct (append_distinct points b.start_offset) b.end_offset

collect_kind : BoundaryKind → StructuralBoundary → Collected → Collected
unfolding append_distinct append_both
collect_kind heading b c = record c { headings = append_distinct c.headings b.start_offset }
collect_kind fenced_code_block b c = record c {
  structural_starts = append_distinct c.structural_starts b.start_offset;
  code_blocks = append_both c.code_blocks b;
}
collect_kind paragraph b c = record c {
  structural_starts = append_distinct c.structural_starts b.start_offset;
  paragraphs = append_both c.paragraphs b;
  paragraph_starts = c.paragraph_starts ++ b.start_offset ∷ [];
  paragraph_ends = c.paragraph_ends ++ b.end_offset ∷ [];
}
collect_kind list_item b c = record c {
  structural_starts = append_distinct c.structural_starts b.start_offset;
  list_items = append_both c.list_items b;
}

add_title : Collected → StructuralBoundary → Collected
add_title c b = record c {
  title_offsets = c.title_offsets ++ b.start_offset ∷ [];
  title_paths = c.title_paths ++ b.title_path ∷ [];
}

-- The loop of `_index_boundaries`.
unfoldable pub collect : Collected → List StructuralBoundary → Collected
unfolding collect_kind add_title
collect c [] = c
collect c (b ∷ rest) = collect (collect_kind b.kind b (add_title c b)) rest

-- `_paragraph_end_starting_at`
unfoldable paragraph_end_in : List ℕ → List ℕ → ℕ → Option ℕ
unfolding bisect_left
paragraph_end_in first_offsets last_offsets offset =
    let position = bisect_left first_offsets offset in
    if ltb position (length first_offsets) && get_or first_offsets position 0 == offset
    then some (get_or last_offsets position 0)
    else none

-- `_title_path_at`
unfoldable pub title_path_in : List ℕ → List (List Title) → ℕ → List Title
unfolding bisect_right
title_path_in offsets paths offset = elim (bisect_right offsets offset) [
  | zero ↦ []
  | suc position ↦ get_or paths position []
]

-- `_index_boundaries` behind its first test.
unfoldable pub index_sequence : List StructuralBoundary → BoundaryIndex
unfolding collect paragraph_end_in title_path_in
index_sequence boundaries =
    let c = collect nothing_collected boundaries in
    record {
      headings = sequence_points c.headings;
      structural_starts = sequence_points c.structural_starts;
      code_blocks = sequence_points c.code_blocks;
      paragraphs = sequence_points c.paragraphs;
      list_items = sequence_points c.list_items;
      paragraph_end_starting_at = paragraph_end_in c.paragraph_starts c.paragraph_ends;
      title_path_at = λ offset. some (title_path_in c.title_offsets c.title_paths offset);
    }

abbrev is_heading : BoundaryKind → Bool
is_heading heading = true
is_heading kind = false

abbrev pub is_paragraph : BoundaryKind → Bool
is_paragraph paragraph = true
is_paragraph kind = false

abbrev is_list_item : BoundaryKind → Bool
is_list_item list_item = true
is_list_item kind = false

abbrev is_code_block : BoundaryKind → Bool
is_code_block fenced_code_block = true
is_code_block kind = false

abbrev is_structural : BoundaryKind → Bool
is_structural heading = false
is_structural kind = true

-- `_packed_points`, as a collection of points.
unfoldable pub packed_set : (BoundaryKind → Bool) → PointMode → Storage → PointSet
packed_set kinds mode st =
    point_set (packed_points kinds mode st) (packed_points-IsPacked kinds mode st)

abbrev pub read_path : Checked ParserFailure (List Title) → Option (List Title)
read_path (err e) = none
read_path (ok path) = some path

-- `_CompactTitlePathLookup.at`, which keeps the titles of the last path.
unfoldable pub compact_title_path_at : StructuralBoundaries → ℕ → Option (List Title)
unfolding title_path_id_at_offset
compact_title_path_at s offset =
    read_path (title_path s.tree (title_path_id_at_offset s.storage offset))

-- `_index_compact_boundaries`
unfoldable pub index_compact_boundaries : StructuralBoundaries → BoundaryIndex
unfolding packed_set compact_title_path_at
index_compact_boundaries s = record {
  headings = packed_set is_heading starts s.storage;
  structural_starts = packed_set is_structural starts s.storage;
  code_blocks = packed_set is_code_block both s.storage;
  paragraphs = packed_set is_paragraph both s.storage;
  list_items = packed_set is_list_item both s.storage;
  paragraph_end_starting_at =
      boundary_end_starting_at (packed_points is_paragraph starts s.storage);
  title_path_at = compact_title_path_at s;
}

-- What `_index_boundaries` is called with.
pub data Boundaries : Type 0 where
  plain : List StructuralBoundary → Boundaries
  packed : StructuralBoundaries → Boundaries

unfoldable pub index_boundaries : Boundaries → BoundaryIndex
unfolding index_sequence index_compact_boundaries
index_boundaries (plain boundaries) = index_sequence boundaries
index_boundaries (packed boundaries) = index_compact_boundaries boundaries
