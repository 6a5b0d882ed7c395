-- ===== src/Chunkers/Tests.antt =====
-- The chunker at concrete inputs.

use veloxrag.Prelude.{
  get_or, length, ok, map, ◌↔◌, ◌-◌, ℕ, ◌≡◌, refl, true, false, some, none, List, [], ◌∷◌, codes,
  Bool, ◌==◌, arith, ◌<◌, ◌≤◌, ◌⊎◌, ◌>>=◌, inr, zero, suc, if◌then◌else◌,
}
use veloxrag.Chunkers.Tables.{within}
use veloxrag.Chunkers.Grapheme.{UnicodeData, unsafe_boundary, safe_end, safe_start}
use veloxrag.Chunkers.Grapheme.Safe.{LastSafe, safe_end-LastSafe, safe_start_lem}
use veloxrag.Chunkers.Points.{bisect, first_point, last_point, contains_point}
use veloxrag.Chunkers.Lexical.{
  last_sentence_end, select_last, find_sentence_ends, sentence_ends, match_length,
}
use veloxrag.Chunkers.Lexical.Bounds.{last_sentence_end_bounds}
use veloxrag.Chunkers.Choose.{choose_end, choose_overlap_start}
use veloxrag.Chunkers.Choose.Bounds.{InWindow, choose_end_window, choose_overlap_start_window}
use veloxrag.Chunkers.Points.Search.{IsSorted, contains_point_iff}
use veloxrag.Chunkers.Packed.{
  PackedRunPoints, segments, row, point_in_segment, point_position, segment_point_count,
  packed_first, packed_last,
}
use veloxrag.Chunkers.Packed.Packing.{both, packed_points}
use veloxrag.Chunkers.Packed.Sources.{IsOffset}
use veloxrag.Chunkers.Packed.Offsets.{packed_points-IsOffset}
use veloxrag.Parsers.Storage.{Storage, stored_records}
use veloxrag.Chunkers.Packed.Search.{IsPacked, IsPoint, packed_first-IsPoint, packed_last-IsPoint}
use veloxrag.Parsers.Boundary.{Title, BoundaryKind, kind_code, paragraph, StructuralBoundary}
use veloxrag.Parsers.Boundary.{validate_boundary}
use veloxrag.Parsers.Titles.{title_path, walk, decode_title_node}
use veloxrag.Parsers.Builder.{StructuralBoundaries, iterate, construct, unpack}
use veloxrag.Prelude.Utf8.{encode_utf8}
use veloxrag.Parsers.Artifact.{
  validate_for_text_length, check_segments, check_segment, read_template, check_cycle,
}
use veloxrag.Chunkers.Index.{packed, index_boundaries}
use veloxrag.Chunkers.Loop.{Config, Run, done, is_sha256, valid_titles, new_chunker, chunk}
use veloxrag.Chunkers.Loop.Tiling.{Tiles, Covers}
use veloxrag.Chunkers.Loop.Progress.{chunk-Tiles, chunk-Covers}

abbrev ascii : UnicodeData
ascii = record {
  category = λ c. if within b'a' b'z' c then (b'L', b'l') else (b'P', b'o');
  name = λ c. [];
  combining = λ c. 0;
}

abbrev constant_hash : List ℕ → List Title → List ℕ
constant_hash part path = codes "0123456789abcdef0123456789abcdef0123456789abcdef0123456789abcdef"

abbrev sample : List ℕ
sample = codes "one. two three. four five six seven"

abbrev sample_list : List StructuralBoundary
sample_list =
    record {
      kind = paragraph;
      start_offset = 0;
      end_offset = 35;
      title_path = codes "t" ∷ [];
      heading_level = none;
    }
    ∷ []

abbrev sample_boundaries : StructuralBoundaries
sample_boundaries = record {
  storage = record {
    templates = record { code = 1; start = 0; size = 35; title_path_id = 1; level = 0 } ∷ [];
    segments =
        record {
          template_start = 0;
          template_count = 1;
          repeat_count = 1;
          first_start = 0;
          stride = 0;
          cumulative_count = 1;
        }
        ∷ [];
  };
  tree = record { title_data = b't' ∷ []; title_end_offsets = 1 ∷ []; title_parents = 0 ∷ [] };
}

sample_fits : validate_for_text_length 35 sample_boundaries.storage ≡ ok tt
unfolding validate_for_text_length check_segments check_segment read_template check_cycle ◌>>=◌
sample_fits = refl

sample_read : iterate sample_boundaries ≡ map ok sample_list
unfolding iterate validate_boundary title_path walk decode_title_node construct unpack encode_utf8
    ◌>>=◌
sample_read = refl

abbrev small : Config
small = record { max_chunk_codepoints = 12; target_overlap_codepoints = 3 }

abbrev sample_run : Run
sample_run =
    chunk ascii constant_hash small sample "plain_text_v1"
      (index_boundaries (packed sample_boundaries))

chunk-Tiles_example : (sample_run.outcome ≡ done) × Tiles sample 12 0 0 0 sample_run.chunks
unfolding new_chunker valid_titles is_sha256
chunk-Tiles_example =
    chunk-Tiles ascii constant_hash 12 3 small refl sample "plain_text_v1" sample_boundaries
      sample_fits sample_list sample_read refl refl (refl, tt) (λ part path. refl)

chunk-Covers_example : Covers sample_run.chunks 20
unfolding new_chunker valid_titles is_sha256
chunk-Covers_example =
    chunk-Covers ascii constant_hash 12 3 small refl sample "plain_text_v1" sample_boundaries
      sample_fits sample_list sample_read refl refl (refl, tt) (λ part path. refl) 20 (omega arith)

-- The windows of the chunker on the sample: 12 characters behind 0, overlaps in the first chunk.
choose_end_window_example :
    InWindow 0 12
      (choose_end ascii sample "plain_text_v1"
        (index_boundaries (packed sample_boundaries))
        0
        0
        7
        12
        false).0
choose_end_window_example =
    choose_end_window ascii sample "plain_text_v1" (index_boundaries (packed sample_boundaries)) 0 0
      7 12 false (omega arith) (omega arith) (inr (omega arith))

choose_overlap_start_window_example : InWindow 0 5 (
    choose_overlap_start ascii sample "plain_text_v1"
      (index_boundaries (packed sample_boundaries))
      0
      2
      5)
choose_overlap_start_window_example =
    choose_overlap_start_window ascii sample "plain_text_v1"
      (index_boundaries (packed sample_boundaries)) 0 2 5 (omega arith) (omega arith)

safe_end-LastSafe_example : LastSafe ascii sample 0 12 (safe_end ascii sample 12 0)
safe_end-LastSafe_example = safe_end-LastSafe ascii sample 0 12 (omega arith)

safe_start_lem_example :
    (2 ≤ safe_start ascii sample 2 5 0)
    × (safe_start ascii sample 2 5 0 ≤ 5)
    × ((safe_start ascii sample 2 5 0 ≡ 5)
        ⊎ (unsafe_boundary ascii sample (safe_start ascii sample 2 5 0) 0 ≡ false))
    × ((p : ℕ)
        → 2 ≤ p
        → p < safe_start ascii sample 2 5 0
        → unsafe_boundary ascii sample p 0 ≡ true)
safe_start_lem_example = safe_start_lem ascii sample 0 2 5 (omega arith)

abbrev points : List ℕ
points = 3 ∷ 8 ∷ []

points-IsSorted : IsSorted points
points-IsSorted zero zero a b = omega arith
points-IsSorted zero (suc zero) a b = omega arith
points-IsSorted zero (suc (suc j)) a b = absurd (omega arith)
points-IsSorted (suc i) zero a b = absurd (omega arith)
points-IsSorted (suc zero) (suc zero) a b = omega arith
points-IsSorted (suc zero) (suc (suc j)) a b = absurd (omega arith)
points-IsSorted (suc (suc i)) (suc zero) a b = absurd (omega arith)
points-IsSorted (suc (suc i)) (suc (suc j)) a b = absurd (omega arith)

contains_point_iff_example :
    (contains_point points 8 ≡ true) ↔ ((j : ℕ) × (j < length points) × (get_or points j 0 ≡ 8))
contains_point_iff_example = contains_point_iff points points-IsSorted 8

sample_end : last_sentence_end sample 0 0 12 ≡ some 5
unfolding last_sentence_end select_last find_sentence_ends sentence_ends match_length
sample_end = refl

last_sentence_end_bounds_example : (0 < 5) × (0 < 5) × (5 ≤ 12)
last_sentence_end_bounds_example = last_sentence_end_bounds sample 0 0 12 5 sample_end

-- The points 3, 8, 13 and 18: a template of two, repeated once.
abbrev run : PackedRunPoints
run = record {
  template_points = 3 ∷ 8 ∷ [];
  template_lengths = [];
  rows =
      record {
        template_start = 0;
        template_count = 2;
        cycle_stride = 10;
        initial_skip = 0;
        repeat_skip = 0;
        cumulative_count = 4;
        first_point = 3;
        last_point = 18;
      }
      ∷ [];
}

run_ends :
    (s : ℕ)
    → s < segments run
    → (row run s).last_point ≡ point_in_segment run s (segment_point_count run s - 1)
unfolding point_in_segment segment_point_count point_position
run_ends zero h = refl
run_ends (suc s) h = absurd (omega arith)

run_filled : (s : ℕ) → s < segments run → 1 ≤ segment_point_count run s
unfolding segment_point_count
run_filled zero h = omega arith
run_filled (suc s) h = absurd (omega arith)

run-IsPacked : IsPacked run
run-IsPacked = record { filled = run_filled; ends = run_ends }

run_first : packed_first run 9 20 ≡ some 13
unfolding packed_first bisect point_in_segment point_position segment_point_count
run_first = refl

run_last : packed_last run 2 12 ≡ some 8
unfolding packed_last bisect point_in_segment point_position segment_point_count
run_last = refl

packed_first-IsPoint_example : IsPoint run 13 × (9 ≤ 13) × (13 < 20)
packed_first-IsPoint_example = packed_first-IsPoint run run-IsPacked 9 20 13 run_first

packed_last-IsPoint_example : IsPoint run 8 × (2 < 8) × (8 ≤ 12)
packed_last-IsPoint_example = packed_last-IsPoint run 2 12 8 run_last

-- Three paragraphs of ten characters, as one record repeated; their ends are one another's starts.
abbrev repeated : Storage
repeated = record {
  templates = record { code = 1; start = 0; size = 10; title_path_id = 0; level = 0 } ∷ [];
  segments =
      record {
        template_start = 0;
        template_count = 1;
        repeat_count = 3;
        first_start = 0;
        stride = 10;
        cumulative_count = 3;
      }
      ∷ [];
}

abbrev only_paragraphs : BoundaryKind → Bool
only_paragraphs kind = kind_code kind == 1

repeated_fits : validate_for_text_length 30 repeated ≡ ok tt
unfolding validate_for_text_length check_segments check_segment read_template check_cycle ◌>>=◌
repeated_fits = refl

last_paragraph_end : IsPoint (packed_points only_paragraphs both repeated) 30
unfolding packed_points point_in_segment point_position segment_point_count kind_code
last_paragraph_end = record {
  segment = 0;
  index = 3;
  in_segments = omega arith;
  in_segment = omega arith;
  at = refl;
}

packed_points-IsOffset_example : IsOffset only_paragraphs both (stored_records repeated) 30
packed_points-IsOffset_example =
    packed_points-IsOffset only_paragraphs both repeated 30 repeated_fits 30 last_paragraph_end
