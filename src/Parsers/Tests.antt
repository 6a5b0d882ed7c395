-- ===== src/Parsers/Tests.antt =====
-- The compaction of boundaries at a concrete sequence.
use veloxrag.Prelude.{
  length, ℕ, ◌≡◌, refl, some, none, List, [], ◌∷◌, map, codes, ok, ◌>>=◌, All, ◌≤◌, ◌↔◌,
}
use veloxrag.Parsers.Boundary.{
  StructuralBoundary, heading, list_item, validate_boundary, validate_title_path,
}
use veloxrag.Parsers.Storage.{PackedRecord}
use veloxrag.Parsers.Runs.{add_record, store_rest}
use veloxrag.Parsers.Titles.{title_path_id}
use veloxrag.Parsers.Titles.Laws.{IsText}
use veloxrag.Parsers.Builder.{
  StructuralBoundaries, add_all, add, add_checked, extend, finish, from_sequence, item, iterate,
  pack,
}
use veloxrag.Parsers.Builder.Access.{item-from_sequence}
use veloxrag.Parsers.Builder.RoundTrip.{iterate-from_sequence}
use veloxrag.Parsers.PlainText.{paragraphs, iter_lines}
use veloxrag.Parsers.PlainText.Paragraphs.{paragraphs-InOrder}
use veloxrag.Parsers.Builder.Order.{
  InOrder, IsTitle, path_bytes, from_sequence-InOrder, validate_title_path_iff,
}

abbrev entry : ℕ → ℕ → StructuralBoundary
entry first last = record {
  kind = list_item;
  start_offset = first;
  end_offset = last;
  title_path = codes "A" ∷ codes "é" ∷ [];
  heading_level = none;
}

abbrev title : StructuralBoundary
title = record {
  kind = heading;
  start_offset = 0;
  end_offset = 4;
  title_path = codes "A" ∷ [];
  heading_level = some 1;
}

-- A heading, four items with a stride of six, and one that breaks the pattern.
abbrev several : List StructuralBoundary
several = title ∷ entry 5 10 ∷ entry 11 16 ∷ entry 17 22 ∷ entry 23 28 ∷ entry 30 31 ∷ []

abbrev packed_item : ℕ → ℕ → PackedRecord
packed_item first size = record {
  code = 2;
  start = first;
  size = size;
  title_path_id = 2;
  level = 0;
}

-- The four items are one segment, with a template of one record.
abbrev several_columns : StructuralBoundaries
several_columns = record {
  storage = record {
    templates =
        record { code = 0; start = 0; size = 4; title_path_id = 1; level = 1 }
        ∷ packed_item 5 5
        ∷ packed_item 30 1
        ∷ [];
    segments =
        record {
          template_start = 0;
          template_count = 1;
          repeat_count = 1;
          first_start = 0;
          stride = 0;
          cumulative_count = 1;
        }
        ∷ record {
          template_start = 1;
          template_count = 1;
          repeat_count = 4;
          first_start = 5;
          stride = 6;
          cumulative_count = 5;
        }
        ∷ record {
          template_start = 2;
          template_count = 1;
          repeat_count = 1;
          first_start = 30;
          stride = 0;
          cumulative_count = 6;
        }
        ∷ [];
  };
  tree = record {
    title_data = 65 ∷ 195 ∷ 169 ∷ [];
    title_end_offsets = 1 ∷ 3 ∷ [];
    title_parents = 0 ∷ 1 ∷ [];
  };
}

several_accepted : from_sequence several ≡ ok several_columns
unfolding from_sequence extend finish add_all add add_checked title_path_id add_record store_rest
    pack validate_boundary ◌>>=◌
several_accepted = refl

entry-IsText : (first last : ℕ) → All IsText (entry first last).title_path
entry-IsText first last = ((refl, tt), ((refl, tt), tt))

several-IsText : All (λ b. All IsText b.title_path) several
several-IsText = (
  ((refl, tt), tt),
  (
    entry-IsText 5 10,
    (entry-IsText 11 16, (entry-IsText 17 22, (entry-IsText 23 28, (entry-IsText 30 31, tt)))),
  ),
)

iterate-from_sequence_example : iterate several_columns ≡ map ok several
iterate-from_sequence_example =
    iterate-from_sequence several several_columns several_accepted several-IsText

item-from_sequence_example : item several_columns 3 ≡ ok (entry 17 22)
item-from_sequence_example =
    item-from_sequence several several_columns 3 several_accepted several-IsText

from_sequence-InOrder_example : InOrder 0 several
from_sequence-InOrder_example = from_sequence-InOrder several several_columns several_accepted

validate_title_path_iff_example :
    (validate_title_path (codes "é" ∷ []) ≡ ok tt)
    ↔ (All IsTitle (codes "é" ∷ []) × (path_bytes (codes "é" ∷ []) ≤ 4096))
validate_title_path_iff_example = validate_title_path_iff (codes "é" ∷ []) ((refl, tt), tt)

abbrev two_lines : List ℕ
two_lines = b'a' ∷ 0x0a ∷ b' ' ∷ 0x0a ∷ b'b' ∷ []

paragraphs-InOrder_example :
    InOrder 0 (paragraphs none 0 (iter_lines two_lines))
    × All (λ b. b.end_offset ≤ length two_lines) (paragraphs none 0 (iter_lines two_lines))
paragraphs-InOrder_example = paragraphs-InOrder two_lines
