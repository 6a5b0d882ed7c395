-- ===== src/Parsers/Builder.antt =====
-- `_BoundaryBuilder` and `StructuralBoundaries` of ingestion/parsers.py as wholes.
pub mod RoundTrip
pub mod Order
pub mod Access
use veloxrag.Chunkers.Points.{bisect_right}
use veloxrag.Prelude.{
  ◌*◌, ◌/◌, ◌%◌, ltb, get_or, get_elem?, ℕ, zero, suc, ◌+◌, ◌-◌, Bool, true, false, not, Option,
  none, some, List, [], ◌∷◌, map, leb, Checked, ok, err, ◌>>=◌, ◌>>◌, guard,
}
use veloxrag.Parsers.Boundary.{
  Title, StructuralBoundary, ParserFailure, invalid_boundary, out_of_range, already_finalized,
  validate_boundary, kind_code, kind_of_code,
}
use veloxrag.Parsers.Storage.{
  PackedRecord, Segment, Storage, stored_records, total_count, record_in,
}
use veloxrag.Parsers.Runs.{Runs, no_runs, add_record, store_rest}
use veloxrag.Parsers.Titles.{TitleTree, Titles, no_titles, title_path_id, title_path}

pub record Builder : Type 0 where
  pub titles : Titles
  pub runs : Runs
  pub last_end_offset : ℕ
  pub finished : Bool

abbrev pub new_builder : Builder
new_builder = record { titles = no_titles; runs = no_runs; last_end_offset = 0; finished = false }

-- `heading_level or 0`
unfoldable pub level_code : Option ℕ → ℕ
level_code none = 0
level_code (some level) = level

-- `heading_level or None`
unfoldable pub level_of_code : ℕ → Option ℕ
level_of_code zero = none
level_of_code (suc n) = some (suc n)

-- The five numbers of a boundary whose title path has an identifier.
unfoldable pub pack : StructuralBoundary → ℕ → PackedRecord
unfolding kind_code level_code
pack b path_id = record {
  code = kind_code b.kind;
  start = b.start_offset;
  size = b.end_offset - b.start_offset;
  title_path_id = path_id;
  level = level_code b.heading_level;
}

-- `add_fields` behind its checks.
unfoldable pub add_checked : StructuralBoundary → Builder → Checked ParserFailure Builder
unfolding ◌>>=◌ title_path_id add_record pack
add_checked b builder = do
  (titles, path_id) ← title_path_id b.title_path builder.titles
  runs ← add_record (pack b path_id) builder.runs
  ok (record builder { titles = titles; runs = runs; last_end_offset = b.end_offset })

-- `add` and `add_fields`
unfoldable pub add : StructuralBoundary → Builder → Checked ParserFailure Builder
unfolding ◌>>=◌
add b builder =
    validate_boundary b
    >> (guard (leb builder.last_end_offset b.start_offset) invalid_boundary
        >> (guard (not builder.finished) already_finalized >> add_checked b builder))

unfoldable pub add_all : List StructuralBoundary → Builder → Checked ParserFailure Builder
unfolding ◌>>=◌ add
add_all [] builder = ok builder
add_all (b ∷ rest) builder = add b builder >>= add_all rest

unfoldable pub extend : List StructuralBoundary → Builder → Checked ParserFailure Builder
unfolding add_all
extend boundaries builder =
    guard (not builder.finished) already_finalized >> add_all boundaries builder

-- The columns that `finish` hands over.
pub record StructuralBoundaries : Type 0 where
  pub storage : Storage
  pub tree : TitleTree

unfoldable pub finish : Builder → Checked ParserFailure StructuralBoundaries
unfolding ◌>>=◌ store_rest
finish builder =
    guard (not builder.finished) already_finalized
    >> (store_rest builder.runs >>= λ storage.
        ok (record { storage = storage; tree = builder.titles.tree }))

-- `StructuralBoundaries.from_sequence`
unfoldable pub from_sequence : List StructuralBoundary → Checked ParserFailure StructuralBoundaries
unfolding ◌>>=◌ extend finish
from_sequence boundaries = extend boundaries new_builder >>= finish

-- The fields that `_boundary_at_segment_position` gives to the constructor of the boundary.
unfoldable pub unpack : PackedRecord → List Title → StructuralBoundary
unfolding kind_of_code level_of_code
unpack r path = record {
  kind = kind_of_code r.code;
  start_offset = r.start;
  end_offset = r.start + r.size;
  title_path = path;
  heading_level = level_of_code r.level;
}

-- `StructuralBoundary(…)`
unfoldable pub construct : StructuralBoundary → Checked ParserFailure StructuralBoundary
unfolding ◌>>=◌
construct b = validate_boundary b >> ok b

-- `_boundary_at_segment_position` for a record with its cycle's offset.
unfoldable pub boundary_at : TitleTree → PackedRecord → Checked ParserFailure StructuralBoundary
unfolding ◌>>=◌
boundary_at tree r = title_path tree r.title_path_id >>= λ path. construct (unpack r path)

-- What `__iter__` gives, one boundary after another.
unfoldable pub iterate : StructuralBoundaries → List (Checked ParserFailure StructuralBoundary)
unfolding stored_records boundary_at
iterate s = map (boundary_at s.tree) (stored_records s.storage)

-- `self._cumulative_counts[segment_index - 1] if segment_index else 0`
unfoldable pub previous_count : List ℕ → ℕ → ℕ
previous_count counts zero = 0
previous_count counts (suc i) = get_or counts i 0

unfoldable pub read_segment : Option Segment → Checked ParserFailure Segment
read_segment none = err out_of_range
read_segment (some s) = ok s

unfoldable pub read_record : Option PackedRecord → Checked ParserFailure PackedRecord
read_record none = err out_of_range
read_record (some r) = ok r

-- The record that `__getitem__` finds for an index that is in range.
unfoldable pub record_at : Storage → ℕ → Checked ParserFailure PackedRecord
unfolding ◌>>=◌
record_at st index =
    let counts = map (λ (s : Segment). s.cumulative_count) st.segments in
    let segment_index = bisect_right counts index in
    read_segment (get_elem? st.segments segment_index) >>= λ s.
    read_record (record_in st.templates (index - previous_count counts segment_index) s)

-- `__len__`
unfoldable pub count : StructuralBoundaries → ℕ
unfolding total_count
count s = total_count s.storage.segments

-- `__getitem__` of an index that is not negative
unfoldable pub item : StructuralBoundaries → ℕ → Checked ParserFailure StructuralBoundary
unfolding ◌>>=◌ record_at boundary_at count
item s index =
    guard (ltb index (count s)) out_of_range >> (record_at s.storage index >>= boundary_at s.tree)
