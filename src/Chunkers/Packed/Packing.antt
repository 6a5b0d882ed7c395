-- ===== src/Chunkers/Packed/Packing.antt =====
-- `_packed_points` of ingestion/chunkers.py: the points of the boundaries of some kinds, packed as the
-- boundaries are. The offsets and counts that go into the arrays are those of a text, so that they
-- are below 2 ^ 32.
use veloxrag.Prelude.{
  ℕ, ◌+◌, ◌-◌, ◌*◌, Bool, false, ◌&&◌, Option, none, some, List, [], ◌∷◌, ◌++◌, ltb, ◌==◌,
  if◌then◌else◌, length, get_or,
}
use veloxrag.Parsers.Boundary.{BoundaryKind, kind_of_code}
use veloxrag.Parsers.Storage.{PackedRecord, Segment, Storage, template_of}
use veloxrag.Chunkers.Points.{ends_with, append_distinct}
use veloxrag.Chunkers.Packed.{PointSegment, PackedRunPoints}

-- `_PointMode`
pub data PointMode : Type 0 where
  starts ends both : PointMode

-- The start of a boundary, added to the points and lengths of a segment.
unfoldable pub add_start : PointMode → PackedRecord → List ℕ × List ℕ → List ℕ × List ℕ
unfolding ends_with append_distinct
add_start ends r collected = collected
add_start both r collected = (append_distinct collected.0 r.start, collected.1)
add_start starts r collected =
    if ends_with collected.0 r.start
    then collected
    else (collected.0 ++ r.start ∷ [], collected.1 ++ r.size ∷ [])

unfoldable pub add_end : PointMode → PackedRecord → List ℕ × List ℕ → List ℕ × List ℕ
unfolding append_distinct
add_end starts r collected = collected
add_end ends r collected = (append_distinct collected.0 (r.start + r.size), collected.1)
add_end both r collected = (append_distinct collected.0 (r.start + r.size), collected.1)

-- The loop over the template of a segment.
unfoldable pub collect_points :
    (BoundaryKind → Bool) → PointMode → List ℕ × List ℕ → List PackedRecord → List ℕ × List ℕ
unfolding add_start add_end kind_of_code
collect_points kinds mode collected [] = collected
collect_points kinds mode collected (r ∷ rest) =
    let added = add_end mode r (add_start mode r collected) in
    collect_points kinds mode (if kinds (kind_of_code r.code) then added else collected) rest

abbrev pub is_offset : Option ℕ → ℕ → Bool
is_offset none offset = false
is_offset (some other) offset = other == offset

-- The loop's variables: the arrays, `total` and `previous_last`.
pub record Packing : Type 0 where
  pub packed : PackedRunPoints
  pub total : ℕ
  pub previous_last : Option ℕ

-- The row of a segment with points. `first_count + (repeat_count - 1) * later_count` is written with
-- the subtraction last, so that it is 0 where the source has a number that is not positive.
unfoldable pub row_of : List ℕ → Segment → Packing → PointSegment
row_of points s p =
    let count = length points in
    let first = get_or points 0 0 in
    let last = get_or points (count - 1) 0 in
    let initial_skip = if is_offset p.previous_last first then 1 else 0 in
    let repeat_skip = if ltb 1 s.repeat_count && last == first + s.stride then 1 else 0 in
    let first_count = count - initial_skip in
    let later_count = count - repeat_skip in
    record {
      template_start = length p.packed.template_points;
      template_count = count;
      cycle_stride = s.stride;
      initial_skip = initial_skip;
      repeat_skip = repeat_skip;
      cumulative_count = p.total + (first_count + s.repeat_count * later_count - later_count);
      first_point =
          if ltb 0 first_count
          then get_or points initial_skip 0
          else get_or points repeat_skip 0 + s.stride;
      last_point = last + (s.repeat_count - 1) * s.stride;
    }

-- The points of a segment, behind those of the segments before it.
unfoldable pub add_segment : List ℕ → List ℕ → Segment → Packing → Packing
unfolding row_of
add_segment [] lengths s p = p
add_segment (x ∷ xs) lengths s p =
    let row = row_of (x ∷ xs) s p in
    let grown = record p.packed {
      template_points = p.packed.template_points ++ x ∷ xs;
      template_lengths = p.packed.template_lengths ++ lengths;
    } in
    if ltb p.total row.cumulative_count
    then record {
      packed = record grown { rows = p.packed.rows ++ row ∷ [] };
      total = row.cumulative_count;
      previous_last = some row.last_point;
    }
    else record p { packed = grown }

module _ (kinds : BoundaryKind → Bool) (mode : PointMode) where
  unfoldable pub pack_segment : List PackedRecord → Segment → Packing → Packing
  unfolding add_segment collect_points template_of
  pack_segment templates s p =
      let (points, lengths) = collect_points kinds mode ([], []) (template_of templates s) in
      add_segment points lengths s p

  unfoldable pub pack_segments : List PackedRecord → Packing → List Segment → Packing
  unfolding pack_segment
  pack_segments templates p [] = p
  pack_segments templates p (s ∷ rest) = pack_segments templates (pack_segment templates s p) rest

  -- `_packed_points`
  unfoldable pub packed_points : Storage → PackedRunPoints
  unfolding pack_segments
  packed_points st =
      (pack_segments st.templates
        (record {
          packed = record { template_points = []; template_lengths = []; rows = [] };
          total = 0;
          previous_last = none;
        })
        st.segments).packed
