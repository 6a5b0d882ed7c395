-- ===== src/Chunkers/Packed/Offsets.antt =====
-- The points that the searches of `_PackedRunPoints` read, against the boundaries that
-- `_packed_points` packed them from (ingestion/chunkers.py).
use native.Mathlib.Nat.{div-lt_iff_lt-mul, mod-lt}
use veloxrag.Prelude.{
  ℕ, zero, suc, ◌+◌, ◌-◌, ◌*◌, ◌/◌, ◌%◌, ◌≤◌, ◌<◌, ◌≡◌, refl, ◌∙◌, ap, sym, subst, inl, inr, Bool,
  Bool-cases, ltb, ltb→lt, ltb_false→le, some, length, get_elem?, get_or, All, ok, arith,
}
use veloxrag.Parsers.Boundary.{BoundaryKind}
use veloxrag.Parsers.Storage.{PackedRecord, Segment, Storage, stored_records, template_of, shift}
use veloxrag.Parsers.Storage.Laws.{Counted}
use veloxrag.Parsers.Storage.Access.{get_elem?-cycles, expand_at, before}
use veloxrag.Parsers.Builder.Access.{All-get}
use veloxrag.Parsers.Artifact.{validate_for_text_length}
use veloxrag.Parsers.Lookup.Laws.{IsChecked, validate-IsChecked}
use veloxrag.Parsers.Lookup.Paths.{All-within}
use veloxrag.Chunkers.Packed.{
  PackedRunPoints, row, count_before, point_position, point_in_segment, segment_point_count,
}
use veloxrag.Chunkers.Packed.Search.{IsPoint}
use veloxrag.Chunkers.Packed.Packing.{PointMode, starts, ends, both, packed_points}
use veloxrag.Chunkers.Packed.Rows.{IsRow}
use veloxrag.Chunkers.Packed.Ends.{IsRow-at, count-before_row}
use veloxrag.Chunkers.Packed.Sources.{IsEnd, IsOffset, IsFrom, packed_points-Rows}

later_cycles :
    (n first later repeat : ℕ)
    → first ≤ n
    → n < first + repeat * later - later
    → (1 ≤ later) × (n - first < (repeat - 1) * later)
later_cycles n first zero repeat h k = absurd (omega arith)
later_cycles n first (suc l) zero h k = absurd (omega arith)
later_cycles n first (suc l) (suc m) h k = (
  omega arith,
  (let product : suc m * suc l ≡ m * suc l + suc l = omega arith in
      let pred : suc m - 1 ≡ m = omega arith in rw pred (omega (arith, product))),
)

-- A point read from a segment is one of its template, in one of its cycles.
record IsRead (r : PackedRunPoints) (s n repeat : ℕ) : Type 0 where
  cycle : ℕ
  position : ℕ
  in_cycles : cycle < repeat
  in_template : position < (row r s).template_count
  read :
      point_in_segment r s n
      ≡ get_or r.template_points ((row r s).template_start + position) 0
        + cycle * (row r s).cycle_stride

module _ (r : PackedRunPoints) where
  IsRead-point :
      (s n repeat : ℕ)
      → 1 ≤ repeat
      → n
        < (row r s).template_count
          - (row r s).initial_skip
          + repeat * ((row r s).template_count - (row r s).repeat_skip)
          - ((row r s).template_count - (row r s).repeat_skip)
      → IsRead r s n repeat
  unfolding point_in_segment point_position
  IsRead-point s n repeat some_cycles h =
      let x = row r s in
      let first = x.template_count - x.initial_skip in
      let later = x.template_count - x.repeat_skip in
      elim (Bool-cases (ltb n first)) [
        | inl e ↦ record {
          cycle = 0;
          position = x.initial_skip + n;
          in_cycles = some_cycles;
          in_template = omega (arith, ltb→lt n first e);
          read = rw e refl;
        }
        | inr e ↦
            let (positive, below) = later_cycles n first later repeat (ltb_false→le n first e) h in
            let rounds = (div-lt_iff_lt-mul positive).1 below in
            record {
              cycle = (n - first) / later + 1;
              position = x.repeat_skip + (n - first) % later;
              in_cycles = omega (arith, rounds);
              in_template = omega (arith, mod-lt (n - first) positive);
              read = rw e refl;
            }
      ]

IsEnd-shift :
    (mode : PointMode) (r : PackedRecord) (p offset : ℕ)
    → IsEnd mode r p
    → IsEnd mode (shift offset r) (p + offset)
unfolding shift
IsEnd-shift starts r p offset h = omega (arith, h)
IsEnd-shift ends r p offset h = omega (arith, h)
IsEnd-shift both r p offset (inl h) = inl (omega (arith, h))
IsEnd-shift both r p offset (inr h) = inr (omega (arith, h))

module _ (kinds : BoundaryKind → Bool) (mode : PointMode) (st : Storage) where
  abbrev packed : PackedRunPoints
  packed = packed_points kinds mode st

  -- An offset of a template, moved to one of its cycles.
  moved :
      (i cycle : ℕ) (s : Segment) (p : ℕ)
      → All (IsChecked st.templates) st.segments
      → Counted 0 st.segments
      → get_elem? st.segments i ≡ some s
      → cycle < s.repeat_count
      → IsOffset kinds mode (template_of st.templates s) p
      → IsOffset kinds mode (stored_records st) (p + cycle * s.stride)
  unfolding stored_records
  moved i cycle s p checked counted e h o = record {
    position =
        before 0 st.segments i - 0 + (cycle * length (template_of st.templates s) + o.position);
    source = shift (cycle * s.stride) o.source;
    listed =
        expand_at st.templates 0 st.segments i _ s _ (All-within st.templates st.segments checked)
          counted e
          (get_elem?-cycles (template_of st.templates s) s.stride s.repeat_count cycle o.position
            o.source o.listed h);
    kind = unfold shift in o.kind;
    at = IsEnd-shift mode o.source p (cycle * s.stride) o.at;
  }

  row_at :
      (s : ℕ)
      → s < length packed.rows
      → IsRow (IsFrom kinds mode st) packed.template_points (count_before packed s) (row packed s)
  row_at s h =
      subst (λ n. IsRow (IsFrom kinds mode st) packed.template_points n (row packed s))
        (count-before_row packed s)
        (IsRow-at (IsFrom kinds mode st) packed.template_points 0 packed.rows s
          (packed_points-Rows kinds mode st) h)

  -- Where the packed columns of a parsed artifact fit its text, each point packed from them is an
  -- offset of a boundary: of a record that the iteration over the columns goes through, of one of
  -- the kinds asked for, it is the start, the end or one of the two, as the mode asks.
  pub packed_points-IsOffset :
      (n : ℕ)
      → validate_for_text_length n st ≡ ok tt
      → (p : ℕ) → IsPoint packed p
      → IsOffset kinds mode (stored_records st) p
  packed_points-IsOffset n valid p h =
      let (checked, counted) = validate-IsChecked n st valid in
      let found = row_at h.segment h.in_segments in
      let source = found.fact in
      let c =
        All-get (IsChecked st.templates) st.segments source.segment source.s checked
          source.listed in
      let inside : h.index
          < (row packed h.segment).cumulative_count - count_before packed h.segment =
        unfold segment_point_count in h.in_segment in
      let r =
        IsRead-point packed h.segment h.index found.repeat
          (omega (arith, source.repeats, c.some_cycles)) (omega (arith, inside, found.counted)) in
      subst (IsOffset kinds mode (stored_records st))
        (ap
            (λ d.
              get_or packed.template_points ((row packed h.segment).template_start + r.position) 0
              + r.cycle * d)
            (sym source.stride)
          ∙ sym r.read
          ∙ h.at)
        (moved source.segment r.cycle source.s _ checked counted source.listed
          (omega (arith, source.repeats, r.in_cycles)) (source.offsets r.position r.in_template))
