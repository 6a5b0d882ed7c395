-- ===== src/Chunkers/Packed/Ends.antt =====
-- The last point of each segment of `_PackedRunPoints` (ingestion/chunkers.py), as it is packed.
use native.Mathlib.Nat.{div-eq_of_lt, mod-eq_of_lt, mul-add-div_right, mul-add-mod_self_right}
use veloxrag.Prelude.{
  ℕ, zero, suc, ◌+◌, ◌-◌, ◌*◌, ◌/◌, ◌%◌, ◌≤◌, ◌<◌, ◌≡◌, refl, ◌∙◌, ap, sym, subst, ◌⊎◌, inl, inr,
  lt→ltb, le→ltb_false, Bool, List, [], ◌∷◌, length, get_or, All, arith,
}
use veloxrag.Parsers.Boundary.{BoundaryKind}
use veloxrag.Parsers.Storage.{Segment, Storage}
use veloxrag.Chunkers.Packed.{
  PointSegment, PackedRunPoints, row, no_row, count_before, point_position, point_in_segment,
  segment_point_count,
}
use veloxrag.Chunkers.Packed.Search.{IsPacked}
use veloxrag.Chunkers.Packed.Packing.{PointMode, packed_points}
use veloxrag.Chunkers.Packed.Rows.{IsRow, Rows, RowFact, pack_segments-IsPacking}

-- The arithmetic of the last index of a segment: `first` points in the first cycle and `later` in
-- each other one.
last_cycle :
    (m later : ℕ)
    → 1 ≤ later
    → ((m * later + (later - 1)) / later ≡ m) × ((m * later + (later - 1)) % later ≡ later - 1)
last_cycle m later h = (
  mul-add-div_right h m (later - 1) ∙ ap (λ n. m + n) (div-eq_of_lt (omega arith)) ∙ omega arith,
  mul-add-mod_self_right m later (later - 1) ∙ mod-eq_of_lt (omega arith),
)

twice : (m later : ℕ) → suc (suc m) * later ≡ m * later + later + later
twice m later = omega arith

at_least_one : (n : ℕ) → (1 ≤ n) ⊎ (n ≡ 0)
at_least_one zero = inr refl
at_least_one (suc n) = inl (omega arith)

module _ (r : PackedRunPoints) where
  -- A segment whose last point stands in its first cycle.
  first_cycle :
      (s n : ℕ)
      → n < (row r s).template_count - (row r s).initial_skip
      → (row r s).initial_skip + n ≡ (row r s).template_count - 1
      → point_in_segment r s n
        ≡ get_or r.template_points ((row r s).template_start + ((row r s).template_count - 1)) 0
  unfolding point_in_segment point_position
  first_cycle s n h e =
      rw (lt→ltb n ((row r s).template_count - (row r s).initial_skip) h, e) (omega arith)

  later_cycle :
      (s m : ℕ)
      → 1 ≤ (row r s).template_count - (row r s).repeat_skip
      → point_in_segment r s (
          (row r s).template_count
          - (row r s).initial_skip
          + (m * ((row r s).template_count - (row r s).repeat_skip)
              + ((row r s).template_count - (row r s).repeat_skip - 1)))
        ≡ get_or r.template_points ((row r s).template_start + ((row r s).template_count - 1)) 0
          + suc m * (row r s).cycle_stride
  unfolding point_in_segment point_position
  later_cycle s m h =
      let x = row r s in
      let first = x.template_count - x.initial_skip in
      let later = x.template_count - x.repeat_skip in
      let index = m * later + (later - 1) in
      let rest : first + index - first ≡ index = omega arith in
      let position : x.repeat_skip + (later - 1) ≡ x.template_count - 1 = omega arith in
      let cycle : m + 1 ≡ suc m = omega arith in
      rw
        (
          le→ltb_false (first + index) first (omega arith),
          rest,
          (last_cycle m later h).0,
          (last_cycle m later h).1,
          position,
          cycle,
        )
        refl

  -- What the last index of a segment reads, by how often the segment is repeated.
  last_index :
      (s k : ℕ)
      → 1 ≤ (row r s).template_count
      → (row r s).initial_skip ≤ 1
      → (((row r s).repeat_skip ≡ 0)
          ⊎ (((row r s).repeat_skip ≡ 1)
              × (2 ≤ k)
              × ((row r s).template_count ≡ 1 → (row r s).cycle_stride ≡ 0)))
      → 1 ≤ segment_point_count r s
      → segment_point_count r s
        ≡ (row r s).template_count
          - (row r s).initial_skip
          + k * ((row r s).template_count - (row r s).repeat_skip)
          - ((row r s).template_count - (row r s).repeat_skip)
      → point_in_segment r s (segment_point_count r s - 1)
        ≡ get_or r.template_points ((row r s).template_start + ((row r s).template_count - 1)) 0
          + (k - 1) * (row r s).cycle_stride
  last_index s zero a b (inl none_skipped) c d = absurd (omega (arith, none_skipped))
  last_index s zero a b (inr (one, often, flat)) c d = absurd (omega arith)
  last_index s (suc zero) a b e c d =
      first_cycle s (segment_point_count r s - 1) (omega arith) (omega arith) ∙ omega arith
  last_index s (suc (suc m)) a b e c d =
      let x = row r s in
      let later = x.template_count - x.repeat_skip in
      elim (at_least_one later) [
        | inl more ↦
            let index : segment_point_count r s - 1
                ≡ x.template_count - x.initial_skip + (m * later + (later - 1)) =
              omega (arith, d, twice m later) in
            let pred : suc (suc m) - 1 ≡ suc m = omega arith in
            rw pred (ap (point_in_segment r s) index ∙ later_cycle s m more)
        | inr empty ↦ elim e [
          | inl none_skipped ↦ absurd (omega (arith, none_skipped))
          | inr (one, often, flat) ↦
              let stride = flat (omega (arith, one)) in
              let products = ap (λ n. suc (suc m) * n) empty in
              let cycles = ap (λ n. (suc (suc m) - 1) * n) stride in
              first_cycle s (segment_point_count r s - 1) (omega (arith, products, d, empty))
                (omega (arith, products, d, empty))
              ∙ omega (arith, cycles)
        ]
      ]

  row_end :
      (Q : RowFact) (s : ℕ)
      → IsRow Q r.template_points (count_before r s) (row r s)
      → (1 ≤ segment_point_count r s)
        × ((row r s).last_point ≡ point_in_segment r s (segment_point_count r s - 1))
  row_end Q s h =
      let counted : segment_point_count r s ≡ (row r s).cumulative_count - count_before r s =
        unfold segment_point_count in refl in
      let filled : 1 ≤ segment_point_count r s = omega (arith, counted, h.grows) in
      (
        filled,
        h.last
            ∙ sym (
                last_index s h.repeat h.some_points h.small h.skips filled
                  (omega (arith, counted, h.counted))),
      )

unfoldable pub before_row : ℕ → List PointSegment → ℕ → ℕ
before_row base rows zero = base
before_row base rows (suc s) = (get_or rows s no_row).cumulative_count

pub IsRow-at :
    (Q : RowFact) (points : List ℕ) (base : ℕ) (rows : List PointSegment) (s : ℕ)
    → Rows Q points base rows
    → s < length rows
    → IsRow Q points (before_row base rows s) (get_or rows s no_row)
unfolding before_row
IsRow-at Q points base [] s h k = absurd (omega arith)
IsRow-at Q points base (x ∷ rest) zero h k = h.0
IsRow-at Q points base (x ∷ rest) (suc zero) h k =
    IsRow-at Q points x.cumulative_count rest zero h.1 (omega arith)
IsRow-at Q points base (x ∷ rest) (suc (suc s)) h k =
    IsRow-at Q points x.cumulative_count rest (suc s) h.1 (omega arith)

pub count-before_row : (r : PackedRunPoints) (s : ℕ) → before_row 0 r.rows s ≡ count_before r s
unfolding before_row
count-before_row r zero = refl
count-before_row r (suc s) = refl

Rows-IsPacked : (Q : RowFact) (r : PackedRunPoints) → Rows Q r.template_points 0 r.rows → IsPacked r
Rows-IsPacked Q r h =
    let found : (s : ℕ)
        → s < length r.rows
        → IsRow Q r.template_points (count_before r s) (row r s) =
      λ s k.
        subst (λ n. IsRow Q r.template_points n (row r s)) (count-before_row r s)
          (IsRow-at Q r.template_points 0 r.rows s h k) in
    record {
      filled = λ s k. (row_end r Q s (found s k)).0;
      ends = λ s k. (row_end r Q s (found s k)).1;
    }

abbrev no_fact : RowFact
no_fact points repeat row = Unit

abbrev Anything : Segment → Type 0
Anything s = Unit

All-unit : (segments : List Segment) → All Anything segments
All-unit [] = tt
All-unit (s ∷ rest) = (tt, All-unit rest)

-- Whatever is packed, no segment is empty and each has its last point.
pub packed_points-IsPacked :
    (kinds : BoundaryKind → Bool) (mode : PointMode) (st : Storage)
    → IsPacked (packed_points kinds mode st)
unfolding packed_points
packed_points-IsPacked kinds mode st =
    Rows-IsPacked no_fact _
      (pack_segments-IsPacking no_fact (λ points more repeat row h q. tt) kinds mode st.templates _
        st.segments Anything (λ s i q x xs e. tt) (All-unit st.segments)
        (record { rows_ok = tt; total_ok = refl })).rows_ok
