-- ===== src/Chunkers/Packed/Search.antt =====
-- The searches of `_PackedRunPoints` (ingestion/chunkers.py) against the points of the set.
use veloxrag.Prelude.{
  ℕ, zero, suc, ◌-◌, ◌≤◌, ◌<◌, ◌≡◌, ◌≢◌, subst, inl, inr, true, Option, none, some, ltb, leb,
  Bool-cases, ltb→lt, ltb_false→le, leb→le, leb_false→lt, if-eq-some, arith,
}
use veloxrag.Chunkers.Points.{PointSet}
use veloxrag.Chunkers.Points.Search.{IsCut, bisect-IsCut}
use veloxrag.Chunkers.Packed.{
  PackedRunPoints, segments, row, point_in_segment, segment_point_count, segment_reaching,
  local_reaching, packed_first, packed_last, last_before, last_in_segment, packed_contains,
}

-- What the packing keeps: no segment is empty, and `last_points` has the last point of each.
pub record IsPacked (r : PackedRunPoints) : Type 0 where
  pub filled : (s : ℕ) → s < segments r → 1 ≤ segment_point_count r s
  pub ends :
      (s : ℕ)
      → s < segments r
      → (row r s).last_point ≡ point_in_segment r s (segment_point_count r s - 1)

-- `p` is a point of a segment.
pub record IsPoint (r : PackedRunPoints) (p : ℕ) : Type 0 where
  pub segment : ℕ
  pub index : ℕ
  pub in_segments : segment < segments r
  pub in_segment : index < segment_point_count r segment
  pub at : point_in_segment r segment index ≡ p

none≢located : (p : ℕ × ℕ) → ◌≢◌ {A = Option (ℕ × ℕ)} none (some p)
none≢located p h = cc

none≢point : (p : ℕ) → ◌≢◌ {A = Option ℕ} none (some p)
none≢point p h = cc

lt_of_le-ne : {a b : ℕ} → a ≤ b → a ≢ b → a < b
lt_of_le-ne {a} {b} h k = elim (Bool-cases (ltb a b)) [
  | inl e ↦ ltb→lt a b e
  | inr e ↦ absurd (k (omega (arith, ltb_false→le a b e)))
]

module _ (r : PackedRunPoints) where
  segment-IsCut :
      (lo : ℕ) → IsCut (λ m. ltb ((row r m).last_point) lo) 0 (segments r) (segment_reaching r lo)
  segment-IsCut lo = bisect-IsCut _ (segments r) 0 (segments r) (omega arith) (omega arith)

  local-IsCut :
      (s lo : ℕ)
      → IsCut
          (λ m. ltb (point_in_segment r s m) lo)
          0
          (segment_point_count r s)
          (local_reaching r s lo)
  local-IsCut s lo =
      bisect-IsCut _ (segment_point_count r s) 0 (segment_point_count r s) (omega arith)
        (omega arith)

  module _ (packed : IsPacked r) where
    reached_segment :
        (lo : ℕ)
        → segment_reaching r lo < segments r
        → lo ≤ (row r (segment_reaching r lo)).last_point
    reached_segment lo inside = elim (segment-IsCut lo).fails [
      | inl e ↦ absurd (omega arith)
      | inr e ↦ ltb_false→le _ lo e
    ]

    not_full :
        (s lo : ℕ)
        → s < segments r
        → lo ≤ (row r s).last_point
        → local_reaching r s lo ≢ segment_point_count r s
    not_full s lo inside above full = elim (local-IsCut s lo).holds [
      | inl e ↦ omega (arith, packed.filled s inside)
      | inr (i, e, under) ↦
          let last : i ≡ segment_point_count r s - 1 = omega arith in
          let below = ltb→lt _ lo (rw last at under) in omega (arith, packed.ends s inside)
    ]

    reached_point :
        (s lo : ℕ)
        → s < segments r
        → lo ≤ (row r s).last_point
        → (local_reaching r s lo < segment_point_count r s)
          × (lo ≤ point_in_segment r s (local_reaching r s lo))
    reached_point s lo inside above = elim (local-IsCut s lo).fails [
      | inl e ↦ absurd (not_full s lo inside above e)
      | inr e ↦
          (lt_of_le-ne (local-IsCut s lo).below (not_full s lo inside above), ltb_false→le _ lo e)
    ]

    -- If no segment is empty and `last_points` has the last point of each, `first` answers by a
    -- point of the set that is in `[lo, hi)`.
    pub packed_first-IsPoint :
        (lo hi p : ℕ) → packed_first r lo hi ≡ some p → IsPoint r p × (lo ≤ p) × (p < hi)
    unfolding packed_first
    packed_first-IsPoint lo hi p h =
        let s = segment_reaching r lo in
        elim (Bool-cases (leb (segments r) s)) [
          | inl e ↦ absurd (none≢point p (rw (e, packed_first) at h))
          | inr e ↦
              let inside = leb_false→lt _ s e in
              let (under, same) = if-eq-some _ _ p (rw (e, packed_first) at h) in
              let (low, above) = reached_point s lo inside (reached_segment lo inside) in
              (
                record {
                  segment = s;
                  index = local_reaching r s lo;
                  in_segments = inside;
                  in_segment = low;
                  at = same;
                },
                subst (λ q. lo ≤ q) same above,
                subst (λ q. q < hi) same (ltb→lt _ hi under),
              )
        ]

  last_in_segment_found :
      (s lo hi count p : ℕ)
      → s < segments r
      → IsCut (λ m. leb (point_in_segment r s m) hi) 0 (segment_point_count r s) count
      → last_in_segment r s lo count ≡ some p
      → IsPoint r p × (lo < p) × (p ≤ hi)
  last_in_segment_found s lo hi zero p inside cut h = absurd (none≢point p h)
  last_in_segment_found s lo hi (suc i) p inside cut h =
      let (above, same) = if-eq-some _ (point_in_segment r s i) p h in
      let under : leb (point_in_segment r s i) hi ≡ true = elim cut.holds [
        | inl e ↦ absurd (omega arith)
        | inr (k, e, t) ↦ let same_index : k ≡ i = omega arith in rw same_index at t
      ] in
      (
        record {
          segment = s;
          index = i;
          in_segments = inside;
          in_segment = omega (arith, cut.below);
          at = same;
        },
        subst (λ q. lo < q) same (ltb→lt lo _ above),
        subst (λ q. q ≤ hi) same (leb→le _ hi under),
      )

  last_before_found :
      (lo hi position p : ℕ)
      → position ≤ segments r
      → last_before r lo hi position ≡ some p
      → IsPoint r p × (lo < p) × (p ≤ hi)
  last_before_found lo hi zero p inside h = absurd (none≢point p h)
  last_before_found lo hi (suc s) p inside h =
      last_in_segment_found s lo hi _ p (omega arith)
        (bisect-IsCut (λ m. leb (point_in_segment r s m) hi) (segment_point_count r s) 0
          (segment_point_count r s) (omega arith) (omega arith))
        h

  -- `last` answers by a point of the set that is in `(lo, hi]`.
  pub packed_last-IsPoint :
      (lo hi p : ℕ) → packed_last r lo hi ≡ some p → IsPoint r p × (lo < p) × (p ≤ hi)
  unfolding packed_last
  packed_last-IsPoint lo hi p h =
      last_before_found lo hi _ p
        (bisect-IsCut (λ m. leb ((row r m).first_point) hi) (segments r) 0 (segments r)
          (omega arith) (omega arith)).below
        h

-- A packed set is a collection of points as the chunker asks for one.
pub point_set : (r : PackedRunPoints) → IsPacked r → PointSet
point_set r packed = record {
  first = packed_first r;
  last = packed_last r;
  contains = packed_contains r;
  first_bounds =
      λ lo hi p h. let (_, low, high) = packed_first-IsPoint r packed lo hi p h in (low, high);
  last_bounds = λ lo hi p h. let (_, low, high) = packed_last-IsPoint r lo hi p h in (low, high);
}
