-- ===== src/Chunkers/Packed/Sources.antt =====
-- Where the points that `_packed_points` (ingestion/chunkers.py) packs come from.

use veloxrag.Prelude.{
  ℕ, zero, suc, ◌+◌, ◌≤◌, ◌<◌, ◌≡◌, refl, sym, subst, ◌⊎◌, inl, inr, Bool, Bool-cases, true, false,
  some, List, [], ◌∷◌, ◌++◌, length, get_elem?, get_or, if◌then◌else◌, All, arith,
}
use veloxrag.Parsers.Boundary.{BoundaryKind, kind_of_code}
use veloxrag.Parsers.Storage.{PackedRecord, Segment, Storage, template_of}
use veloxrag.Chunkers.Points.{ends_with, append_distinct}
use veloxrag.Chunkers.Packed.{PointSegment, row}
use veloxrag.Chunkers.Packed.Packing.{
  PointMode, starts, ends, both, add_start, add_end, collect_points, Packing, row_of, packed_points,
}
use veloxrag.Chunkers.Packed.Rows.{Rows, get_or-more, get_or-behind, pack_segments-IsPacking}

-- The offset of a record that a mode asks for.
abbrev pub IsEnd : PointMode → PackedRecord → ℕ → Type 0
IsEnd starts r p = p ≡ r.start
IsEnd ends r p = p ≡ r.start + r.size
IsEnd both r p = (p ≡ r.start) ⊎ (p ≡ r.start + r.size)

module _ (kinds : BoundaryKind → Bool) (mode : PointMode) where
  -- An offset of a record of a list, of one of the kinds.
  pub record IsOffset (records : List PackedRecord) (p : ℕ) : Type 0 where
    pub position : ℕ
    pub source : PackedRecord
    pub listed : get_elem? records position ≡ some source
    pub kind : kinds (kind_of_code source.code) ≡ true
    pub at : IsEnd mode source p

  append_distinct-All :
      (P : ℕ → Type 0) (points : List ℕ) (p : ℕ)
      → All P points
      → P p
      → All P (append_distinct points p)
  unfolding append_distinct
  append_distinct-All P points p h k = elim (Bool-cases (ends_with points p)) [
    | inl e ↦ rw e h
    | inr e ↦ rw e (append_one points h)
  ]
    where
      append_one : (xs : List ℕ) → All P xs → All P (xs ++ p ∷ [])
      append_one [] a = (k, tt)
      append_one (x ∷ xs) a = (a.0, append_one xs a.1)

  -- The offsets of one record that are added.
  added-All :
      (P : ℕ → Type 0) (m : PointMode) (r : PackedRecord) (collected : List ℕ × List ℕ)
      → ((p : ℕ) → IsEnd m r p → P p)
      → All P collected.0
      → All P (add_end m r (add_start m r collected)).0
  unfolding add_start add_end append_distinct
  added-All P starts r collected f h = elim (Bool-cases (ends_with collected.0 r.start)) [
    | inl e ↦ rw e h
    | inr e ↦
        let more = append_distinct-All P collected.0 r.start h (f r.start refl) in
        rw e (rw e at more)
  ]
  added-All P ends r collected f h = append_distinct-All P collected.0 _ h (f _ refl)
  added-All P both r collected f h =
      append_distinct-All P _ _ (append_distinct-All P collected.0 _ h (f _ (inl refl)))
        (f _ (inr refl))

  chosen-All :
      (P : ℕ → Type 0) (r : PackedRecord) (b : Bool) (collected : List ℕ × List ℕ)
      → (b ≡ true → (p : ℕ) → IsEnd mode r p → P p)
      → All P collected.0
      → All P (if b then add_end mode r (add_start mode r collected) else collected).0
  chosen-All P r true collected f h = added-All P mode r collected (f refl) h
  chosen-All P r false collected f h = h

  collect_points-All :
      (P : ℕ → Type 0) (records : List PackedRecord) (collected : List ℕ × List ℕ)
      → ((position : ℕ) (r : PackedRecord)
          → get_elem? records position ≡ some r
          → kinds (kind_of_code r.code) ≡ true
          → (p : ℕ) → IsEnd mode r p
          → P p)
      → All P collected.0
      → All P (collect_points kinds mode collected records).0
  unfolding collect_points
  collect_points-All P [] collected f h = h
  collect_points-All P (r ∷ rest) collected f h =
      collect_points-All P rest _ (λ i. f (suc i))
        (chosen-All P r (kinds (kind_of_code r.code)) collected (λ e. f zero r refl e) h)

  collected-IsOffset :
      (records : List PackedRecord)
      → All (IsOffset records) (collect_points kinds mode ([], []) records).0
  collected-IsOffset records =
      collect_points-All (IsOffset records) records ([], [])
        (λ i r e k p a. record { position = i; source = r; listed = e; kind = k; at = a }) tt

  All-get_or : (P : ℕ → Type 0) (xs : List ℕ) (i : ℕ) → i < length xs → All P xs → P (get_or xs i 0)
  All-get_or P [] i h k = absurd (omega arith)
  All-get_or P (x ∷ xs) zero h k = k.0
  All-get_or P (x ∷ xs) (suc i) h k = All-get_or P xs i (omega arith) k.1

  module _ (st : Storage) where
    -- The points of a row are offsets of the template of a segment.
    pub record IsFrom (points : List ℕ) (repeat : ℕ) (row : PointSegment) : Type 0 where
      pub segment : ℕ
      pub s : Segment
      pub listed : get_elem? st.segments segment ≡ some s
      pub repeats : repeat ≡ s.repeat_count
      pub stride : row.cycle_stride ≡ s.stride
      pub offsets :
          (j : ℕ)
          → j < row.template_count
          → IsOffset (template_of st.templates s) (get_or points (row.template_start + j) 0)

    IsFrom-more :
        (points more : List ℕ) (repeat : ℕ) (row : PointSegment)
        → row.template_start + row.template_count ≤ length points
        → IsFrom points repeat row
        → IsFrom (points ++ more) repeat row
    IsFrom-more points more repeat row inside h = record {
      segment = h.segment;
      s = h.s;
      listed = h.listed;
      repeats = h.repeats;
      stride = h.stride;
      offsets = λ j k.
          subst (IsOffset (template_of st.templates h.s))
            (sym (get_or-more points more (row.template_start + j) (omega arith))) (h.offsets j k);
    }

    row_of-IsFrom :
        (s : Segment)
        → ((i : ℕ) × (get_elem? st.segments i ≡ some s))
        → (p : Packing) (x : ℕ) (xs : List ℕ)
        → (collect_points kinds mode ([], []) (template_of st.templates s)).0 ≡ x ∷ xs
        → IsFrom (p.packed.template_points ++ x ∷ xs) s.repeat_count (row_of (x ∷ xs) s p)
    unfolding row_of
    row_of-IsFrom s (i, listed) p x xs e =
        let template = template_of st.templates s in
        let all : All (IsOffset template) (x ∷ xs) =
          subst (All (IsOffset template)) e (collected-IsOffset template) in
        record {
          segment = i;
          s = s;
          listed = listed;
          repeats = refl;
          stride = refl;
          offsets = λ j k.
              subst (IsOffset template) (sym (get_or-behind p.packed.template_points (x ∷ xs) j))
                (All-get_or (IsOffset template) (x ∷ xs) j k all);
        }

    abbrev IsListed : Segment → Type 0
    IsListed s = (i : ℕ) × (get_elem? st.segments i ≡ some s)

    pub packed_points-Rows :
        Rows IsFrom
          (packed_points kinds mode st).template_points
          0
          (packed_points kinds mode st).rows
    unfolding packed_points
    packed_points-Rows =
        (pack_segments-IsPacking IsFrom IsFrom-more kinds mode st.templates _ st.segments IsListed
          row_of-IsFrom (all_listed st.segments (λ s i e. (i, e)))
          (record { rows_ok = tt; total_ok = refl })).rows_ok
      where
        all_listed :
            (xs : List Segment)
            → ((s : Segment) (i : ℕ) → get_elem? xs i ≡ some s → IsListed s)
            → All IsListed xs
        all_listed [] f = tt
        all_listed (x ∷ xs) f = (f x zero refl, all_listed xs (λ s i. f s (suc i)))
