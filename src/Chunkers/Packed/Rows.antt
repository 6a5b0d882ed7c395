-- ===== src/Chunkers/Packed/Rows.antt =====
-- The rows that `_packed_points` (ingestion/chunkers.py) appends.
use veloxrag.Prelude.{
  ℕ, zero, suc, ◌+◌, ◌-◌, ◌*◌, ◌≤◌, ◌<◌, ◌≡◌, refl, ◌∙◌, ap, sym, subst, ◌⊎◌, inl, inr, Bool, true,
  false, ◌&&◌, &&-true, Bool-cases, List, [], ◌∷◌, ◌++◌, ltb, ltb→lt, ◌==◌, ==_iff, if◌then◌else◌,
  length, get_or, length-append, All, arith,
}
use veloxrag.Parsers.Boundary.{BoundaryKind}
use veloxrag.Parsers.Storage.{PackedRecord, Segment, template_of}
use veloxrag.Chunkers.Packed.{PointSegment}
use veloxrag.Chunkers.Packed.Packing.{
  PointMode, collect_points, is_offset, Packing, row_of, add_segment, pack_segment, pack_segments,
}

-- What may be asked of a row besides, of the points and how often its segment is repeated.
abbrev pub RowFact : Type 1
RowFact = List ℕ → ℕ → PointSegment → Type 0

-- A fact that more points leave true.
abbrev pub IsStable : RowFact → Type 0
IsStable Q =
    (points more : List ℕ) (repeat : ℕ) (row : PointSegment)
    → row.template_start + row.template_count ≤ length points
    → Q points repeat row
    → Q (points ++ more) repeat row

-- What holds of a row whose segment is repeated: `base` is the count of the points before it.
pub record IsRow (Q : RowFact) (points : List ℕ) (base : ℕ) (row : PointSegment) : Type 0 where
  pub repeat : ℕ
  pub fact : Q points repeat row
  pub inside : row.template_start + row.template_count ≤ length points
  pub some_points : 1 ≤ row.template_count
  pub grows : base < row.cumulative_count
  pub counted :
      row.cumulative_count
      ≡ base
        + (row.template_count
            - row.initial_skip
            + repeat * (row.template_count - row.repeat_skip)
            - (row.template_count - row.repeat_skip))
  pub small : row.initial_skip ≤ 1
  pub skips :
      (row.repeat_skip ≡ 0)
      ⊎ ((row.repeat_skip ≡ 1) × (2 ≤ repeat) × (row.template_count ≡ 1 → row.cycle_stride ≡ 0))
  pub last :
      row.last_point
      ≡ get_or points (row.template_start + (row.template_count - 1)) 0
        + (repeat - 1) * row.cycle_stride

abbrev pub Rows : RowFact → List ℕ → ℕ → List PointSegment → Type 0
Rows Q points base [] = Unit
Rows Q points base (row ∷ rest) = IsRow Q points base row × Rows Q points row.cumulative_count rest

abbrev pub last_total : ℕ → List PointSegment → ℕ
last_total base [] = base
last_total base (row ∷ rest) = last_total row.cumulative_count rest

pub get_or-more :
    (xs more : List ℕ) (i : ℕ) → i < length xs → get_or (xs ++ more) i 0 ≡ get_or xs i 0
get_or-more [] more i h = absurd (omega arith)
get_or-more (x ∷ xs) more zero h = refl
get_or-more (x ∷ xs) more (suc i) h = get_or-more xs more i (omega arith)

pub get_or-behind : (xs ys : List ℕ) (i : ℕ) → get_or (xs ++ ys) (length xs + i) 0 ≡ get_or ys i 0
get_or-behind [] ys i = ap (λ n. get_or ys n 0) (omega arith)
get_or-behind (x ∷ xs) ys i =
    let next : length (x ∷ xs) + i ≡ suc (length xs + i) = omega arith in
    rw next (get_or-behind xs ys i)

last_total-append :
    (base : ℕ) (rows : List PointSegment) (row : PointSegment)
    → last_total base (rows ++ row ∷ []) ≡ row.cumulative_count
last_total-append base [] row = refl
last_total-append base (x ∷ rest) row = last_total-append x.cumulative_count rest row

-- The rows of the loop, and that `total` is the last cumulative count.
pub record IsPacking (Q : RowFact) (p : Packing) : Type 0 where
  pub rows_ok : Rows Q p.packed.template_points 0 p.packed.rows
  pub total_ok : last_total 0 p.packed.rows ≡ p.total

abbrev one_if : Bool → ℕ
one_if b = if b then 1 else 0

one_if-small : (b : Bool) → one_if b ≤ 1
one_if-small true = omega arith
one_if-small false = omega arith

skip-cases :
    (repeat first last stride count : ℕ) (test : Bool)
    → (ltb 1 repeat && last == first + stride) ≡ test
    → (count ≡ 1 → last ≡ first)
    → (one_if test ≡ 0) ⊎ ((one_if test ≡ 1) × (2 ≤ repeat) × (count ≡ 1 → stride ≡ 0))
skip-cases repeat first last stride count false e only = inl refl
skip-cases repeat first last stride count true e only =
    let (often, met) = &&-true (ltb 1 repeat) (last == first + stride) e in
    let same = (==_iff last (first + stride)).0 met in
    inr (refl, omega (arith, ltb→lt 1 repeat often), λ one. omega (arith, same, only one))

module _ (Q : RowFact) (stable : IsStable Q) where
  IsRow-more :
      (points more : List ℕ) (base : ℕ) (row : PointSegment)
      → IsRow Q points base row
      → IsRow Q (points ++ more) base row
  IsRow-more points more base row h = record {
    repeat = h.repeat;
    fact = stable points more h.repeat row h.inside h.fact;
    inside = omega (arith, length-append points more, h.inside);
    some_points = h.some_points;
    grows = h.grows;
    counted = h.counted;
    small = h.small;
    skips = h.skips;
    last =
        h.last
        ∙ ap (λ n. n + (h.repeat - 1) * row.cycle_stride)
            (sym (get_or-more points more _ (omega (arith, h.inside, h.some_points))));
  }

  Rows-more :
      (points more : List ℕ) (base : ℕ) (rows : List PointSegment)
      → Rows Q points base rows
      → Rows Q (points ++ more) base rows
  Rows-more points more base [] h = tt
  Rows-more points more base (row ∷ rest) h =
      (IsRow-more points more base row h.0, Rows-more points more row.cumulative_count rest h.1)

  Rows-append :
      (points : List ℕ) (base : ℕ) (rows : List PointSegment) (row : PointSegment)
      → Rows Q points base rows
      → IsRow Q points (last_total base rows) row
      → Rows Q points base (rows ++ row ∷ [])
  Rows-append points base [] row h k = (k, tt)
  Rows-append points base (x ∷ rest) row h k =
      (h.0, Rows-append points x.cumulative_count rest row h.1 k)

  row_of-IsRow :
      (x : ℕ) (xs : List ℕ) (s : Segment) (p : Packing)
      → Q (p.packed.template_points ++ x ∷ xs) s.repeat_count (row_of (x ∷ xs) s p)
      → p.total < (row_of (x ∷ xs) s p).cumulative_count
      → IsRow Q (p.packed.template_points ++ x ∷ xs) p.total (row_of (x ∷ xs) s p)
  unfolding row_of
  row_of-IsRow x xs s p fact h =
      let old = p.packed.template_points in
      let points = x ∷ xs in
      record {
        repeat = s.repeat_count;
        fact = fact;
        inside = omega (arith, length-append old points);
        some_points = omega arith;
        grows = h;
        counted = refl;
        small = one_if-small (is_offset p.previous_last x);
        skips =
            skip-cases s.repeat_count x (get_or points (length points - 1) 0) s.stride
              (length points) _ refl
              (λ one.
                let front : length points - 1 ≡ 0 = omega (arith, one) in
                ap (λ n. get_or points n 0) front);
        last =
            ap (λ n. n + (s.repeat_count - 1) * s.stride)
              (sym (get_or-behind old points (length points - 1)));
      }

  add_segment-IsPacking :
      (points lengths : List ℕ) (s : Segment) (p : Packing)
      → ((x : ℕ) (xs : List ℕ)
          → points ≡ x ∷ xs
          → Q (p.packed.template_points ++ x ∷ xs) s.repeat_count (row_of (x ∷ xs) s p))
      → IsPacking Q p
      → IsPacking Q (add_segment points lengths s p)
  unfolding add_segment
  add_segment-IsPacking [] lengths s p made h = h
  add_segment-IsPacking (x ∷ xs) lengths s p made h =
      let old = p.packed.template_points in
      let row = row_of (x ∷ xs) s p in
      elim (Bool-cases (ltb p.total row.cumulative_count)) [
        | inr e ↦ rw e (record {
          rows_ok = Rows-more old (x ∷ xs) 0 p.packed.rows h.rows_ok;
          total_ok = h.total_ok;
        })
        | inl e ↦ rw e (record {
          rows_ok =
              Rows-append (old ++ x ∷ xs) 0 p.packed.rows row
                (Rows-more old (x ∷ xs) 0 p.packed.rows h.rows_ok)
                (subst (λ n. IsRow Q (old ++ x ∷ xs) n row) (sym h.total_ok)
                  (row_of-IsRow x xs s p (made x xs refl) (ltb→lt _ _ e)));
          total_ok = last_total-append 0 p.packed.rows row;
        })
      ]

  pub pack_segments-IsPacking :
      (kinds : BoundaryKind → Bool) (mode : PointMode) (templates : List PackedRecord) (p : Packing)
      (segments : List Segment) (In : Segment → Type 0)
      → ((s : Segment)
          → In s
          → (q : Packing) (x : ℕ) (xs : List ℕ)
          → (collect_points kinds mode ([], []) (template_of templates s)).0 ≡ x ∷ xs
          → Q (q.packed.template_points ++ x ∷ xs) s.repeat_count (row_of (x ∷ xs) s q))
      → All In segments
      → IsPacking Q p
      → IsPacking Q (pack_segments kinds mode templates p segments)
  unfolding pack_segments pack_segment
  pack_segments-IsPacking kinds mode templates p [] In made all h = h
  pack_segments-IsPacking kinds mode templates p (s ∷ rest) In made all h =
      pack_segments-IsPacking kinds mode templates (pack_segment kinds mode templates s p) rest In
        made all.1 (add_segment-IsPacking _ _ s p (made s all.0 p) h)
