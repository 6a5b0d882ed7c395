-- ===== src/Chunkers/Choose/Bounds.antt =====
-- `_choose_end` and `_choose_overlap_start` (ingestion/chunkers.py) against their windows.
use Prim.Native.String.{String}
use veloxrag.Prelude.{
  ℕ, ◌+◌, ◌≤◌, ◌<◌, ◌≡◌, ◌≢◌, ◌⊎◌, inl, inr, Bool, true, ◌&&◌, Option, none, some, List, [], ◌∷◌,
  arith, max, Bool-cases, Option-cases,
}
use veloxrag.Chunkers.Grapheme.{UnicodeData}
use veloxrag.Chunkers.Grapheme.Safe.{
  safe_end_bounds, safe_start_lem, align_sentence_boundary_bounds,
}
use veloxrag.Chunkers.Lexical.{last_sentence_end, first_sentence_end, last_newline_point}
use veloxrag.Chunkers.Lexical.Bounds.{
  last_sentence_end_bounds, first_sentence_end_bounds, last_newline_point_bounds,
  first_newline_point_bounds,
}
use veloxrag.Chunkers.Points.{PointSet}
use veloxrag.Chunkers.Index.{BoundaryIndex}
use veloxrag.Chunkers.Choose.{
  Structural, structural_points, same_offset, is_markdown, last_structural, last_structural_below,
  first_structural, choose_sentence_end, choose_newline_end, choose_lexical_end,
  heading_content_start, choose_structural_end, next_heading, choose_end, choose_sentence_start,
  overlap_newline, overlap_points, choose_overlap_start,
}

none≢some : (p : ℕ) → none ≢ some p
none≢some p e = cc

last_structural_bounds :
    (lo hi : ℕ) (s : Structural) (p : ℕ) → last_structural lo hi s ≡ some p → (lo < p) × (p ≤ hi)
unfolding last_structural
last_structural_bounds lo hi [] p e = cc
last_structural_bounds lo hi ((points, _) ∷ rest) p e = elim (Option-cases (points.last lo hi)) [
  | inl q ↦ last_structural_bounds lo hi rest p (rw (q, last_structural) at e)
  | inr (a, q) ↦ points.last_bounds lo hi p (cc (q, rw (q, last_structural) at e))
]

last_structural_below_bounds :
    (md : Bool) (cs pe : Option ℕ) (lo hi : ℕ) (s : Structural) (p : ℕ)
    → last_structural_below md cs pe lo hi s ≡ some p
    → (lo < p) × (p ≤ hi)
unfolding last_structural_below
last_structural_below_bounds md cs pe lo hi [] p e = cc
last_structural_below_bounds md cs pe lo hi ((points, ps) ∷ rest) p e =
    elim (Option-cases (points.last lo hi)) [
      | inl q ↦
          last_structural_below_bounds md cs pe lo hi rest p (rw (q, last_structural_below) at e)
      | inr (a, q) ↦ elim (Bool-cases (same_offset (some a) cs)) [
        | inl t ↦
            last_structural_below_bounds md cs pe lo hi rest p
              (rw (q, t, last_structural_below) at e)
        | inr t ↦ elim (Bool-cases (md && ps && same_offset (some a) pe)) [
          | inl v ↦
              last_structural_below_bounds md cs pe lo hi rest p
                (rw (q, t, v, last_structural_below) at e)
          | inr v ↦ points.last_bounds lo hi p (cc (q, rw (q, t, v, last_structural_below) at e))
        ]
      ]
    ]

first_structural_bounds :
    (lo hi : ℕ) (s : List PointSet) (p : ℕ)
    → first_structural lo hi s ≡ some p
    → (lo ≤ p) × (p < hi)
unfolding first_structural
first_structural_bounds lo hi [] p e = cc
first_structural_bounds lo hi (points ∷ rest) p e = elim (Option-cases (points.first lo hi)) [
  | inl q ↦ first_structural_bounds lo hi rest p (rw (q, first_structural) at e)
  | inr (a, q) ↦ points.first_bounds lo hi p (cc (q, rw (q, first_structural) at e))
]

abbrev pub InWindow : ℕ → ℕ → ℕ → Type 0
InWindow start hard_end e = (start < e) × (e ≤ hard_end)

module _ (u : UnicodeData) (text : List ℕ) (name : String) (index : BoundaryIndex) where
  module _ (start prev min_end hard : ℕ) (open_window : start < hard) (reached : start ≤ prev)
      (fits : min_end ≤ hard) where
    choose_sentence_end_window :
        InWindow start hard (choose_sentence_end u text name index start prev min_end hard).0
    unfolding choose_sentence_end
    choose_sentence_end_window =
        elim (Option-cases (last_sentence_end text start (max prev min_end) hard)) [
          | inr (p, e) ↦
              let (a, b, c) = last_sentence_end_bounds text start (max prev min_end) hard p e in
              rw (e, choose_sentence_end) (align_sentence_boundary_bounds u text start p hard b c)
          | inl e ↦ elim (Option-cases (last_sentence_end text start prev min_end)) [
            | inr (p, f) ↦
                let (a, b, c) = last_sentence_end_bounds text start prev min_end p f in
                rw (e, f, choose_sentence_end)
                  (align_sentence_boundary_bounds u text start p hard b (omega arith))
            | inl f ↦ rw (e, f, choose_sentence_end) (safe_end_bounds u text start hard open_window)
          ]
        ]

    choose_newline_end_window :
        InWindow start hard (choose_newline_end u text name index start prev min_end hard).0
    unfolding choose_newline_end
    choose_newline_end_window =
        elim (Option-cases (last_newline_point text (max prev min_end) hard)) [
          | inr (p, e) ↦
              rw (e, choose_newline_end)
                (omega (arith, last_newline_point_bounds text (max prev min_end) hard p e))
          | inl e ↦ elim (Option-cases (last_newline_point text prev min_end)) [
            | inr (p, f) ↦
                rw (e, f, choose_newline_end)
                  (omega (arith, last_newline_point_bounds text prev min_end p f))
            | inl f ↦ rw (e, f, choose_newline_end) choose_sentence_end_window
          ]
        ]

    choose_lexical_end_window :
        InWindow start hard (choose_lexical_end u text name index start prev min_end hard).0
    unfolding choose_lexical_end
    choose_lexical_end_window = elim (Bool-cases (is_markdown name)) [
      | inl e ↦ rw (e, choose_lexical_end) choose_sentence_end_window
      | inr e ↦ rw (e, choose_lexical_end) choose_newline_end_window
    ]

    choose_structural_end_window :
        InWindow start hard (choose_structural_end u text name index start prev min_end hard).0
    unfolding choose_structural_end
    choose_structural_end_window =
        let md = is_markdown name in
        let points = structural_points md index in
        let content = heading_content_start u text name index start min_end in
        let paragraph = index.paragraph_end_starting_at start in
        elim (Option-cases (last_structural (max prev min_end) hard points)) [
          | inr (p, e) ↦
              rw (e, choose_structural_end)
                (omega (arith, last_structural_bounds (max prev min_end) hard points p e))
          | inl e ↦
              elim (Option-cases (last_structural_below md content paragraph prev min_end points)) [
                | inr (p, f) ↦
                    rw (e, f, choose_structural_end)
                      (omega (
                        arith,
                        last_structural_below_bounds md content paragraph prev min_end points p f,
                      ))
                | inl f ↦ rw (e, f, choose_structural_end) choose_lexical_end_window
              ]
        ]

  next_heading_bounds :
      (start prev hard p : ℕ)
      → next_heading u text name index start prev hard ≡ some p
      → (start < p) × (prev < p) × (p ≤ hard)
  unfolding next_heading
  next_heading_bounds start prev hard p e = elim (Bool-cases (is_markdown name)) [
    | inl m ↦
        omega (arith, index.headings.first_bounds (max start prev + 1) (hard + 1) p (rw m at e))
    | inr m ↦ absurd (none≢some p (rw m at e))
  ]

  -- The end that `_choose_end` selects stands behind the start of the window and inside it.
  pub choose_end_window :
      (start prev min_end hard : ℕ) (final : Bool)
      → start < hard
      → start ≤ prev
      → (final ≡ true) ⊎ (min_end ≤ hard)
      → InWindow start hard (choose_end u text name index start prev min_end hard final).0
  unfolding choose_end
  choose_end_window start prev min_end hard final o r f =
      elim (Option-cases (next_heading u text name index start prev hard)) [
        | inr (p, e) ↦
            let (a, b, c) = next_heading_bounds start prev hard p e in rw (e, choose_end) (a, c)
        | inl e ↦ elim (Bool-cases final) [
          | inl t ↦ rw (e, t, choose_end) (o, omega arith)
          | inr t ↦
              let fits : min_end ≤ hard = elim f [ inl t' ↦ absurd (cc) | inr k ↦ k ] in
              rw (e, t, choose_end) (choose_structural_end_window start prev min_end hard o r fits)
        ]
      ]

  overlap_newline_bounds :
      (lo hi p : ℕ) → overlap_newline u text name index lo hi ≡ some p → (lo ≤ p) × (p < hi)
  unfolding overlap_newline
  overlap_newline_bounds lo hi p e = elim (Bool-cases (is_markdown name)) [
    | inl m ↦ absurd (none≢some p (rw m at e))
    | inr m ↦ first_newline_point_bounds text lo hi p (rw m at e)
  ]

  choose_sentence_start_window :
      (start target end : ℕ)
      → start < target
      → target ≤ end
      → InWindow start end (choose_sentence_start u text name index start target end)
  unfolding choose_sentence_start
  choose_sentence_start_window start target end h k =
      elim (Option-cases (first_sentence_end text start target end)) [
        | inr (p, g) ↦
            let (x, y, z) = first_sentence_end_bounds text start target end p g in
            rw (g, choose_sentence_start)
              (align_sentence_boundary_bounds u text start p end y (omega arith))
        | inl g ↦
            let (x, y, _, _) = safe_start_lem u text start target end k in
            rw (g, choose_sentence_start) (omega arith)
      ]

  -- The start that `_choose_overlap_start` selects stands behind the chunk's start and not behind
  -- its end.
  pub choose_overlap_start_window :
      (chunk_start target end : ℕ)
      → chunk_start < target
      → target ≤ end
      → InWindow chunk_start end (choose_overlap_start u text name index chunk_start target end)
  unfolding choose_overlap_start
  choose_overlap_start_window start target end h k =
      elim (Bool-cases (index.headings.contains end)) [
        | inl c ↦ rw (c, choose_overlap_start) (omega arith)
        | inr c ↦
            elim (Option-cases (first_structural target end (overlap_points u text name index))) [
              | inr (p, e) ↦
                  rw (c, e, choose_overlap_start)
                    (omega (
                      arith,
                      first_structural_bounds target end (overlap_points u text name index) p e,
                    ))
              | inl e ↦ elim (Option-cases (overlap_newline u text name index target end)) [
                | inr (p, f) ↦
                    rw (c, e, f, choose_overlap_start)
                      (omega (arith, overlap_newline_bounds target end p f))
                | inl f ↦
                    rw (c, e, f, choose_overlap_start)
                      (choose_sentence_start_window start target end h k)
              ]
            ]
      ]
