-- ===== src/Chunkers/Lexical/Bounds.antt =====
-- The lexical searches of ingestion/chunkers.py against the ranges that they are asked for.
use veloxrag.Prelude.{
  ℕ, zero, suc, ◌+◌, ◌-◌, ◌≤◌, ◌<◌, ◌≡◌, refl, inl, inr, Option, none, some, List, [], ◌∷◌, arith,
  ltb, leb, if◌then◌else◌, length, slice, length-take, drop_while, All, All-map,
  count-add-drop_while, Bool-cases, ltb→lt, eq_of_some, leb→le, &&-true, ◌&&◌, drop,
}
use veloxrag.Chunkers.Lexical.{
  is_stop, is_closer, is_blank, match_length, sentence_ends, find_sentence_ends, select_last,
  last_sentence_end, select_first, first_sentence_end, is_newline_at, rfind_newline, find_newline,
  last_newline_point, first_newline_point, newline_length, behind,
}

newline_length-le : (xs : List ℕ) → newline_length xs ≤ length xs
newline_length-le [] = omega arith
newline_length-le (c ∷ xs) = ground arith

-- A match ends inside the text.
match_length-le-length : (xs : List ℕ) → match_length xs ≤ length xs
unfolding match_length
match_length-le-length xs =
    let a = drop_while is_stop xs in
    let b = drop_while is_closer a in
    let c = drop_while is_blank b in
    ground (
      arith,
      count-add-drop_while is_stop xs,
      count-add-drop_while is_closer a,
      count-add-drop_while is_blank b,
      newline_length-le c,
    )

sentence_ends_bounds :
    (position inside : ℕ) (xs : List ℕ)
    → All (λ e. (position < e) × (e ≤ position + length xs)) (sentence_ends position inside xs)
unfolding sentence_ends
sentence_ends_bounds position inside [] = ground arith
sentence_ends_bounds position (suc inside) (_ ∷ rest) =
    All-map _ (λ e h. omega (arith, h)) (sentence_ends_bounds (suc position) inside rest)
sentence_ends_bounds position zero (c ∷ rest) =
    go (match_length (c ∷ rest)) (match_length-le-length (c ∷ rest))
      (λ n. sentence_ends_bounds (suc position) n rest)
  where
    ends : ℕ → List ℕ
    ends zero = sentence_ends (suc position) zero rest
    ends (suc n) = (position + suc n) ∷ sentence_ends (suc position) n rest

    go :
        (m : ℕ)
        → m ≤ suc (length rest)
        → ((n : ℕ)
            → All
                (λ e. (suc position < e) × (e ≤ suc position + length rest))
                (sentence_ends (suc position) n rest))
        → All (λ e. (position < e) × (e ≤ position + suc (length rest))) (ends m)
    go zero h ih = All-map _ (λ e k. omega (arith, k)) (ih 0)
    go (suc n) h ih = ((omega arith, omega arith), All-map _ (λ e k. omega (arith, k)) (ih n))

find_sentence_ends_bounds :
    (text : List ℕ) (start endpos : ℕ)
    → All (λ e. (start < e) × (e ≤ endpos)) (find_sentence_ends text start endpos)
unfolding find_sentence_ends
find_sentence_ends_bounds text start endpos =
    let size = length-take (endpos - start) (drop start text) in
    All-map _ (λ e h. omega (arith, h, size))
      (sentence_ends_bounds start 0 (slice text start endpos))

module _ (P : ℕ → Type 0) where
  select_last_found :
      (lo : ℕ) (selected : Option ℕ) (ends : List ℕ)
      → All P ends
      → ((p : ℕ) → selected ≡ some p → (lo < p) × P p)
      → (p : ℕ) → select_last lo selected ends ≡ some p
      → (lo < p) × P p
  unfolding select_last
  select_last_found lo selected [] h k p e = k p e
  select_last_found lo selected (end ∷ rest) h k p e =
      select_last_found lo (if ltb lo end then some end else selected) rest h.1
        (λ q f. elim (Bool-cases (ltb lo end)) [
          | inl t ↦
              let same : end ≡ q = eq_of_some (rw t at f) in
              (rw (← same) (ltb→lt lo end t), rw (← same) h.0)
          | inr t ↦ k q (rw t at f)
        ])
        p e

  select_first_found :
      (lo hi : ℕ) (ends : List ℕ)
      → All P ends
      → (p : ℕ) → select_first lo hi ends ≡ some p
      → (lo ≤ p) × (p < hi) × P p
  unfolding select_first
  select_first_found lo hi [] h p e = cc
  select_first_found lo hi (end ∷ rest) h p e = elim (Bool-cases (leb lo end && ltb end hi)) [
    | inl t ↦
        let same : end ≡ p = eq_of_some (rw t at e) in
        let (a, b) = &&-true _ _ t in
        (rw (← same) (leb→le lo end a), rw (← same) (ltb→lt end hi b), rw (← same) h.0)
    | inr t ↦ select_first_found lo hi rest h.1 p (rw t at e)
  ]

module _ (text : List ℕ) where
  -- The sentence end that `_last_sentence_end` selects stands in `(lo, hi]` and behind the scan's
  -- start.
  pub last_sentence_end_bounds :
      (start lo hi p : ℕ)
      → last_sentence_end text start lo hi ≡ some p
      → (lo < p) × (start < p) × (p ≤ hi)
  unfolding last_sentence_end
  last_sentence_end_bounds start lo hi p e =
      let (a, b) =
        select_last_found (λ e. (start < e) × (e ≤ hi)) lo none (find_sentence_ends text start hi)
          (find_sentence_ends_bounds text start hi) (λ q f. cc) p e in
      (a, b.0, b.1)

  pub first_sentence_end_bounds :
      (start lo hi p : ℕ)
      → first_sentence_end text start lo hi ≡ some p
      → (lo ≤ p) × (start < p) × (p < hi)
  unfolding first_sentence_end
  first_sentence_end_bounds start lo hi p e =
      let (a, b, c) =
        select_first_found (λ e. (start < e) × (e ≤ hi)) lo hi (find_sentence_ends text start hi)
          (find_sentence_ends_bounds text start hi) p e in
      (a, c.0, b)

  rfind_newline_bounds :
      (lower room p : ℕ) → rfind_newline text lower room ≡ some p → (lower ≤ p) × (p < lower + room)
  unfolding rfind_newline
  rfind_newline_bounds lower zero p e = cc
  rfind_newline_bounds lower (suc room) p e =
      elim (Bool-cases (is_newline_at text (lower + room))) [
        | inl t ↦ let same : lower + room ≡ p = eq_of_some (rw t at e) in omega arith
        | inr t ↦ omega (arith, rfind_newline_bounds lower room p (rw t at e))
      ]

  find_newline_bounds :
      (lower room p : ℕ) → find_newline text lower room ≡ some p → (lower ≤ p) × (p < lower + room)
  unfolding find_newline
  find_newline_bounds lower zero p e = cc
  find_newline_bounds lower (suc room) p e = elim (Bool-cases (is_newline_at text lower)) [
    | inl t ↦ let same : lower ≡ p = eq_of_some (rw t at e) in omega arith
    | inr t ↦ omega (arith, find_newline_bounds (suc lower) room p (rw t at e))
  ]

  behind_found :
      (found : Option ℕ) (p : ℕ) → behind found ≡ some p → (i : ℕ) × (found ≡ some i) × (i + 1 ≡ p)
  behind_found none p e = cc
  behind_found (some i) p e = (i, refl, eq_of_some e)

  pub last_newline_point_bounds :
      (lo hi p : ℕ) → last_newline_point text lo hi ≡ some p → (lo < p) × (p ≤ hi)
  unfolding last_newline_point
  last_newline_point_bounds lo hi p e =
      let found = behind_found _ p e in
      omega (arith, found.2, rfind_newline_bounds lo (hi - lo) found.0 found.1)

  pub first_newline_point_bounds :
      (lo hi p : ℕ) → first_newline_point text lo hi ≡ some p → (lo ≤ p) × (p < hi)
  unfolding first_newline_point
  first_newline_point_bounds lo hi p e =
      let found = behind_found _ p e in
      omega (arith, found.2, find_newline_bounds (lo - 1) (hi - 1 - (lo - 1)) found.0 found.1)
