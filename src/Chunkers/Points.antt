-- ===== src/Chunkers/Points.antt =====
-- Ordered boundary offsets of ingestion/chunkers.py: `_first_point`, `_last_point`, `_contains_point`
-- and the binary search under them, over plain sequences.
pub mod Search
use veloxrag.Prelude.{
  ℕ, zero, suc, ◌+◌, ◌-◌, ◌/◌, ◌≤◌, ◌<◌, ◌≡◌, Bool, true, false, ◌&&◌, Option, none, some, List, [],
  ◌∷◌, ◌++◌, ltb, leb, ◌==◌, if◌then◌else◌, length, get_or,
}

-- `while lower < upper: middle = (lower + upper) // 2; …`, the loop of `bisect` and of the packed
-- points: `goes_right middle` moves the lower end behind `middle`.
unfoldable pub bisect : ℕ → (ℕ → Bool) → ℕ → ℕ → ℕ
bisect zero goes_right lower upper = lower
bisect (suc rounds) goes_right lower upper = elim (ltb lower upper) [
  | false ↦ lower
  | true ↦ elim (goes_right ((lower + upper) / 2)) [
    | true ↦ bisect rounds goes_right (suc ((lower + upper) / 2)) upper
    | false ↦ bisect rounds goes_right lower ((lower + upper) / 2)
  ]
]

unfoldable pub bisect_left : List ℕ → ℕ → ℕ
unfolding bisect
bisect_left points x = bisect (length points) (λ i. ltb (get_or points i 0) x) 0 (length points)

unfoldable pub bisect_right : List ℕ → ℕ → ℕ
unfolding bisect
bisect_right points x = bisect (length points) (λ i. leb (get_or points i 0) x) 0 (length points)

unfoldable pub last_point : List ℕ → ℕ → ℕ → Option ℕ
unfolding bisect_right
last_point points lower_exclusive upper_inclusive = elim (bisect_right points upper_inclusive) [
  | zero ↦ none
  | suc index ↦
      if ltb lower_exclusive (get_or points index 0) then some (get_or points index 0) else none
]

unfoldable pub first_point : List ℕ → ℕ → ℕ → Option ℕ
unfolding bisect_left
first_point points lower_inclusive upper_exclusive =
    let index = bisect_left points lower_inclusive in
    if ltb index (length points) && ltb (get_or points index 0) upper_exclusive
    then some (get_or points index 0)
    else none

unfoldable pub contains_point : List ℕ → ℕ → Bool
unfolding bisect_left
contains_point points offset =
    let index = bisect_left points offset in
    ltb index (length points) && get_or points index 0 == offset

-- What the chunker asks of a collection of boundary offsets, and what it relies on.
pub record PointSet : Type 0 where
  pub first : ℕ → ℕ → Option ℕ
  pub last : ℕ → ℕ → Option ℕ
  pub contains : ℕ → Bool
  pub first_bounds : (lo hi p : ℕ) → first lo hi ≡ some p → (lo ≤ p) × (p < hi)
  pub last_bounds : (lo hi p : ℕ) → last lo hi ≡ some p → (lo < p) × (p ≤ hi)

-- `points and points[-1] == offset`
unfoldable pub ends_with : List ℕ → ℕ → Bool
ends_with [] offset = false
ends_with (x ∷ []) offset = x == offset
ends_with (x ∷ y ∷ ys) offset = ends_with (y ∷ ys) offset

unfoldable pub append_distinct : List ℕ → ℕ → List ℕ
unfolding ends_with
append_distinct points offset = if ends_with points offset then points else points ++ offset ∷ []
