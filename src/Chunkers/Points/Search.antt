-- ===== src/Chunkers/Points/Search.antt =====
-- The binary searches of ingestion/chunkers.py, on any list and on an ordered one.
use veloxrag.Prelude.{
  ℕ, zero, suc, ◌+◌, ◌/◌, ◌≤◌, ◌<◌, ◌≡◌, ◌↔◌, refl, ◌⊎◌, inl, inr, Bool, true, false, Option, none,
  some, List, arith, ltb, leb, if◌then◌else◌, length, get_or, Bool-cases, ltb→lt, leb→le,
  ltb_false→le, &&-true, if-eq-some, lt→ltb, ◌==◌, ==_iff, sym, subst,
}
use native.Mathlib.Decide.{dec_le}
use veloxrag.Chunkers.Points.{
  bisect, bisect_left, bisect_right, last_point, first_point, contains_point, PointSet,
}

module _ (right : ℕ → Bool) where
  -- The result stands between the ends; it is the upper end or `right` fails there, and it is the
  -- lower end or `right` holds just before.
  pub record IsCut (lower upper r : ℕ) : Type 0 where
    pub above : lower ≤ r
    pub below : r ≤ upper
    pub fails : (r ≡ upper) ⊎ (right r ≡ false)
    pub holds : (r ≡ lower) ⊎ ((i : ℕ) × (suc i ≡ r) × (right i ≡ true))

  pub bisect-IsCut :
      (rounds lower upper : ℕ)
      → upper ≤ lower + rounds
      → lower ≤ upper
      → IsCut lower upper (bisect rounds right lower upper)
  unfolding bisect
  bisect-IsCut zero lower upper h k = record {
    above = omega arith;
    below = k;
    fails = inl (omega arith);
    holds = inl refl;
  }
  bisect-IsCut (suc rounds) lower upper h k = elim (Bool-cases (ltb lower upper)) [
    | inr e ↦
        let met : lower ≡ upper = omega (arith, ltb_false→le lower upper e) in
        rw (e, bisect)
          (record { above = omega arith; below = k; fails = inl met; holds = inl refl })
    | inl e ↦
        let mid = (lower + upper) / 2 in
        let apart = ltb→lt lower upper e in
        elim (Bool-cases (right mid)) [
          | inl q ↦
              let ih = bisect-IsCut rounds (suc mid) upper (omega arith) (omega arith) in
              rw (e, q, bisect)
                (record {
                  above = omega arith;
                  below = ih.below;
                  fails = ih.fails;
                  holds = elim ih.holds [ inl x ↦ inr (mid, sym x, q) | inr y ↦ inr y ];
                })
          | inr q ↦
              let ih = bisect-IsCut rounds lower mid (omega arith) (omega arith) in
              rw (e, q, bisect)
                (record {
                  above = ih.above;
                  below = omega arith;
                  fails = elim ih.fails [
                    | inl x ↦ inr (subst (λ t. right t ≡ false) (sym x) q)
                    | inr y ↦ inr y
                  ];
                  holds = ih.holds;
                })
        ]
  ]

module _ (points : List ℕ) (x : ℕ) where
  -- Without any order on the points: the point at the cut is not below `x`.
  bisect_left-IsCut :
      IsCut (λ i. ltb (get_or points i 0) x) 0 (length points) (bisect_left points x)
  unfolding bisect_left
  bisect_left-IsCut = bisect-IsCut _ (length points) 0 (length points) (omega arith) (omega arith)

  pub bisect_right-IsCut :
      IsCut (λ i. leb (get_or points i 0) x) 0 (length points) (bisect_right points x)
  unfolding bisect_right
  bisect_right-IsCut = bisect-IsCut _ (length points) 0 (length points) (omega arith) (omega arith)

module _ (points : List ℕ) (lo hi : ℕ) where
  -- Where `_first_point` answers, on any list: a listed point of `[lo, hi)`.
  first_point_found :
      (p : ℕ)
      → first_point points lo hi ≡ some p
      → (i : ℕ) × (i < length points) × (get_or points i 0 ≡ p) × (lo ≤ p) × (p < hi)
  unfolding first_point
  first_point_found p h =
      let i = bisect_left points lo in
      let cut = bisect_left-IsCut points lo in
      let (both, same) = if-eq-some _ (get_or points i 0) p h in
      let (inside, under) = &&-true _ _ both in
      let in_range = ltb→lt i _ inside in
      let below = ltb→lt _ hi under in
      elim cut.fails [
        | inl e ↦ absurd (omega arith)
        | inr e ↦ let above = ltb_false→le _ lo e in (i, in_range, same, omega arith, omega arith)
      ]

  last_point_found :
      (p : ℕ)
      → last_point points lo hi ≡ some p
      → (i : ℕ) × (i < length points) × (get_or points i 0 ≡ p) × (lo < p) × (p ≤ hi)
  unfolding last_point
  last_point_found p h = go (bisect_right points hi) refl h
    where
      answer : ℕ → Option ℕ
      answer zero = none
      answer (suc i) = if ltb lo (get_or points i 0) then some (get_or points i 0) else none

      go :
          (r : ℕ)
          → bisect_right points hi ≡ r
          → answer r ≡ some p
          → (i : ℕ) × (i < length points) × (get_or points i 0 ≡ p) × (lo < p) × (p ≤ hi)
      go zero e k = cc
      go (suc i) e k =
          let cut = bisect_right-IsCut points hi in
          let (over, same) = if-eq-some _ (get_or points i 0) p k in
          let above = ltb→lt lo _ over in
          elim cut.holds [
            | inl q ↦ absurd (omega arith)
            | inr (j, q, right) ↦
                let here : j ≡ i = omega arith in
                let below : get_or points i 0 ≤ hi =
                  leb→le _ hi (subst (λ t. leb (get_or points t 0) hi ≡ true) here right) in
                (i, omega (arith, cut.below), same, omega arith, omega arith)
          ]

-- The points are in order.
abbrev pub IsSorted : List ℕ → Type 0
IsSorted points = (i j : ℕ) → i ≤ j → j < length points → get_or points i 0 ≤ get_or points j 0

module _ (points : List ℕ) (sorted : IsSorted points) where
  bisect_left-le : (x j : ℕ) → j < length points → x ≤ get_or points j 0 → bisect_left points x ≤ j
  bisect_left-le x j inside above = elim (bisect_left-IsCut points x).holds [
    | inl e ↦ omega arith
    | inr (k, e, under) ↦
        let below = ltb→lt _ x under in
        elim (dec_le (suc k) j) [
          | yes q ↦ omega arith
          | no q ↦ absurd (
              omega (
                arith,
                sorted j k (omega arith) (omega (arith, (bisect_left-IsCut points x).below)),
              ))
        ]
  ]

  contains_point-listed :
      (j : ℕ) → j < length points → contains_point points (get_or points j 0) ≡ true
  unfolding contains_point
  contains_point-listed j inside =
      let x = get_or points j 0 in
      let i = bisect_left points x in
      let before = bisect_left-le x j inside (omega arith) in
      let least = sorted i j before inside in
      let reached : i < length points = omega arith in
      elim (bisect_left-IsCut points x).fails [
        | inl e ↦ absurd (omega arith)
        | inr e ↦
            let above = ltb_false→le _ x e in
            let same : get_or points i 0 ≡ x = omega arith in
            rw (lt→ltb i (length points) reached) ((==_iff _ _).1 same)
      ]

  -- On an ordered list `_contains_point` finds an offset if and only if it is a listed point.
  pub contains_point_iff :
      (offset : ℕ)
      → (contains_point points offset ≡ true)
        ↔ ((j : ℕ) × (j < length points) × (get_or points j 0 ≡ offset))
  unfolding contains_point
  contains_point_iff offset = (
    λ h.
        let i = bisect_left points offset in
        let (inside, same) = &&-true (ltb i (length points)) (get_or points i 0 == offset) h in
        (i, ltb→lt _ _ inside, (==_iff _ _).0 same),
    λ (j, inside, same).
        subst (λ x. contains_point points x ≡ true) same (contains_point-listed j inside),
  )

-- A plain sequence as a point set.
pub sequence_points : List ℕ → PointSet
sequence_points points = record {
  first = first_point points;
  last = last_point points;
  contains = contains_point points;
  first_bounds =
      λ lo hi p h. let (_, _, _, low, high) = first_point_found points lo hi p h in (low, high);
  last_bounds =
      λ lo hi p h. let (_, _, _, low, high) = last_point_found points lo hi p h in (low, high);
}
