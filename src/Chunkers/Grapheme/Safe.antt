-- ===== src/Chunkers/Grapheme/Safe.antt =====
-- `_safe_end` and `_safe_start` against what they search for.
use veloxrag.Prelude.{
  ℕ, zero, suc, ◌+◌, ◌-◌, ◌≤◌, ◌<◌, ◌≡◌, refl, ◌⊎◌, inl, inr, true, false, List, arith, Bool-cases,
  ==_iff, ==_false, lt→leb_false, ◌==◌,
}
use native.Mathlib.Decide.{ℕ_discrete}
use veloxrag.Chunkers.Grapheme.{
  UnicodeData, unsafe_boundary, retreat, safe_end, advance, safe_start, align_sentence_boundary,
}

module _ (u : UnicodeData) (text : List ℕ) (anchor : ℕ) where
  abbrev IsUnsafe : ℕ → Type 0
  IsUnsafe p = unsafe_boundary u text p anchor ≡ true

  abbrev IsSafe : ℕ → Type 0
  IsSafe p = unsafe_boundary u text p anchor ≡ false

  retreat_bounds :
      (d : ℕ) → (anchor ≤ retreat u text anchor d) × (retreat u text anchor d ≤ anchor + d)
  unfolding retreat
  retreat_bounds zero = omega arith
  retreat_bounds (suc d) = elim (Bool-cases (unsafe_boundary u text (anchor + suc d) anchor)) [
    | inl e ↦ rw e (omega (arith, retreat_bounds d))
    | inr e ↦ rw e (omega arith)
  ]

  retreat_stops : (d : ℕ) → (retreat u text anchor d ≡ anchor) ⊎ IsSafe (retreat u text anchor d)
  unfolding retreat
  retreat_stops zero = inl refl
  retreat_stops (suc d) = elim (Bool-cases (unsafe_boundary u text (anchor + suc d) anchor)) [
    | inl e ↦ rw e (retreat_stops d)
    | inr e ↦ rw e (inr e)
  ]

  retreat_skips : (d p : ℕ) → retreat u text anchor d < p → p ≤ anchor + d → IsUnsafe p
  unfolding retreat
  retreat_skips zero p h k = absurd (omega arith)
  retreat_skips (suc d) p h k = elim (Bool-cases (unsafe_boundary u text (anchor + suc d) anchor)) [
    | inl e ↦ elim (ℕ_discrete p (anchor + suc d)) [
      | yes q ↦ rw q e
      | no q ↦ retreat_skips d p (rw e at h) (omega arith)
    ]
    | inr e ↦ absurd (let h' : anchor + suc d < p = rw e at h in omega arith)
  ]

  advance_bounds :
      (room c : ℕ) → (c ≤ advance u text anchor room c) × (advance u text anchor room c ≤ c + room)
  unfolding advance
  advance_bounds zero c = omega arith
  advance_bounds (suc room) c = elim (Bool-cases (unsafe_boundary u text c anchor)) [
    | inl e ↦ rw e (omega (arith, advance_bounds room (suc c)))
    | inr e ↦ rw e (omega arith)
  ]

  advance_stops :
      (room c : ℕ)
      → (advance u text anchor room c ≡ c + room) ⊎ IsSafe (advance u text anchor room c)
  unfolding advance
  advance_stops zero c = inl (omega arith)
  advance_stops (suc room) c = elim (Bool-cases (unsafe_boundary u text c anchor)) [
    | inl e ↦ elim (advance_stops room (suc c)) [
      | inl q ↦ rw e (inl (omega arith))
      | inr q ↦ rw e (inr q)
    ]
    | inr e ↦ rw e (inr e)
  ]

  advance_skips : (room c p : ℕ) → c ≤ p → p < advance u text anchor room c → IsUnsafe p
  unfolding advance
  advance_skips zero c p h k = absurd (omega arith)
  advance_skips (suc room) c p h k = elim (Bool-cases (unsafe_boundary u text c anchor)) [
    | inl e ↦ elim (ℕ_discrete p c) [
      | yes q ↦ rw q e
      | no q ↦ advance_skips room (suc c) p (omega arith) (rw e at k)
    ]
    | inr e ↦ absurd (let k' : p < c = rw e at k in omega arith)
  ]

  -- What `_safe_end` returns: the last safe position of the window, or its end where none is safe.
  pub data LastSafe (hard_end : ℕ) (e : ℕ) : Type 0 where
    last_safe :
        anchor < e
        → e ≤ hard_end
        → IsSafe e
        → ((p : ℕ) → e < p → p ≤ hard_end → IsUnsafe p)
        → LastSafe hard_end e
    none_safe :
        e ≡ hard_end → ((p : ℕ) → anchor < p → p ≤ hard_end → IsUnsafe p) → LastSafe hard_end e

  -- For a window that is not empty, `_safe_end` returns the last position of the window at which a
  -- cut is safe, or the end of the window where no position of it is.
  pub safe_end-LastSafe :
      (hard_end : ℕ) → anchor < hard_end → LastSafe hard_end (safe_end u text hard_end anchor)
  unfolding safe_end
  safe_end-LastSafe hard_end h =
      let d = hard_end - anchor in
      let full : anchor + d ≡ hard_end = omega arith in
      let (low, high) = retreat_bounds d in
      elim (Bool-cases (retreat u text anchor d == anchor)) [
        | inl e ↦
            let stuck : retreat u text anchor d ≡ anchor = (==_iff _ _).0 e in
            rw (lt→leb_false anchor hard_end h, e)
              (none_safe refl (λ p a b. retreat_skips d p (omega arith) (omega arith)))
        | inr e ↦
            let apart = ==_false _ _ e in
            rw (lt→leb_false anchor hard_end h, e)
              (last_safe (omega arith) (omega arith)
                (elim (retreat_stops d) [ inl q ↦ absurd (apart q) | inr q ↦ q ])
                (λ p a b. retreat_skips d p a (omega arith)))
      ]

  pub safe_end_bounds :
      (hard_end : ℕ)
      → anchor < hard_end
      → (anchor < safe_end u text hard_end anchor) × (safe_end u text hard_end anchor ≤ hard_end)
  safe_end_bounds hard_end h = elim (safe_end-LastSafe hard_end h) [
    | last_safe a b c d ↦ (a, b)
    | none_safe a b ↦ omega arith
  ]

  -- `_safe_start` returns the first position from `target` on at which a cut is safe, or the limit
  -- where there is none before it.
  pub safe_start_lem :
      (target limit : ℕ)
      → target ≤ limit
      → (target ≤ safe_start u text target limit anchor)
        × (safe_start u text target limit anchor ≤ limit)
        × ((safe_start u text target limit anchor ≡ limit)
            ⊎ IsSafe (safe_start u text target limit anchor))
        × ((p : ℕ) → target ≤ p → p < safe_start u text target limit anchor → IsUnsafe p)
  unfolding safe_start
  safe_start_lem target limit h =
      let full : target + (limit - target) ≡ limit = omega arith in
      let (low, high) = advance_bounds (limit - target) target in
      (
        low,
        rw full at high,
        rw full at (advance_stops (limit - target) target),
        advance_skips (limit - target) target,
      )

  -- A sentence end is moved to a position of the window behind the anchor.
  pub align_sentence_boundary_bounds :
      (target limit : ℕ)
      → anchor < target
      → target ≤ limit
      → (anchor < align_sentence_boundary u text target limit anchor)
        × (align_sentence_boundary u text target limit anchor ≤ limit)
  unfolding align_sentence_boundary
  align_sentence_boundary_bounds target limit h k =
      let (low, high, _, _) = safe_start_lem target limit k in
      let (low', high') = safe_end_bounds target h in
      elim (Bool-cases (unsafe_boundary u text (safe_start u text target limit anchor) anchor)) [
        | inl e ↦ rw e (omega arith)
        | inr e ↦ rw e (omega arith)
      ]
