-- ===== src/Jobs/Updates.antt =====
-- A fenced update of a table: what it keeps, and when it is refused.
use veloxrag.Prelude.{
  eq_of_ok, err≢ok, err, ok, ◌≡◌, refl, inl, inr, Bool, true, false, Option, none, some, [], ◌∷◌,
  All, Bool-cases, Option-cases, eq_of_some, subst, ap, ◌∙◌,
}
use veloxrag.Jobs.Row.{Job, lost_lease}
use veloxrag.Jobs.Repository.{Table, behind_row, update_row, fenced_update, select_row, require_row}

pub behind_row-eq :
    (j k : Job) (t' : Table) (o : Option (Job × Table))
    → behind_row j o ≡ some (k, t')
    → (r : Table) × (o ≡ some (k, r)) × (j ∷ r ≡ t')
behind_row-eq j k t' none e = cc
behind_row-eq j k t' (some (c, r)) e =
    let same = eq_of_some e in
    (r, ap (λ (p : Job × Table). some (p.0, r)) same, ap (λ (p : Job × Table). p.1) same)

module _ (matches : Job → Bool) (change : Job → Job) (P : Job → Type 0)
    (keeps : (j : Job) → matches j ≡ true → P j → P (change j)) where
  update_row_keeps :
      (t : Table) (k : Job) (t' : Table)
      → All P t
      → update_row matches change t ≡ some (k, t')
      → P k × All P t'
  unfolding update_row
  update_row_keeps [] k t' a e = cc
  update_row_keeps (j ∷ rest) k t' a e = elim (Bool-cases (matches j)) [
    | inl m ↦
        let same = eq_of_some (rw m at e) in
        let fresh = keeps j m a.0 in
        (
          subst P (ap (λ (p : Job × Table). p.0) same) fresh,
          subst (All P) (ap (λ (p : Job × Table). p.1) same) (fresh, a.1),
        )
    | inr m ↦
        let (r, found, same) = behind_row-eq j k t' (update_row matches change rest) (rw m at e) in
        let (changed, others) = update_row_keeps rest k r a.1 found in
        (changed, subst (All P) same (a.0, others))
  ]

  -- What a change keeps of each row that it matches, a fenced update keeps of the table, and it holds
  -- of the row that is returned.
  pub fenced_update_keeps :
      (t : Table) (k : Job) (t' : Table)
      → All P t
      → fenced_update matches change t ≡ ok (k, t')
      → P k × All P t'
  unfolding fenced_update
  fenced_update_keeps t k t' a e = elim (Option-cases (update_row matches change t)) [
    | inl n ↦ absurd (err≢ok _ _ (rw (n, fenced_update) at e))
    | inr (r, f) ↦ update_row_keeps t k t' a (f ∙ ap some (eq_of_ok (rw (f, fenced_update) at e)))
  ]

module _ (matches : Job → Bool) where
  update_row-none :
      (change : Job → Job) (t : Table)
      → All (λ j. matches j ≡ false) t
      → update_row matches change t ≡ none
  unfolding update_row
  update_row-none change [] h = refl
  update_row-none change (j ∷ rest) h = rw (h.0, update_row-none change rest h.1)

  -- An update whose fence holds of no row is refused, and a row that it holds of is not found.
  pub fenced_update_refused :
      (change : Job → Job) (t : Table)
      → All (λ j. matches j ≡ false) t
      → fenced_update matches change t ≡ err lost_lease
  unfolding fenced_update
  fenced_update_refused change t h = rw (update_row-none change t h, fenced_update)

  pub select_row-none : (t : Table) → All (λ j. matches j ≡ false) t → select_row matches t ≡ none
  unfolding select_row
  select_row-none [] h = refl
  select_row-none (j ∷ rest) h = rw (h.0, select_row-none rest h.1)

  pub require_row_refused :
      (t : Table) → All (λ j. matches j ≡ false) t → require_row matches t ≡ err lost_lease
  unfolding require_row
  require_row_refused t h = rw (select_row-none t h)
