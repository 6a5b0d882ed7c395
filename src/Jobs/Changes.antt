-- ===== src/Jobs/Changes.antt =====
-- How one row of `jobs` may change in one request of jobs/repositories.py.
use Prim.Native.String.{String}
use veloxrag.Prelude.{
  ℕ, ◌≡◌, inl, inr, Bool, true, false, not, Option, some, List, [], ◌∷◌, All, ◌&&◌, Bool-cases,
  &&-true, leb, ◌==◌,
}
use veloxrag.Jobs.Row.{Job, is_running, is_terminal, fits, progress_ok}
use veloxrag.Jobs.Repository.{
  Table, extend_lease, requeue, set_progress, set_stage, restart_rebuild, RebuildTargetRefresh,
}
use veloxrag.Jobs.Outcome.{succeed, cancel, fail, exhaust, bounded_text}
use veloxrag.Jobs.Claim.{
  claimed_row, is_eligible, insert_ordered, comes_before, select_candidates, replace_row, is_wanted,
}

-- The changes, with what the operation has checked of the row and of its arguments.
pub data Change (j : Job) : Job → Type 0 where
  claimed :
      (now : ℕ) (owner : String) (duration current : ℕ)
      → is_eligible now j ≡ true
      → leb j.max_attempts j.attempt_count ≡ false
      → fits 255 (some owner) ≡ true
      → Change j (claimed_row owner duration current j)
  unchanged : Change j j
  extended :
      (now duration : ℕ) → is_running j.status ≡ true → Change j (extend_lease now duration j)
  requeued : is_running j.status ≡ true → Change j (requeue j)
  staged :
      (stage resume_stage : Option String) (current : ℕ) (total : Option ℕ)
      → is_running j.status ≡ true
      → fits 64 stage ≡ true
      → fits 64 resume_stage ≡ true
      → progress_ok current total ≡ true
      → Change j (set_stage stage resume_stage current total j)
  progressed :
      (current : ℕ) (total : Option ℕ)
      → is_running j.status ≡ true
      → progress_ok current total ≡ true
      → Change j (set_progress current total j)
  restarted :
      (refresh : RebuildTargetRefresh)
      → is_running j.status ≡ true
      → Change j (restart_rebuild refresh j)
  finished : (now : ℕ) → is_running j.status ≡ true → Change j (succeed now j)
  stopped : (now : ℕ) → is_running j.status ≡ true → Change j (cancel now j)
  broken :
      (retryable : Bool) (code message : String) (delay now : ℕ)
      → is_running j.status ≡ true
      → (bounded_text 64 code && bounded_text 500 message) ≡ true
      → Change j (fail retryable code message delay now j)
  closed :
      (now : ℕ)
      → is_terminal j.status ≡ false
      → (j.attempt_count == j.max_attempts) ≡ true
      → Change j (exhaust now j)

module _ (P : Job → Type 0) where
  -- A predicate that every change keeps.
  abbrev pub Kept : Type 0
  Kept = (j k : Job) → Change j k → P j → P k

  -- The candidates of a claim are rows of the table, and eligible.
  insert_ordered-All :
      (Q : Job → Type 0) (j : Job) (t : List Job) → Q j → All Q t → All Q (insert_ordered j t)
  unfolding insert_ordered
  insert_ordered-All Q j [] h a = (h, tt)
  insert_ordered-All Q j (k ∷ rest) h a = elim (Bool-cases (comes_before j k)) [
    | inl e ↦ rw e (h, a)
    | inr e ↦ rw e (a.0, insert_ordered-All Q j rest h a.1)
  ]

  pub select_candidates-All :
      (now : ℕ) (locked : ℕ → Bool) (wanted : Option ℕ) (t : Table)
      → All P t
      → All (λ j. P j × (is_eligible now j ≡ true)) (select_candidates now locked wanted t)
  unfolding select_candidates
  select_candidates-All now locked wanted [] a = tt
  select_candidates-All now locked wanted (j ∷ rest) a =
      let later = select_candidates-All now locked wanted rest a.1 in
      elim (Bool-cases (is_eligible now j && is_wanted wanted j && not (locked j.id))) [
        | inr e ↦ rw e later
        | inl e ↦
            let (both, _) = &&-true _ _ e in
            let (eligible, _) = &&-true _ _ both in
            rw e (
              insert_ordered-All _ j (select_candidates now locked wanted rest) (a.0, eligible)
                later)
      ]

  pub replace_row-All : (j : Job) (t : Table) → P j → All P t → All P (replace_row j t)
  unfolding replace_row
  replace_row-All j [] h a = tt
  replace_row-All j (k ∷ rest) h a = elim (Bool-cases (k.id == j.id)) [
    | inl e ↦ rw e (h, replace_row-All j rest h a.1)
    | inr e ↦ rw e (a.0, replace_row-All j rest h a.1)
  ]
