-- ===== src/Jobs/Invariants.antt =====
-- The induction over requests, and the invariants that follow from it.
use mathlib.Core.Bool.{false≢true}
use veloxrag.Prelude.{
  Checked-cases, ℕ, ◌≡◌, ◌≤◌, refl, ◌⊎◌, inl, inr, true, false, List, [], ◌∷◌, All, arith, sym, ap,
  ◌∙◌,
}
use veloxrag.Jobs.Row.{Job, IsValid, is_running, is_terminal, fits}
use veloxrag.Jobs.Repository.{
  Table, heartbeat, release_claim, checkpoint, advance_stage, commit_stage_facts,
  commit_stage_checkpoint, prepare_activation, reset_rebuild_target,
}
use veloxrag.Jobs.Outcome.{mark_succeeded, mark_cancelled, record_failure, finalize_exhausted}
use veloxrag.Jobs.Claim.{claim_next, is_eligible}
use veloxrag.Jobs.Steps.{
  elsewhere, Request, claim, beat, release, save, advance, facts, progress, prepare, reset, succeed,
  cancel, fail, close, serve, serve_all,
}
use veloxrag.Jobs.Validity
use veloxrag.Jobs.Changes.{
  Change, Kept, claimed, unchanged, extended, requeued, staged, progressed, restarted, finished,
  stopped, broken, closed,
}
use veloxrag.Jobs.Kept.{
  heartbeat-kept, release_claim-kept, checkpoint-kept, mark_succeeded-kept, mark_cancelled-kept,
  record_failure-kept, finalize_exhausted-kept, advance_stage-kept, commit_stage_facts-kept,
  commit_stage_checkpoint-kept, reset_rebuild_target-kept, prepare_activation-kept, claim_next-kept,
}

module _ (R : Type 0) where
  -- `checkpoint` leaves the length of the stage names to the table's constraints.
  abbrev pub IsSound : Request R → Type 0
  IsSound (save lease stage resume_stage current total now) =
      (fits 64 stage ≡ true) × (fits 64 resume_stage ≡ true)
  IsSound _ = Unit

  module _ (P : Job → Type 0) (kept : Kept P) where
    serve_keeps : (q : Request R) (t : Table) → IsSound q → All P t → All P (serve R q t)
    unfolding serve
    serve_keeps (claim owner duration wanted locked now current) t s a =
        elim (Checked-cases (claim_next owner duration wanted locked now current t)) [
          | inr (r, e) ↦
              rw e (claim_next-kept P kept t a owner duration wanted locked now current r e)
          | inl (x, e) ↦ rw e a
        ]
    serve_keeps (beat lease duration now) t s a =
        elim (Checked-cases (heartbeat lease duration now t)) [
          | inr (r, e) ↦ rw e (heartbeat-kept P kept t a lease duration now r e)
          | inl (x, e) ↦ rw e a
        ]
    serve_keeps (release lease now) t s a = elim (Checked-cases (release_claim lease now t)) [
      | inr (r, e) ↦ rw e (release_claim-kept P kept t a lease now r e)
      | inl (x, e) ↦ rw e a
    ]
    serve_keeps (save lease stage resume_stage current total now) t s a =
        elim (Checked-cases (checkpoint lease stage resume_stage current total now t)) [
          | inr (r, e) ↦
              rw e
                (checkpoint-kept P kept t a lease stage resume_stage current total now r s.0 s.1 e)
          | inl (x, e) ↦ rw e a
        ]
    serve_keeps (advance lease result stage resume_stage current total now later) t s a =
        elim (Checked-cases
          (advance_stage lease (elsewhere result) stage resume_stage current total now later t)) [
            | inr (r, e) ↦ rw e (
                advance_stage-kept P kept t a lease result stage resume_stage current total now
                  later r e)
            | inl (x, e) ↦ rw e a
          ]
    serve_keeps (facts lease result now later) t s a =
        elim (Checked-cases (commit_stage_facts lease (elsewhere result) now later t)) [
          | inr (r, e) ↦ rw e (commit_stage_facts-kept P kept t a lease result now later r e)
          | inl (x, e) ↦ rw e a
        ]
    serve_keeps (progress lease result current total now later) t s a =
        elim (Checked-cases
          (commit_stage_checkpoint lease (elsewhere result) current total now later t)) [
            | inr (r, e) ↦
                rw e
                  (commit_stage_checkpoint-kept P kept t a lease result current total now later r e)
            | inl (x, e) ↦ rw e a
          ]
    serve_keeps (prepare lease result now later) t s a =
        elim (Checked-cases (prepare_activation lease (elsewhere result) now later t)) [
          | inr (r, e) ↦ rw e (prepare_activation-kept P kept t a lease result now later r e)
          | inl (x, e) ↦ rw e a
        ]
    serve_keeps (reset lease refresh now) t s a =
        elim (Checked-cases (reset_rebuild_target lease (elsewhere refresh) now t)) [
          | inr (r, e) ↦ rw e (reset_rebuild_target-kept P kept t a lease refresh now r e)
          | inl (x, e) ↦ rw e a
        ]
    serve_keeps (succeed lease now) t s a = elim (Checked-cases (mark_succeeded lease now t)) [
      | inr (r, e) ↦ rw e (mark_succeeded-kept P kept t a lease now r e)
      | inl (x, e) ↦ rw e a
    ]
    serve_keeps (cancel lease now) t s a = elim (Checked-cases (mark_cancelled lease now t)) [
      | inr (r, e) ↦ rw e (mark_cancelled-kept P kept t a lease now r e)
      | inl (x, e) ↦ rw e a
    ]
    serve_keeps (fail lease retryable code message delay now) t s a =
        elim (Checked-cases (record_failure lease retryable code message delay now t)) [
          | inr (r, e) ↦
              rw e (record_failure-kept P kept t a lease retryable code message delay now r e)
          | inl (x, e) ↦ rw e a
        ]
    serve_keeps (close candidate now) t s a =
        elim (Checked-cases (finalize_exhausted candidate now t)) [
          | inr (r, e) ↦ rw e (finalize_exhausted-kept P kept t a candidate now r e)
          | inl (x, e) ↦ rw e a
        ]

    serve_all_keeps :
        (qs : List (Request R)) (t : Table) → All IsSound qs → All P t → All P (serve_all R qs t)
    unfolding serve_all
    serve_all_keeps [] t s a = a
    serve_all_keeps (q ∷ qs) t s a = serve_all_keeps qs (serve R q t) s.1 (serve_keeps q t s.0 a)

Change-IsValid : (j k : Job) → Change j k → IsValid j → IsValid k
Change-IsValid j k (claimed now owner duration current e f o) v =
    Validity.claimed_row-IsValid j v owner duration current o f
Change-IsValid j k unchanged v = v
Change-IsValid j k (extended now duration h) v = Validity.extend_lease-IsValid j v now duration h
Change-IsValid j k (requeued h) v = Validity.requeue-IsValid j v h
Change-IsValid j k (staged stage resume_stage current total h f g o) v =
    Validity.set_stage-IsValid j v stage resume_stage current total f g o
Change-IsValid j k (progressed current total h o) v =
    Validity.set_progress-IsValid j v current total o
Change-IsValid j k (restarted refresh h) v = ground arith
Change-IsValid j k (finished now h) v = Validity.succeed-IsValid j v now
Change-IsValid j k (stopped now h) v = Validity.cancel-IsValid j v now
Change-IsValid j k (broken retryable code message delay now h o) v =
    Validity.fail-IsValid j v retryable code message delay now o
Change-IsValid j k (closed now h o) v = Validity.exhaust-IsValid j v now

-- Whatever requests Workers make, in any order and at any times, if the stage names given to
-- `checkpoint` fit their columns, then every row of a table that meets the check constraints of
-- `jobs`, with a claim counted for each running Job, still does: progress within its total, attempts
-- within their limit, a lease exactly while running.
pub serve_all-IsValid :
    (R : Type 0) (qs : List (Request R)) (t : Table)
    → All (IsSound R) qs
    → All IsValid t
    → All IsValid (serve_all R qs t)
serve_all-IsValid R = serve_all_keeps R IsValid Change-IsValid

-- The epoch of Job `i` has reached `e`.
abbrev pub EpochFrom : ℕ → ℕ → Job → Type 0
EpochFrom i e j = j.id ≡ i → e ≤ j.lease_epoch

Change-EpochFrom : (i e : ℕ) (j k : Job) → Change j k → EpochFrom i e j → EpochFrom i e k
Change-EpochFrom i e j k (claimed now owner duration current _ _ _) h =
    λ same. omega (arith, h same)
Change-EpochFrom i e j k unchanged h = h
Change-EpochFrom i e j k (extended now duration _) h = h
Change-EpochFrom i e j k (requeued _) h = h
Change-EpochFrom i e j k (staged _ _ _ _ _ _ _ _) h = h
Change-EpochFrom i e j k (progressed _ _ _ _) h = h
Change-EpochFrom i e j k (restarted _ _) h = h
Change-EpochFrom i e j k (finished _ _) h = h
Change-EpochFrom i e j k (stopped _ _) h = h
Change-EpochFrom i e j k (broken _ _ _ _ _ _ _) h = h
Change-EpochFrom i e j k (closed _ _ _) h = h

pub serve_all-EpochFrom :
    (R : Type 0) (i e : ℕ) (qs : List (Request R)) (t : Table)
    → All (IsSound R) qs
    → All (EpochFrom i e) t
    → All (EpochFrom i e) (serve_all R qs t)
serve_all-EpochFrom R i e = serve_all_keeps R (EpochFrom i e) (Change-EpochFrom i e)

-- A row that is `j`, unless its id is another.
abbrev pub Frozen : Job → Job → Type 0
Frozen j k = k.id ≡ j.id → k ≡ j

eligible_not_terminal :
    (now : ℕ) (j : Job) → is_eligible now j ≡ true → is_terminal j.status ≡ false
unfolding is_eligible
eligible_not_terminal now j h = ground arith

running_not_terminal : (j : Job) → is_running j.status ≡ true → is_terminal j.status ≡ false
running_not_terminal j h = ground arith

-- A change leaves the id of its row, and changes no terminal row.
Change-source :
    (j k : Job) → Change j k → (k.id ≡ j.id) × ((k ≡ j) ⊎ (is_terminal j.status ≡ false))
Change-source j k (claimed now owner duration current e _ _) =
    (refl, inr (eligible_not_terminal now j e))
Change-source j k unchanged = (refl, inl refl)
Change-source j k (extended now duration h) = (refl, inr (running_not_terminal j h))
Change-source j k (requeued h) = (refl, inr (running_not_terminal j h))
Change-source j k (staged _ _ _ _ h _ _ _) = (refl, inr (running_not_terminal j h))
Change-source j k (progressed _ _ h _) = (refl, inr (running_not_terminal j h))
Change-source j k (restarted _ h) = (refl, inr (running_not_terminal j h))
Change-source j k (finished _ h) = (refl, inr (running_not_terminal j h))
Change-source j k (stopped _ h) = (refl, inr (running_not_terminal j h))
Change-source j k (broken _ _ _ _ _ h _) = (refl, inr (running_not_terminal j h))
Change-source j k (closed _ h _) = (refl, inr h)

-- A succeeded, failed or cancelled Job stays as it is, in every field, under all requests (with
-- stage names that fit).
pub terminal-Frozen :
    (R : Type 0) (j : Job) (qs : List (Request R)) (t : Table)
    → is_terminal j.status ≡ true
    → All (IsSound R) qs
    → All (Frozen j) t
    → All (Frozen j) (serve_all R qs t)
terminal-Frozen R j qs t terminal = serve_all_keeps R (Frozen j) kept qs t
  where
    kept : Kept (Frozen j)
    kept a b c frozen same =
        let (kept_id, source) = Change-source a b c in
        let old = frozen (sym kept_id ∙ same) in
        elim source [
          | inl unmoved ↦ unmoved ∙ old
          | inr open_status ↦
              absurd (
                false≢true
                  (sym open_status ∙ ap (λ (r : Job). is_terminal r.status) old ∙ terminal))
        ]
