-- ===== src/Jobs/Fencing.antt =====
-- Fencing by epochs (`_fence`, jobs/repositories.py): a lease that another claim has superseded.
use Prim.Native.String.{String}
use mathlib.Core.List.{Memᴰ}
use veloxrag.Prelude.{
  err, guard, ok, ◌>>=◌, ◌>>◌, ℕ, suc, ◌≡◌, inl, inr, Bool, false, Option, List, [], ◌∷◌, All,
  arith, ◌==◌, ltb, ◌&&◌, Bool-cases, ==_false, sym, ap, ◌∙◌, subst,
}
use veloxrag.Jobs.Row.{Job, JobLease, lost_lease, value_error, fence, stage_fence}
use veloxrag.Jobs.Repository.{
  Table, Action, heartbeat, release_claim, checkpoint, advance_stage, commit_stage_facts,
  commit_stage_checkpoint, prepare_activation, cancellation_requested, validate_progress,
  fenced_update, require_row, stage_name_ok,
}
use veloxrag.Jobs.Outcome.{mark_succeeded, mark_cancelled, record_failure, bounded_text}
use veloxrag.Jobs.Claim.{leased, claim_next, claimed_row, replace_row}
use veloxrag.Jobs.Steps.{Request, serve_all}
use veloxrag.Jobs.Updates.{fenced_update_refused, select_row-none, require_row_refused}
use veloxrag.Jobs.Validity.{fence-Held}
use veloxrag.Jobs.Choice.{claim_next-IsOldest}
use veloxrag.Jobs.Invariants.{IsSound, EpochFrom, serve_all-EpochFrom}

-- The operations that check the lease first raise its loss, once their arguments are found valid,
-- whatever the caller would do inside the transaction. `reset_rebuild_target` and `finalize_domain`,
-- which run the caller's part first, are not among them.
pub record IsShutOut (R : Type 0) (lease : JobLease) (t : Table) : Type 0 where
  pub no_heartbeat :
      (duration now : ℕ)
      → heartbeat lease duration now t ≡ (guard (ltb 0 duration) value_error >> err lost_lease)
  pub no_question : (now : ℕ) → cancellation_requested lease now t ≡ err lost_lease
  pub no_release : (now : ℕ) → release_claim lease now t ≡ err lost_lease
  pub no_checkpoint :
      (stage resume_stage : Option String) (current : ℕ) (total : Option ℕ) (now : ℕ)
      → checkpoint lease stage resume_stage current total now t
        ≡ (validate_progress current total >> err lost_lease)
  pub no_advance :
      (action : Action R) (stage resume_stage : String) (current : ℕ) (total : Option ℕ)
      (now later : ℕ)
      → advance_stage lease action stage resume_stage current total now later t ≡ (
          guard (stage_name_ok stage && stage_name_ok resume_stage) value_error
          >> (validate_progress current total >> err lost_lease))
  pub no_facts :
      (action : Action R) (now later : ℕ)
      → commit_stage_facts lease action now later t ≡ err lost_lease
  pub no_progress :
      (action : Action R) (current : ℕ) (total : Option ℕ) (now later : ℕ)
      → commit_stage_checkpoint lease action current total now later t
        ≡ (validate_progress current total >> err lost_lease)
  pub no_activation :
      (action : Action R) (now later : ℕ)
      → prepare_activation lease action now later t ≡ err lost_lease
  pub no_success : (now : ℕ) → mark_succeeded lease now t ≡ err lost_lease
  pub no_cancel : (now : ℕ) → mark_cancelled lease now t ≡ err lost_lease
  pub no_failure :
      (retryable : Bool) (code message : String) (delay now : ℕ)
      → record_failure lease retryable code message delay now t
        ≡ (guard (bounded_text 64 code && bounded_text 500 message) value_error >> err lost_lease)

module _ (lease : JobLease) (t : Table)
    (a : All (EpochFrom lease.id (suc lease.lease_epoch)) t) where
  no_row :
      (now : ℕ) (s : Table)
      → All (EpochFrom lease.id (suc lease.lease_epoch)) s
      → All (λ j. fence lease now j ≡ false) s
  no_row now [] b = tt
  no_row now (j ∷ rest) b = elim (Bool-cases (fence lease now j)) [
    | inr e ↦ (e, no_row now rest b.1)
    | inl e ↦
        let held = fence-Held lease now j e in
        absurd (omega (arith, b.0 held.same_id, held.same_epoch))
  ]

  no_stage_row :
      (now : ℕ) (s : Table)
      → All (λ j. fence lease now j ≡ false) s
      → All (λ j. stage_fence lease now j ≡ false) s
  unfolding stage_fence
  no_stage_row now [] b = tt
  no_stage_row now (j ∷ rest) b = (rw b.0, no_stage_row now rest b.1)

  refused :
      (change : Job → Job) (now : ℕ) → fenced_update (fence lease now) change t ≡ err lost_lease
  refused change now = fenced_update_refused (fence lease now) change t (no_row now t a)

  unrequired : (now : ℕ) → require_row (stage_fence lease now) t ≡ err lost_lease
  unrequired now =
      require_row_refused (stage_fence lease now) t (no_stage_row now t (no_row now t a))

  newer_epoch-IsShutOut : (R : Type 0) → IsShutOut R lease t
  unfolding heartbeat cancellation_requested release_claim checkpoint advance_stage
      commit_stage_facts commit_stage_checkpoint prepare_activation mark_succeeded mark_cancelled
      record_failure ◌>>=◌
  newer_epoch-IsShutOut R = record {
    no_heartbeat = λ duration now. rw (refused _ now, heartbeat, ◌>>=◌);
    no_question =
        λ now. rw (select_row-none (fence lease now) t (no_row now t a), cancellation_requested);
    no_release = λ now. rw (refused _ now, release_claim, ◌>>=◌);
    no_checkpoint = λ stage resume_stage current total now. rw (refused _ now, checkpoint, ◌>>=◌);
    no_advance = λ action stage resume_stage current total now later.
        rw (unrequired now, advance_stage, ◌>>=◌);
    no_facts = λ action now later. rw (unrequired now, commit_stage_facts, ◌>>=◌);
    no_progress =
        λ action current total now later. rw (unrequired now, commit_stage_checkpoint, ◌>>=◌);
    no_activation = λ action now later. rw (refused _ now, prepare_activation, ◌>>=◌);
    no_success = λ now. rw (refused _ now, mark_succeeded, ◌>>=◌);
    no_cancel = λ now. rw (refused _ now, mark_cancelled, ◌>>=◌);
    no_failure = λ retryable code message delay now. rw (refused _ now, record_failure, ◌>>=◌);
  }

replace_row-EpochFrom :
    (i e : ℕ) (row : Job) (t : Table)
    → EpochFrom i e row
    → (row.id ≡ i)
    → All (EpochFrom i e) (replace_row row t)
unfolding replace_row
replace_row-EpochFrom i e row [] h same = tt
replace_row-EpochFrom i e row (k ∷ rest) h same = elim (Bool-cases (k.id == row.id)) [
  | inl f ↦ rw f (h, replace_row-EpochFrom i e row rest h same)
  | inr f ↦ rw f (
    λ there. absurd (==_false k.id row.id f (there ∙ sym same)),
    replace_row-EpochFrom i e row rest h same,
  )
]

-- The oldest row that a test passes has the epoch that each row of its id has reached.
member-EpochFrom :
    (i e : ℕ) (j : Job) (t : Table) → All (EpochFrom i e) t → Memᴰ j t → EpochFrom i e j
member-EpochFrom i e j t a (Memᴰ.head {x = x} same) = subst (EpochFrom i e) (sym same) a.0
member-EpochFrom i e j t a (Memᴰ.tail {xs = xs} m) = member-EpochFrom i e j xs a.1 m

-- When a claim takes a Job over from the lease `old`, whose epoch each row of its id has reached,
-- then after the claim and after any further requests, of any Workers and at any times (with stage
-- names that fit), `old` is shut out: heartbeat, cancellation_requested, release_claim, checkpoint,
-- advance_stage, commit_stage_facts, commit_stage_checkpoint, prepare_activation, mark_succeeded,
-- mark_cancelled and record_failure raise the loss of the lease, once their arguments are found
-- valid and before what the caller would do in the transaction.
pub takeover-IsShutOut :
    (R : Type 0) (old : JobLease) (owner : String) (duration : ℕ) (wanted : Option ℕ)
    (locked : ℕ → Bool) (now current : ℕ) (t : Table) (new : JobLease) (t' : Table)
    (qs : List (Request R))
    → All (EpochFrom old.id old.lease_epoch) t
    → claim_next owner duration wanted locked now current t ≡ ok (leased new, t')
    → new.id ≡ old.id
    → All (IsSound R) qs
    → IsShutOut R old (serve_all R qs t')
takeover-IsShutOut R old owner duration wanted locked now current t new t' qs a h same sound =
    let (j, first, taken) =
      claim_next-IsOldest owner duration wanted locked now current t new t' h in
    let here : j.id ≡ old.id = ap (λ (l : JobLease). l.id) taken.lease_held ∙ same in
    let reached = member-EpochFrom old.id old.lease_epoch j t a first.in_table here in
    let written =
      replace_row-EpochFrom old.id (suc old.lease_epoch) (claimed_row owner duration current j) t
        (λ _. omega (arith, reached)) here in
    newer_epoch-IsShutOut old (serve_all R qs t')
      (serve_all-EpochFrom R old.id (suc old.lease_epoch) qs t' sound
        (subst (All (EpochFrom old.id (suc old.lease_epoch))) taken.written written))
      R
