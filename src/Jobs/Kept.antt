-- ===== src/Jobs/Kept.antt =====
-- The operations of jobs/repositories.py, one by one, for the induction over requests.
use Prim.Native.String.{String}
use veloxrag.Prelude.{
  guard, >>=-eq-ok, eq_of_ok, guard-eq-ok, ok, All-take, ℕ, arith, ◌≡◌, inl, inr, Bool, true, false,
  Option, some, List, [], ◌∷◌, All, Bool-cases, &&-true, take, leb, ◌==◌, subst, ap, sym,
}
use veloxrag.Jobs.Row.{
  passes_checks, integrity_error, Status, queued, retry_wait, Job, JobLease, ExhaustedJob,
  is_running, is_terminal, fits, fence, stage_fence, lease_from_job, exhausted_from_job,
}
use veloxrag.Jobs.Repository.{
  Table, extend_lease, requeue, set_progress, set_stage, restart_rebuild, RebuildTargetRefresh,
  fenced_update, heartbeat, release_claim, checkpoint, advance_stage, commit_stage_facts,
  commit_stage_checkpoint, prepare_activation, reset_rebuild_target, validate_progress,
  validate_lease_input,
}
use veloxrag.Jobs.Outcome.{
  succeed, cancel, fail, exhaust, exhausted_fence, exhausted_eligibility, mark_succeeded,
  mark_cancelled, record_failure, finalize_exhausted,
}
use veloxrag.Jobs.Claim.{
  Claim, claimed_row, is_eligible, select_candidates, claim_first, claim_next, claim_scan_limit,
}
use veloxrag.Jobs.Validity.{fence-Held}
use veloxrag.Jobs.Updates.{fenced_update_keeps}
use veloxrag.Jobs.Steps.{elsewhere}
use veloxrag.Jobs.Changes.{
  Change, Kept, claimed, unchanged, extended, requeued, staged, progressed, restarted, finished,
  stopped, broken, closed, select_candidates-All, replace_row-All,
}

eligible_lives :
    (s : Status) (now : ℕ) (j : Job)
    → exhausted_eligibility s now j ≡ true
    → is_terminal j.status ≡ false
eligible_lives queued now j h = ground arith
eligible_lives retry_wait now j h = ground arith
eligible_lives _ now j h = ground arith

module _ (P : Job → Type 0) (kept : Kept P) (t : Table) (a : All P t) where
  -- A fenced update by changes that are allowed of a running row.
  update_kept :
      (matches : Job → Bool) (change : Job → Job)
      → ((j : Job) → matches j ≡ true → Change j (change j))
      → (r : Job × Table) → fenced_update matches change t ≡ ok r
      → All P r.1
  update_kept matches change allowed (k, t') e =
      (fenced_update_keeps matches change P (λ j m p. kept j (change j) (allowed j m) p) t k t' a
        e).1

  pub heartbeat-kept :
      (lease : JobLease) (duration now : ℕ) (r : JobLease × Table)
      → heartbeat lease duration now t ≡ ok r
      → All P r.1
  unfolding heartbeat
  heartbeat-kept lease duration now r h =
      let (_, _, h1) = >>=-eq-ok _ _ h in
      let (u, e, h2) = >>=-eq-ok _ _ h1 in
      let (_, _, h3) = >>=-eq-ok _ _ h2 in
      subst (λ (p : JobLease × Table). All P p.1) (eq_of_ok h3)
        (update_kept (fence lease now) (extend_lease now duration)
          (λ j m. extended now duration (fence-Held lease now j m).runs) u e)

  pub release_claim-kept :
      (lease : JobLease) (now : ℕ) (r : Table) → release_claim lease now t ≡ ok r → All P r
  unfolding release_claim
  release_claim-kept lease now r h =
      let (u, e, h1) = >>=-eq-ok _ _ h in
      subst (All P) (eq_of_ok h1) (
        update_kept (fence lease now) requeue (λ j m. requeued (fence-Held lease now j m).runs) u e)

  pub checkpoint-kept :
      (lease : JobLease) (stage resume_stage : Option String) (current : ℕ) (total : Option ℕ)
      (now : ℕ) (r : Table)
      → fits 64 stage ≡ true
      → fits 64 resume_stage ≡ true
      → checkpoint lease stage resume_stage current total now t ≡ ok r
      → All P r
  unfolding checkpoint validate_progress
  checkpoint-kept lease stage resume_stage current total now r f g h =
      let (_, v, h1) = >>=-eq-ok _ _ h in
      let (u, e, h2) = >>=-eq-ok _ _ h1 in
      subst (All P) (eq_of_ok h2) (
        update_kept (fence lease now) (set_stage stage resume_stage current total)
          (λ j m.
            staged stage resume_stage current total (fence-Held lease now j m).runs f g
              (guard-eq-ok _ _ v))
          u e)

  stage_fence-runs :
      (lease : JobLease) (now : ℕ) (j : Job)
      → stage_fence lease now j ≡ true
      → is_running j.status ≡ true
  unfolding stage_fence
  stage_fence-runs lease now j m =
      let (held, _) = &&-true _ _ m in (fence-Held lease now j held).runs

  pub mark_succeeded-kept :
      (lease : JobLease) (now : ℕ) (r : Status × Table)
      → mark_succeeded lease now t ≡ ok r
      → All P r.1
  unfolding mark_succeeded
  mark_succeeded-kept lease now r h =
      let (u, e, h1) = >>=-eq-ok _ _ h in
      subst (λ (p : Status × Table). All P p.1) (eq_of_ok h1)
        (update_kept (fence lease now) (succeed now)
          (λ j m. finished now (fence-Held lease now j m).runs) u e)

  pub mark_cancelled-kept :
      (lease : JobLease) (now : ℕ) (r : Table) → mark_cancelled lease now t ≡ ok r → All P r
  unfolding mark_cancelled
  mark_cancelled-kept lease now r h =
      let (u, e, h1) = >>=-eq-ok _ _ h in
      subst (All P) (eq_of_ok h1) (
        update_kept (fence lease now) (cancel now)
          (λ j m. stopped now (fence-Held lease now j m).runs) u e)

  pub record_failure-kept :
      (lease : JobLease) (retryable : Bool) (code message : String) (delay now : ℕ)
      (r : Status × Table)
      → record_failure lease retryable code message delay now t ≡ ok r
      → All P r.1
  unfolding record_failure
  record_failure-kept lease retryable code message delay now r h =
      let (_, v, h1) = >>=-eq-ok _ _ h in
      let (u, e, h2) = >>=-eq-ok _ _ h1 in
      subst (λ (p : Status × Table). All P p.1) (eq_of_ok h2)
        (update_kept (fence lease now) (fail retryable code message delay now)
          (λ j m.
            broken retryable code message delay now (fence-Held lease now j m).runs
              (guard-eq-ok _ _ v))
          u e)

  exhausted_fence-facts :
      (c : ExhaustedJob) (now : ℕ) (j : Job)
      → exhausted_fence c now j ≡ true
      → (is_terminal j.status ≡ false) × ((j.attempt_count == j.max_attempts) ≡ true)
  unfolding exhausted_fence
  exhausted_fence-facts c now j h =
      let (h6, eligible) = &&-true _ _ h in
      let (h5, _) = &&-true _ _ h6 in
      let (h4, _) = &&-true _ _ h5 in
      let (h3, _) = &&-true _ _ h4 in
      let (h2, _) = &&-true _ _ h3 in
      let (h1, _) = &&-true _ _ h2 in
      let (_, spent) = &&-true _ _ h1 in (eligible_lives c.status now j eligible, spent)

  pub finalize_exhausted-kept :
      (c : ExhaustedJob) (now : ℕ) (r : Table) → finalize_exhausted c now t ≡ ok r → All P r
  unfolding finalize_exhausted
  finalize_exhausted-kept c now r h =
      let (_, _, h1) = >>=-eq-ok _ _ h in
      let (u, e, h2) = >>=-eq-ok _ _ h1 in
      subst (All P) (eq_of_ok h2) (
        update_kept (exhausted_fence c now) (exhaust now)
          (λ j m. let (live, spent) = exhausted_fence-facts c now j m in closed now live spent) u e)

  -- A fenced update behind an action that leaves the table alone.
  acted_kept :
      {R : Type 0} (result : R) (matches : Job → Bool) (change : Job → Job)
      → ((j : Job) → matches j ≡ true → Change j (change j))
      → (p : R × Table) (r : Job × Table) → elsewhere result t ≡ ok p
      → fenced_update matches change p.1 ≡ ok r
      → All P r.1
  acted_kept {R} result matches change allowed p r acted e = update_kept matches change allowed r (
      subst (λ s. fenced_update matches change s ≡ ok r)
        (sym (ap (λ (q : R × Table). q.1) (eq_of_ok acted))) e)

  pub advance_stage-kept :
      {R : Type 0} (lease : JobLease) (result : R) (stage resume_stage : String) (current : ℕ)
      (total : Option ℕ) (now later : ℕ) (r : R × JobLease × Table)
      → advance_stage lease (elsewhere result) stage resume_stage current total now later t ≡ ok r
      → All P r.2
  unfolding advance_stage validate_progress
  advance_stage-kept {R} lease result stage resume_stage current total now later r h =
      let (_, names, h1) = >>=-eq-ok _ _ h in
      let (_, v, h2) = >>=-eq-ok _ _ h1 in
      let (_, _, h3) = >>=-eq-ok _ _ h2 in
      let (p, acted, h4) = >>=-eq-ok _ _ h3 in
      let (u, e, h5) = >>=-eq-ok _ _ h4 in
      let (_, _, h6) = >>=-eq-ok _ _ h5 in
      let (one, two) = &&-true _ _ (guard-eq-ok _ _ names) in
      subst (λ (q : R × JobLease × Table). All P q.2) (eq_of_ok h6)
        (acted_kept result (stage_fence lease later)
          (set_stage (some stage) (some resume_stage) current total)
          (λ j m.
            staged (some stage) (some resume_stage) current total (stage_fence-runs lease later j m)
              one two (guard-eq-ok _ _ v))
          p u acted e)

  pub commit_stage_facts-kept :
      {R : Type 0} (lease : JobLease) (result : R) (now later : ℕ) (r : R × Table)
      → commit_stage_facts lease (elsewhere result) now later t ≡ ok r
      → All P r.1
  unfolding commit_stage_facts
  commit_stage_facts-kept {R} lease result now later r h =
      let (_, _, h1) = >>=-eq-ok _ _ h in
      let (p, acted, h2) = >>=-eq-ok _ _ h1 in
      let (u, e, h3) = >>=-eq-ok _ _ h2 in
      subst (λ (q : R × Table). All P q.1) (eq_of_ok h3)
        (acted_kept result (stage_fence lease later) (λ j. j) (λ j m. unchanged) p u acted e)

  pub commit_stage_checkpoint-kept :
      {R : Type 0} (lease : JobLease) (result : R) (current : ℕ) (total : Option ℕ) (now later : ℕ)
      (r : R × JobLease × Table)
      → commit_stage_checkpoint lease (elsewhere result) current total now later t ≡ ok r
      → All P r.2
  unfolding commit_stage_checkpoint validate_progress
  commit_stage_checkpoint-kept {R} lease result current total now later r h =
      let (_, v, h1) = >>=-eq-ok _ _ h in
      let (_, _, h2) = >>=-eq-ok _ _ h1 in
      let (p, acted, h3) = >>=-eq-ok _ _ h2 in
      let (u, e, h4) = >>=-eq-ok _ _ h3 in
      let (_, _, h5) = >>=-eq-ok _ _ h4 in
      subst (λ (q : R × JobLease × Table). All P q.2) (eq_of_ok h5)
        (acted_kept result (stage_fence lease later) (set_progress current total)
          (λ j m. progressed current total (stage_fence-runs lease later j m) (guard-eq-ok _ _ v)) p
          u acted e)

  pub reset_rebuild_target-kept :
      (lease : JobLease) (refresh : RebuildTargetRefresh) (now : ℕ)
      (r : RebuildTargetRefresh × JobLease × Table)
      → reset_rebuild_target lease (elsewhere refresh) now t ≡ ok r
      → All P r.2
  unfolding reset_rebuild_target
  reset_rebuild_target-kept lease refresh now r h =
      let (_, _, h1) = >>=-eq-ok _ _ h in
      let (p, acted, h2) = >>=-eq-ok _ _ h1 in
      let (u, e, h3) = >>=-eq-ok _ _ h2 in
      let (_, _, h4) = >>=-eq-ok _ _ h3 in
      let same : refresh ≡ p.0 = ap (λ (q : RebuildTargetRefresh × Table). q.0) (eq_of_ok acted) in
      subst (λ (q : RebuildTargetRefresh × JobLease × Table). All P q.2) (eq_of_ok h4)
        (acted_kept refresh (stage_fence lease now) (restart_rebuild p.0)
          (λ j m. restarted p.0 (stage_fence-runs lease now j m)) p u acted e)

-- `fence_activation` changes nothing, before and after the action.
pub prepare_activation-kept :
    (P : Job → Type 0) (kept : Kept P) (t : Table) (a : All P t) {R : Type 0} (lease : JobLease)
    (result : R) (now later : ℕ) (r : R × Table)
    → prepare_activation lease (elsewhere result) now later t ≡ ok r
    → All P r.1
unfolding prepare_activation
prepare_activation-kept P kept t a {R} lease result now later r h =
    let (u, e, h1) = >>=-eq-ok _ _ h in
    let (p, acted, h2) = >>=-eq-ok _ _ h1 in
    let (w, f, h3) = >>=-eq-ok _ _ h2 in
    let first = update_kept P kept t a (fence lease now) (λ j. j) (λ j m. unchanged) u e in
    subst (λ (q : R × Table). All P q.1) (eq_of_ok h3)
      (acted_kept P kept u.1 first result (fence lease later) (λ j. j) (λ j m. unchanged) p w acted
        f)

claim_first-kept :
    (P : Job → Type 0) (kept : Kept P) (t : Table) (a : All P t) (owner : String)
    (duration now current : ℕ)
    → fits 255 (some owner) ≡ true
    → (cs : List Job) → All (λ j. P j × (is_eligible now j ≡ true)) cs
    → (r : Claim × Table) → claim_first owner duration current cs t ≡ ok r
    → All P r.1
unfolding claim_first
claim_first-kept P kept t a owner duration now current sized [] c r h =
    subst (λ (q : Claim × Table). All P q.1) (eq_of_ok h) a
claim_first-kept P kept t a owner duration now current sized (j ∷ cs) c r h =
    elim (Bool-cases (leb j.max_attempts j.attempt_count)) [
      | inl e ↦
          let (_, _, h1) = >>=-eq-ok (exhausted_from_job j) _ (rw e at h) in
          subst (λ (q : Claim × Table). All P q.1) (eq_of_ok h1) a
      | inr e ↦
          let row = claimed_row owner duration current j in
          let (_, flushed, h0) =
            >>=-eq-ok (guard (passes_checks row) integrity_error) _ (rw e at h) in
          let (_, _, h1) = >>=-eq-ok (lease_from_job row (is_running j.status)) _ h0 in
          let fresh = kept j row (claimed now owner duration current c.0.1 e sized) c.0.0 in
          subst (λ (q : Claim × Table). All P q.1) (eq_of_ok h1) (replace_row-All P row t fresh a)
    ]

pub claim_next-kept :
    (P : Job → Type 0) (kept : Kept P) (t : Table) (a : All P t) (owner : String) (duration : ℕ)
    (wanted : Option ℕ) (locked : ℕ → Bool) (now current : ℕ) (r : Claim × Table)
    → claim_next owner duration wanted locked now current t ≡ ok r
    → All P r.1
unfolding claim_next validate_lease_input
claim_next-kept P kept t a owner duration wanted locked now current r h =
    let (_, checked, h1) = >>=-eq-ok _ _ h in
    let (_, sized, _) = >>=-eq-ok _ _ checked in
    claim_first-kept P kept t a owner duration now current (guard-eq-ok _ _ sized)
      (take claim_scan_limit (select_candidates now locked wanted t))
      (All-take _ claim_scan_limit _ (select_candidates-All P now locked wanted t a)) r h1
