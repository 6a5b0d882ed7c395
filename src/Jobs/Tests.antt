-- ===== src/Jobs/Tests.antt =====
-- The Jobs repository at concrete inputs.

use mathlib.Core.List.{Memᴰ}
use veloxrag.Prelude.{ok, ◌>>=◌, ℕ, ◌≡◌, refl, true, false, none, some, List, [], ◌∷◌, All, arith}
use veloxrag.Jobs.Row.{
  queued, succeeded, retry_wait, fence, Job, ExhaustedJob, exhausted_from_job, running, JobLease,
  IsValid, lease_of, lease_from_job, held_lease,
}
use veloxrag.Jobs.Repository.{Table, fenced_update, update_row, validate_lease_input}
use veloxrag.Jobs.Claim.{
  Claim, leased, exhausted, claim_next, claim_first, claimed_row, replace_row, select_candidates,
  insert_ordered, comes_before, is_eligible, is_wanted,
}
use veloxrag.Jobs.Steps.{Request, claim, beat, save, fail, serve_all}
use veloxrag.Jobs.Choice.{IsOldest, IsTaken, is_candidate, claim_next-IsOldest}
use veloxrag.Jobs.Outcome
use veloxrag.Jobs.Outcome.{finalize_exhausted, record_failure}
use veloxrag.Jobs.Failure.{IsFailed, record_failure_outcome}
use veloxrag.Jobs.Exhaustion.{IsClosed, claim_next_closes}
use veloxrag.Jobs.Fencing.{IsShutOut, takeover-IsShutOut}
use veloxrag.Jobs.Invariants.{serve_all-IsValid, terminal-Frozen, Frozen}

-- A Job of a document, queued.
abbrev fresh_job : ℕ → ℕ → Job
fresh_job id created_at = record {
  id = id;
  knowledge_base_id = some 1;
  operation = "ingest_document";
  target_type = "document";
  target_id = 7;
  target_revision = some 2;
  index_generation_id = none;
  mutation_id = none;
  stage = some "parsing";
  resume_stage = none;
  status = queued;
  progress_current = 0;
  progress_total = none;
  attempt_count = 0;
  max_attempts = 3;
  retryable = true;
  next_retry_at = none;
  error_code = none;
  error_message = none;
  lease_owner = none;
  lease_epoch = 0;
  lease_expires_at = none;
  worker_heartbeat_at = none;
  cancel_requested_at = none;
  created_at = created_at;
  started_at = none;
  finished_at = none;
}

abbrev done_job : Job
done_job = record (fresh_job 3 1) { status = succeeded; finished_at = some 9 }

-- Job 2 is older than Job 1, and its lease ran out at 100.
abbrev stale_job : Job
stale_job = claimed_row "worker_a" 60 40 (fresh_job 2 5)

abbrev old_lease : JobLease
old_lease = lease_of stale_job false "worker_a" 100

abbrev two_jobs : Table
two_jobs = fresh_job 1 10 ∷ stale_job ∷ []

abbrev new_lease : JobLease
new_lease = lease_of (claimed_row "worker_b" 60 200 stale_job) true "worker_b" 260

abbrev taken_over : Table
taken_over = fresh_job 1 10 ∷ claimed_row "worker_b" 60 200 stale_job ∷ []

abbrev requests : List (Request Unit)
requests =
    claim "worker_b" 60 none (λ i. false) 200 200
    ∷ beat old_lease 60 210
    ∷ save new_lease (some "chunking") none 3 (some 5) 215
    ∷ fail new_lease true "PARSE" "no text" 30 220
    ∷ []

fresh_job-IsValid : (i c : ℕ) → IsValid (fresh_job i c)
fresh_job-IsValid i c = record {
  progress = refl;
  attempts = refl;
  attempt_limit = refl;
  lease_state = refl;
  owner_length = refl;
  stage_length = refl;
  resume_length = refl;
  code_length = refl;
  message_length = refl;
  claimed = refl;
}

stale_job-IsValid : IsValid stale_job
stale_job-IsValid = record {
  progress = refl;
  attempts = refl;
  attempt_limit = refl;
  lease_state = refl;
  owner_length = refl;
  stage_length = refl;
  resume_length = refl;
  code_length = refl;
  message_length = refl;
  claimed = refl;
}

two_jobs-IsValid : All IsValid two_jobs
two_jobs-IsValid = (fresh_job-IsValid 1 10, (stale_job-IsValid, tt))

taken :
    claim_next "worker_b" 60 none (λ i. false) 200 200 two_jobs ≡ ok (leased new_lease, taken_over)
unfolding claim_next validate_lease_input select_candidates insert_ordered comes_before is_eligible
    is_wanted claim_first lease_from_job held_lease replace_row ◌>>=◌
taken = refl

serve_all-IsValid_example : All IsValid (serve_all Unit requests two_jobs)
serve_all-IsValid_example =
    serve_all-IsValid Unit requests two_jobs (tt, (tt, ((refl, refl), (tt, tt)))) two_jobs-IsValid

terminal-Frozen_example : All (Frozen done_job) (serve_all Unit requests (done_job ∷ []))
terminal-Frozen_example =
    terminal-Frozen Unit done_job requests (done_job ∷ []) refl (tt, (tt, ((refl, refl), (tt, tt))))
      (λ _. refl, tt)

takeover-IsShutOut_example : IsShutOut Unit old_lease (serve_all Unit requests taken_over)
takeover-IsShutOut_example =
    takeover-IsShutOut Unit old_lease "worker_b" 60 none (λ i. false) 200 200 two_jobs new_lease
      taken_over requests (λ same. omega arith, (λ same. omega arith, tt)) taken refl
      (tt, (tt, ((refl, refl), (tt, tt))))

claim_next-IsOldest_example :
    (j : Job) × IsOldest (is_candidate 200 (λ i. false) none) j two_jobs
    × IsTaken "worker_b" 60 200 j two_jobs new_lease taken_over
claim_next-IsOldest_example =
    claim_next-IsOldest "worker_b" 60 none (λ i. false) 200 200 two_jobs new_lease taken_over taken

-- Job 4 has spent its three attempts, and its last lease ran out at 100.
abbrev spent_job : Job
spent_job = record (claimed_row "worker_a" 60 40 (fresh_job 4 2)) { attempt_count = 3 }

abbrev spent : ExhaustedJob
spent = record {
  id = 4;
  knowledge_base_id = some 1;
  operation = "ingest_document";
  target_type = "document";
  target_id = 7;
  target_revision = some 2;
  index_generation_id = none;
  stage = some "parsing";
  status = running;
  attempt_count = 3;
  max_attempts = 3;
  next_retry_at = none;
  lease_owner = some "worker_a";
  lease_epoch = 1;
  lease_expires_at = some 100;
  cancel_requested_at = none;
  mutation_id = none;
}

found_spent :
    claim_next "worker_b" 60 none (λ i. false) 200 200 (spent_job ∷ [])
    ≡ ok (exhausted spent, spent_job ∷ [])
unfolding claim_next validate_lease_input select_candidates insert_ordered comes_before is_eligible
    is_wanted claim_first exhausted_from_job ◌>>=◌
found_spent = refl

claim_next_closes_example :
    (closed : Table) × (finalize_exhausted spent 200 (spent_job ∷ []) ≡ ok closed)
    × IsClosed spent 200 (spent_job ∷ []) closed
claim_next_closes_example =
    claim_next_closes "worker_b" 60 none (λ i. false) 200 200 (spent_job ∷ []) spent
      (spent_job ∷ []) found_spent

-- The row that the failure of Job 2 under its first lease leaves.
abbrev retried_job : Job
retried_job = Outcome.fail true "PARSE" "no text" 30 50 stale_job

failed_once :
    record_failure old_lease true "PARSE" "no text" 30 50 (stale_job ∷ [])
    ≡ ok (retry_wait, retried_job ∷ [])
unfolding record_failure fenced_update update_row fence ◌>>=◌
failed_once = refl

record_failure_outcome_example :
    (j : Job) × (k : Job) × Memᴰ j (stale_job ∷ [])
    × (fence old_lease 50 j ≡ true)
    × Memᴰ k (retried_job ∷ [])
    × (k.status ≡ retry_wait)
    × IsFailed true 30 50 j k
record_failure_outcome_example =
    record_failure_outcome old_lease true "PARSE" "no text" 30 50 (stale_job ∷ []) retry_wait
      (retried_job ∷ []) failed_once
