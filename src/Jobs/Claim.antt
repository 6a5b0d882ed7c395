-- ===== src/Jobs/Claim.antt =====
-- `claim_next` of jobs/repositories.py: which Job a Worker gets.
use Prim.Native.String.{String}
use veloxrag.Prelude.{
  ok, ◌>>=◌, ◌>>◌, ℕ, ◌+◌, Bool, true, not, ◌&&◌, ◌||◌, Option, none, some, List, [], ◌∷◌, ltb, leb,
  ◌==◌, if◌then◌else◌, take, guard,
}
use veloxrag.Jobs.Row.{
  running, Job, JobLease, ExhaustedJob, is_running, Result, lease_from_job, exhausted_from_job,
  not_later_than, passes_checks, integrity_error,
}
use veloxrag.Jobs.Repository.{Table, validate_lease_input}
use veloxrag.Jobs.Outcome.{is_queued, is_waiting}

-- `eligibility`
unfoldable pub is_eligible : ℕ → Job → Bool
is_eligible now j =
    is_queued j.status
    || (is_waiting j.status && not_later_than j.next_retry_at now)
    || (is_running j.status && not_later_than j.lease_expires_at now)

-- `WHERE id = …`, if the Worker asks for one Job.
unfoldable pub is_wanted : Option ℕ → Job → Bool
is_wanted none j = true
is_wanted (some id) j = j.id == id

-- `ORDER BY created_at, id`
unfoldable pub comes_before : Job → Job → Bool
comes_before a b = ltb a.created_at b.created_at || (a.created_at == b.created_at && leb a.id b.id)

unfoldable pub insert_ordered : Job → List Job → List Job
unfolding comes_before
insert_ordered j [] = j ∷ []
insert_ordered j (k ∷ rest) = if comes_before j k then j ∷ k ∷ rest else k ∷ insert_ordered j rest

-- The statement: eligible rows that no other transaction has locked (`skip_locked`), in order.
unfoldable pub select_candidates : ℕ → (ℕ → Bool) → Option ℕ → Table → List Job
unfolding is_eligible is_wanted insert_ordered
select_candidates now locked wanted [] = []
select_candidates now locked wanted (j ∷ rest) =
    let later = select_candidates now locked wanted rest in
    if is_eligible now j && is_wanted wanted j && not (locked j.id)
    then insert_ordered j later
    else later

abbrev pub claim_scan_limit : ℕ
claim_scan_limit = 32

-- The values that `claim_next` writes.
abbrev pub claimed_row : String → ℕ → ℕ → Job → Job
claimed_row owner duration current j = record j {
  status = running;
  attempt_count = j.attempt_count + 1;
  lease_epoch = j.lease_epoch + 1;
  lease_owner = some owner;
  lease_expires_at = some (current + duration);
  worker_heartbeat_at = some current;
  started_at = elim j.started_at [ none ↦ some current | some t ↦ some t ];
  finished_at = none;
  next_retry_at = none;
  error_code = none;
  error_message = none;
}

-- What a claim gives: nothing, a Job to close, or a lease.
pub data Claim : Type 0 where
  nothing : Claim
  exhausted : ExhaustedJob → Claim
  leased : JobLease → Claim

-- `UPDATE … WHERE id = …`, which the flush writes.
unfoldable pub replace_row : Job → Table → Table
replace_row j [] = []
replace_row j (k ∷ rest) = (if k.id == j.id then j else k) ∷ replace_row j rest

-- The loop over the candidates: each of them ends it. The flush raises where the row breaks a check
-- constraint. The time of the lease is in the calendar.
unfoldable pub claim_first : String → ℕ → ℕ → List Job → Table → Result (Claim × Table)
unfolding passes_checks
claim_first owner duration current [] t = ok (nothing, t)
claim_first owner duration current (j ∷ _) t =
    if leb j.max_attempts j.attempt_count
    then (do closed ← exhausted_from_job j; ok (exhausted closed, t))
    else (do
      guard (passes_checks (claimed_row owner duration current j)) integrity_error
      lease ← lease_from_job (claimed_row owner duration current j) (is_running j.status)
      ok (leased lease, replace_row (claimed_row owner duration current j) t))

-- `now` is the clock in the statement, `current` the clock that is read for the lease.
unfoldable pub claim_next :
    String → ℕ → Option ℕ → (ℕ → Bool) → ℕ → ℕ → Table → Result (Claim × Table)
claim_next owner duration wanted locked now current t = do
  validate_lease_input owner duration
  claim_first owner duration current (take claim_scan_limit (select_candidates now locked wanted t))
      t
