-- ===== src/Jobs/Outcome.antt =====
-- How a Job leaves `running`: `mark_succeeded`, `mark_cancelled`, `record_failure` and
-- `finalize_exhausted` of jobs/repositories.py.
use Prim.Native.String.{String}
use text.Mathlib.Text.{◌==◌ as str_eq}
use veloxrag.Prelude.{
  guard, ok, ◌>>=◌, ◌>>◌, ℕ, ◌+◌, Bool, true, false, not, ◌&&◌, Option, none, some, ltb, leb, ◌==◌,
  if◌then◌else◌, length, codes,
}
use veloxrag.Jobs.Row.{
  Status, queued, running, retry_wait, succeeded, failed, cancelled, Job, JobLease, ExhaustedJob,
  is_running, is_some, Result, value_error, same_number, same_text, is_text, not_later_than, fence,
}
use veloxrag.Jobs.Repository.{Table, fenced_update, require_row, unleased, Action}

abbrev pub succeed : ℕ → Job → Job
succeed now j = record (unleased j) {
  status = if is_some j.cancel_requested_at then cancelled else succeeded;
  retryable = false;
  next_retry_at = none;
  error_code = none;
  error_message = none;
  finished_at = some now;
}

unfoldable pub mark_succeeded : JobLease → ℕ → Table → Result (Status × Table)
mark_succeeded lease now t = do
  (j, t') ← fenced_update (fence lease now) (succeed now) t
  ok (j.status, t')

abbrev pub cancel : ℕ → Job → Job
cancel now j = record (unleased j) {
  status = cancelled;
  retryable = false;
  next_retry_at = none;
  finished_at = some now;
}

unfoldable pub mark_cancelled : JobLease → ℕ → Table → Result Table
mark_cancelled lease now t = do (_, t') ← fenced_update (fence lease now) (cancel now) t; ok t'

abbrev can_retry : Job → Bool
can_retry j = ltb j.attempt_count j.max_attempts

-- `failure_status`, `failure_next_retry` and `failure_finished`.
abbrev failure_status : Bool → Job → Status
failure_status retryable j = if retryable && can_retry j then retry_wait else failed

abbrev failure_next_retry : Bool → ℕ → ℕ → Job → Option ℕ
failure_next_retry retryable now delay j =
    if retryable && can_retry j then some (now + delay) else none

abbrev failure_finished : Bool → ℕ → Job → Option ℕ
failure_finished retryable now j = if retryable && can_retry j then none else some now

-- The values of `record_failure`: a requested cancellation overrides the failure.
abbrev pub fail : Bool → String → String → ℕ → ℕ → Job → Job
fail retryable code message delay now j =
    let cancelling = is_some j.cancel_requested_at in
    record (unleased j) {
      status = if cancelling then cancelled else failure_status retryable j;
      retryable = if cancelling then false else retryable;
      next_retry_at = if cancelling then none else failure_next_retry retryable now delay j;
      error_code = if cancelling then none else some code;
      error_message = if cancelling then none else some message;
      finished_at = if cancelling then some now else failure_finished retryable now j;
    }

abbrev pub bounded_text : ℕ → String → Bool
bounded_text limit t = leb 1 (length (codes t)) && leb (length (codes t)) limit

-- A delay below 0 is refused by the source and is no number here.
unfoldable pub record_failure :
    JobLease → Bool → String → String → ℕ → ℕ → Table → Result (Status × Table)
record_failure lease retryable code message delay now t = do
  guard (bounded_text 64 code && bounded_text 500 message) value_error
  (j, t') ← fenced_update (fence lease now) (fail retryable code message delay now) t
  ok (j.status, t')

abbrev pub is_queued : Status → Bool
is_queued queued = true
is_queued _ = false

abbrev pub is_waiting : Status → Bool
is_waiting retry_wait = true
is_waiting _ = false

-- The statuses of which `exhausted_fence` makes a condition.
abbrev pub is_claimable : Status → Bool
is_claimable queued = true
is_claimable retry_wait = true
is_claimable running = true
is_claimable _ = false

-- `eligibility` in `exhausted_fence`.
abbrev pub exhausted_eligibility : Status → ℕ → Job → Bool
exhausted_eligibility queued now j = is_queued j.status
exhausted_eligibility retry_wait now j = is_waiting j.status && not_later_than j.next_retry_at now
exhausted_eligibility running now j = is_running j.status && not_later_than j.lease_expires_at now
exhausted_eligibility _ now j = false

-- `exhausted_fence`
unfoldable pub exhausted_fence : ExhaustedJob → ℕ → Job → Bool
exhausted_fence c now j =
    j.id == c.id
    && same_number j.knowledge_base_id c.knowledge_base_id
    && str_eq j.operation c.operation
    && str_eq j.target_type c.target_type
    && j.target_id == c.target_id
    && same_number j.target_revision c.target_revision
    && same_number j.index_generation_id c.index_generation_id
    && same_number j.mutation_id c.mutation_id
    && same_text j.stage c.stage
    && j.attempt_count == c.attempt_count
    && j.max_attempts == c.max_attempts
    && j.attempt_count == j.max_attempts
    && same_number j.next_retry_at c.next_retry_at
    && same_text j.lease_owner c.lease_owner
    && j.lease_epoch == c.lease_epoch
    && same_number j.lease_expires_at c.lease_expires_at
    && same_number j.cancel_requested_at c.cancel_requested_at
    && exhausted_eligibility c.status now j

abbrev pub exhausted_code : String
exhausted_code = "JOB_ATTEMPTS_EXHAUSTED"

abbrev pub exhausted_message : String
exhausted_message = "Job attempts exhausted"

abbrev pub exhaust : ℕ → Job → Job
exhaust now j = record (unleased j) {
  status = failed;
  retryable = false;
  next_retry_at = none;
  error_code = some exhausted_code;
  error_message = some exhausted_message;
  finished_at = some now;
}

abbrev pub is_failed : Status → Bool
is_failed failed = true
is_failed _ = false

-- The row that an action given to `finalize_exhausted` must leave.
unfoldable exhausted_terminal : ExhaustedJob → Job → Bool
exhausted_terminal c j =
    j.id == c.id
    && j.lease_epoch == c.lease_epoch
    && is_failed j.status
    && is_text j.error_code exhausted_code
    && not (is_some j.lease_owner)
    && not (is_some j.lease_expires_at)

-- `finalize_exhausted` with no action, and with one.
unfoldable pub finalize_exhausted : ExhaustedJob → ℕ → Table → Result Table
finalize_exhausted c now t = do
  guard (is_claimable c.status) value_error
  (_, t') ← fenced_update (exhausted_fence c now) (exhaust now) t
  ok t'

unfoldable finalize_exhausted_by : ExhaustedJob → Action (Unit {0}) → Table → Result Table
finalize_exhausted_by c action t = do
  guard (is_claimable c.status) value_error
  (_, t') ← action t
  require_row (exhausted_terminal c) t'
  ok t'
