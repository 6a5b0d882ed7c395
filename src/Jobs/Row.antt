-- ===== src/Jobs/Row.antt =====
-- The rows of the `jobs` table (db/models/documents.py) with their check constraints, and the leases
-- and snapshots that jobs/repositories.py reads from them. Identifiers are numbers, times are
-- microseconds.
use Prim.Native.String.{String}
use text.Mathlib.Text.{◌==◌ as str_eq}
use veloxrag.Prelude.{
  ℕ, ◌≡◌, Bool, true, false, not, ◌&&◌, ◌||◌, Option, none, some, ltb, leb, ◌==◌, if◌then◌else◌,
  length, codes, Checked, ok, err,
}

pub data Status : Type 0 where
  queued running retry_wait succeeded failed cancelled : Status

-- The columns that the operations read or write: without `parent_job_id`, `root_job_id` and
-- `idempotency_key`, which the manual retry sets. The columns that name the target are never written,
-- but for `target_revision`.
pub record Job : Type 0 where
  pub id : ℕ
  pub knowledge_base_id : Option ℕ
  pub operation : String
  pub target_type : String
  pub target_id : ℕ
  pub target_revision : Option ℕ
  pub index_generation_id : Option ℕ
  pub mutation_id : Option ℕ
  pub stage : Option String
  pub resume_stage : Option String
  pub status : Status
  pub progress_current : ℕ
  pub progress_total : Option ℕ
  pub attempt_count : ℕ
  pub max_attempts : ℕ
  pub retryable : Bool
  pub next_retry_at : Option ℕ
  pub error_code : Option String
  pub error_message : Option String
  pub lease_owner : Option String
  pub lease_epoch : ℕ
  pub lease_expires_at : Option ℕ
  pub worker_heartbeat_at : Option ℕ
  pub cancel_requested_at : Option ℕ
  pub created_at : ℕ
  pub started_at : Option ℕ
  pub finished_at : Option ℕ

abbrev pub is_running : Status → Bool
is_running running = true
is_running _ = false

abbrev pub is_terminal : Status → Bool
is_terminal succeeded = true
is_terminal failed = true
is_terminal cancelled = true
is_terminal _ = false

abbrev pub is_some {ℓ} : {A : Type ℓ} → Option A → Bool
is_some none = false
is_some (some _) = true

-- A text that is NULL or has from 1 to `limit` characters.
abbrev pub fits : ℕ → Option String → Bool
fits limit none = true
fits limit (some t) = leb 1 (length (codes t)) && leb (length (codes t)) limit

-- ck_jobs_progress
abbrev pub progress_ok : ℕ → Option ℕ → Bool
progress_ok current none = true
progress_ok current (some total) = leb current total

-- ck_jobs_lease_state_invariant
abbrev pub lease_ok : Bool → Option String → Option ℕ → Option ℕ → Bool
lease_ok true owner expires heartbeat = is_some owner && is_some expires && is_some heartbeat
lease_ok false owner expires heartbeat = not (is_some owner) && not (is_some expires)

-- The check constraints of the table on what the repository writes, and what they do not say: a
-- running Job has been claimed at least once.
pub record IsValid (j : Job) : Type 0 where
  pub progress : progress_ok j.progress_current j.progress_total ≡ true
  pub attempts : leb j.attempt_count j.max_attempts ≡ true
  pub attempt_limit : (leb 1 j.max_attempts && leb j.max_attempts 100) ≡ true
  pub lease_state :
      lease_ok (is_running j.status) j.lease_owner j.lease_expires_at j.worker_heartbeat_at ≡ true
  pub owner_length : fits 255 j.lease_owner ≡ true
  pub stage_length : fits 64 j.stage ≡ true
  pub resume_length : fits 64 j.resume_stage ≡ true
  pub code_length : fits 64 j.error_code ≡ true
  pub message_length : fits 500 j.error_message ≡ true
  pub claimed : (not (is_running j.status) || ltb 0 j.attempt_count) ≡ true

-- The check constraints that a flush of a row comes upon.
unfoldable pub passes_checks : Job → Bool
passes_checks j =
    progress_ok j.progress_current j.progress_total
    && leb j.attempt_count j.max_attempts
    && (leb 1 j.max_attempts && leb j.max_attempts 100)
    && lease_ok (is_running j.status) j.lease_owner j.lease_expires_at j.worker_heartbeat_at
    && fits 255 j.lease_owner
    && fits 64 j.stage
    && fits 64 j.resume_stage
    && fits 64 j.error_code
    && fits 500 j.error_message

pub IsValid-passes_checks : (j : Job) → IsValid j → passes_checks j ≡ true
unfolding passes_checks
IsValid-passes_checks j v = rw (
  v.progress, v.attempts, v.attempt_limit, v.lease_state, v.owner_length, v.stage_length,
  v.resume_length, v.code_length, v.message_length,
)

-- `JobLease`
pub record JobLease : Type 0 where
  pub id : ℕ
  pub operation : String
  pub target_type : String
  pub target_id : ℕ
  pub target_revision : Option ℕ
  pub index_generation_id : Option ℕ
  pub stage : Option String
  pub resume_stage : Option String
  pub progress_current : ℕ
  pub progress_total : Option ℕ
  pub attempt_count : ℕ
  pub max_attempts : ℕ
  pub lease_owner : String
  pub lease_epoch : ℕ
  pub lease_expires_at : ℕ
  pub cancel_requested_at : Option ℕ
  pub mutation_id : Option ℕ
  pub recovered : Bool

-- `ExhaustedJob`
pub record ExhaustedJob : Type 0 where
  pub id : ℕ
  pub knowledge_base_id : Option ℕ
  pub operation : String
  pub target_type : String
  pub target_id : ℕ
  pub target_revision : Option ℕ
  pub index_generation_id : Option ℕ
  pub stage : Option String
  pub status : Status
  pub attempt_count : ℕ
  pub max_attempts : ℕ
  pub next_retry_at : Option ℕ
  pub lease_owner : Option String
  pub lease_epoch : ℕ
  pub lease_expires_at : Option ℕ
  pub cancel_requested_at : Option ℕ
  pub mutation_id : Option ℕ

-- What the operations raise.
pub data Error : Type 0 where
  lost_lease value_error integrity_error : Error

abbrev pub Result {ℓ} : Type ℓ → Type ℓ
Result A = Checked Error A

-- The lease that a row holds, with its owner and its end.
abbrev pub lease_of : Job → Bool → String → ℕ → JobLease
lease_of j recovered owner expires = record {
  id = j.id;
  operation = j.operation;
  target_type = j.target_type;
  target_id = j.target_id;
  target_revision = j.target_revision;
  index_generation_id = j.index_generation_id;
  stage = j.stage;
  resume_stage = j.resume_stage;
  progress_current = j.progress_current;
  progress_total = j.progress_total;
  attempt_count = j.attempt_count;
  max_attempts = j.max_attempts;
  lease_owner = owner;
  lease_epoch = j.lease_epoch;
  lease_expires_at = expires;
  cancel_requested_at = j.cancel_requested_at;
  mutation_id = j.mutation_id;
  recovered = recovered;
}

unfoldable pub held_lease : Bool → Option String → Option ℕ → Job → Bool → Result JobLease
held_lease true (some owner) (some expires) j recovered = ok (lease_of j recovered owner expires)
held_lease true (some owner) none j recovered = err value_error
held_lease true none expires j recovered = err value_error
held_lease false owner expires j recovered = err value_error

-- `lease_from_job`
unfoldable pub lease_from_job : Job → Bool → Result JobLease
unfolding held_lease
lease_from_job j recovered =
    held_lease (is_running j.status) j.lease_owner j.lease_expires_at j recovered

-- `exhausted_from_job`
unfoldable pub exhausted_from_job : Job → Result ExhaustedJob
exhausted_from_job j =
    if j.attempt_count == j.max_attempts
    then ok (record {
      id = j.id;
      knowledge_base_id = j.knowledge_base_id;
      operation = j.operation;
      target_type = j.target_type;
      target_id = j.target_id;
      target_revision = j.target_revision;
      index_generation_id = j.index_generation_id;
      stage = j.stage;
      status = j.status;
      attempt_count = j.attempt_count;
      max_attempts = j.max_attempts;
      next_retry_at = j.next_retry_at;
      lease_owner = j.lease_owner;
      lease_epoch = j.lease_epoch;
      lease_expires_at = j.lease_expires_at;
      cancel_requested_at = j.cancel_requested_at;
      mutation_id = j.mutation_id;
    })
    else err value_error

-- `is_not_distinct_from`
abbrev pub same_number : Option ℕ → Option ℕ → Bool
same_number none none = true
same_number (some a) (some b) = a == b
same_number _ _ = false

abbrev pub same_text : Option String → Option String → Bool
same_text none none = true
same_text (some a) (some b) = str_eq a b
same_text _ _ = false

-- `column > time` and `column <= time`: NULL compares as unknown, which selects nothing.
abbrev pub later_than : Option ℕ → ℕ → Bool
later_than none now = false
later_than (some t) now = ltb now t

abbrev pub not_later_than : Option ℕ → ℕ → Bool
not_later_than none now = false
not_later_than (some t) now = leb t now

abbrev pub is_text : Option String → String → Bool
is_text none t = false
is_text (some s) t = str_eq s t

-- `_fence`
unfoldable pub fence : JobLease → ℕ → Job → Bool
fence lease now j =
    j.id == lease.id
    && is_running j.status
    && is_text j.lease_owner lease.lease_owner
    && j.lease_epoch == lease.lease_epoch
    && same_number j.mutation_id lease.mutation_id
    && later_than j.lease_expires_at now

-- `_stage_fence`
unfoldable pub stage_fence : JobLease → ℕ → Job → Bool
unfolding fence
stage_fence lease now j = fence lease now j && same_text j.stage lease.stage
