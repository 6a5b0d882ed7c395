-- ===== src/Jobs/Repository.antt =====
-- The fenced writes of `SqlAlchemyJobRepository` (jobs/repositories.py). A table is the list of its
-- rows; an operation gives the table that it leaves, or raises and leaves the one before, since the
-- caller's transaction rolls back. `now` is the database's clock at a statement.
use Prim.Native.String.{String}
use text.Mathlib.Text.{◌==◌ as str_eq}
use veloxrag.Prelude.{
  err, guard, ok, ◌>>=◌, ◌>>◌, ℕ, ◌+◌, ◌-◌, Bool, true, false, not, ◌&&◌, ◌||◌, Option, none, some,
  List, [], ◌∷◌, ltb, leb, ◌==◌, if◌then◌else◌, length, codes,
}
use veloxrag.Jobs.Row.{
  Status, queued, Job, JobLease, is_terminal, is_some, progress_ok, Result, lost_lease, value_error,
  lease_from_job, fence, stage_fence,
}

abbrev pub Table : Type 0
Table = List Job

abbrev pub behind_row : Job → Option (Job × Table) → Option (Job × Table)
behind_row j none = none
behind_row j (some (changed, rest)) = some (changed, j ∷ rest)

-- `UPDATE … WHERE … RETURNING`: the fences fix the primary key, so at most one row matches.
unfoldable pub update_row : (Job → Bool) → (Job → Job) → Table → Option (Job × Table)
update_row matches change [] = none
update_row matches change (j ∷ rest) =
    if matches j
    then some (change j, change j ∷ rest)
    else behind_row j (update_row matches change rest)

-- A fenced update, which raises where no row is returned.
unfoldable pub fenced_update : (Job → Bool) → (Job → Job) → Table → Result (Job × Table)
fenced_update matches change t = elim (update_row matches change t) [
  | none ↦ err lost_lease
  | some r ↦ ok r
]

-- `_validate_progress`, on numbers that are not negative.
unfoldable pub validate_progress : ℕ → Option ℕ → Result (Unit {0})
validate_progress current total = guard (progress_ok current total) value_error

-- `_validate_lease_input`; a duration that is not positive is 0.
unfoldable pub validate_lease_input : String → ℕ → Result (Unit {0})
validate_lease_input owner duration = do
  guard (leb 1 (length (codes owner)) && leb (length (codes owner)) 255) value_error
  guard (ltb 0 duration) value_error

-- The values that end a lease.
abbrev pub unleased : Job → Job
unleased j = record j { lease_owner = none; lease_expires_at = none; worker_heartbeat_at = none }

abbrev pub extend_lease : ℕ → ℕ → Job → Job
extend_lease now duration j = record j {
  worker_heartbeat_at = some now;
  lease_expires_at = some (now + duration);
}

unfoldable pub heartbeat : JobLease → ℕ → ℕ → Table → Result (JobLease × Table)
heartbeat lease duration now t = do
  guard (ltb 0 duration) value_error
  (j, t') ← fenced_update (fence lease now) (extend_lease now duration) t
  renewed ← lease_from_job j false
  ok (renewed, t')

-- The row that a fence selects, if there is one.
unfoldable pub select_row : (Job → Bool) → Table → Option Job
select_row matches [] = none
select_row matches (j ∷ rest) = if matches j then some j else select_row matches rest

unfoldable pub cancellation_requested : JobLease → ℕ → Table → Result Bool
cancellation_requested lease now t = elim (select_row (fence lease now) t) [
  | none ↦ err lost_lease
  | some j ↦ ok (is_some j.cancel_requested_at)
]

-- The database refuses a count below 0; a claimed Job has one above it.
abbrev pub requeue : Job → Job
requeue j = record (unleased j) {
  status = queued;
  attempt_count = j.attempt_count - 1;
  retryable = true;
  next_retry_at = none;
  error_code = none;
  error_message = none;
  finished_at = none;
}

unfoldable pub release_claim : JobLease → ℕ → Table → Result Table
release_claim lease now t = do (_, t') ← fenced_update (fence lease now) requeue t; ok t'

abbrev pub set_progress : ℕ → Option ℕ → Job → Job
set_progress current total j = record j { progress_current = current; progress_total = total }

abbrev pub set_stage : Option String → Option String → ℕ → Option ℕ → Job → Job
set_stage stage resume_stage current total j = record j {
  stage = stage;
  resume_stage = resume_stage;
  progress_current = current;
  progress_total = total;
}

unfoldable pub checkpoint :
    JobLease → Option String → Option String → ℕ → Option ℕ → ℕ → Table → Result Table
checkpoint lease stage resume_stage current total now t = do
  validate_progress current total
  (_, t') ← fenced_update (fence lease now) (set_stage stage resume_stage current total) t
  ok t'

-- What a caller does inside the transaction, between two statements.
abbrev pub Action : Type 0 → Type 0
Action R = Table → Result (R × Table)

-- `SELECT id … WHERE …`, which raises where it selects nothing.
unfoldable pub require_row : (Job → Bool) → Table → Result (Unit {0})
require_row matches t = guard (is_some (select_row matches t)) lost_lease

abbrev pub stage_name_ok : String → Bool
stage_name_ok stage = leb 1 (length (codes stage)) && leb (length (codes stage)) 64

unfoldable pub advance_stage :
    {R : Type 0}
    → JobLease
    → Action R
    → String
    → String
    → ℕ
    → Option ℕ
    → ℕ
    → ℕ
    → Table
    → Result (R × JobLease × Table)
advance_stage lease action stage resume_stage current total now later t = do
  guard (stage_name_ok stage && stage_name_ok resume_stage) value_error
  validate_progress current total
  require_row (stage_fence lease now) t
  (result, t') ← action t
  (j, t'') ←
      fenced_update (stage_fence lease later)
        (set_stage (some stage) (some resume_stage) current total) t'
  advanced ← lease_from_job j false
  ok (result, advanced, t'')

unfoldable pub commit_stage_facts :
    {R : Type 0} → JobLease → Action R → ℕ → ℕ → Table → Result (R × Table)
commit_stage_facts lease action now later t = do
  require_row (stage_fence lease now) t
  (result, t') ← action t
  (_, t'') ← fenced_update (stage_fence lease later) (λ j. j) t'
  ok (result, t'')

unfoldable pub commit_stage_checkpoint :
    {R : Type 0}
    → JobLease
    → Action R
    → ℕ
    → Option ℕ
    → ℕ
    → ℕ
    → Table
    → Result (R × JobLease × Table)
commit_stage_checkpoint lease action current total now later t = do
  validate_progress current total
  require_row (stage_fence lease now) t
  (result, t') ← action t
  (j, t'') ← fenced_update (stage_fence lease later) (set_progress current total) t'
  committed ← lease_from_job j false
  ok (result, committed, t'')

-- `fence_activation` runs before and after the action.
unfoldable pub prepare_activation :
    {R : Type 0} → JobLease → Action R → ℕ → ℕ → Table → Result (R × Table)
prepare_activation lease action now later t = do
  (_, fenced) ← fenced_update (fence lease now) (λ j. j) t
  (result, t') ← action fenced
  (_, t'') ← fenced_update (fence lease later) (λ j. j) t'
  ok (result, t'')

-- The terminal row that the domain's transaction must leave.
unfoldable terminal_fence : JobLease → Job → Bool
terminal_fence lease j =
    j.id == lease.id
    && j.lease_epoch == lease.lease_epoch
    && is_terminal j.status
    && not (is_some j.lease_owner)
    && not (is_some j.lease_expires_at)

-- The status that `terminal_status_observer` is told stands beside the result.
unfoldable finalize_domain :
    {R : Type 0} → JobLease → Action R → Table → Result (R × Status × Table)
finalize_domain lease action t = do
  (result, t') ← action t
  elim (select_row (terminal_fence lease) t') [
    | none ↦ err lost_lease
    | some j ↦ ok (result, j.status, t')
  ]

-- The fields of `RebuildTargetRefresh`, which the caller's action makes and which has passed its own
-- checks then.
pub record RebuildTargetRefresh : Type 0 where
  pub target_revision : ℕ
  pub progress_total : ℕ
  pub fingerprint : String

unfoldable pub is_rebuild_stage : Option String → Bool
is_rebuild_stage none = false
is_rebuild_stage (some stage) =
    str_eq stage "indexing" || str_eq stage "validating" || str_eq stage "complete"

abbrev pub restart_rebuild : RebuildTargetRefresh → Job → Job
restart_rebuild refresh j = record j {
  target_revision = some refresh.target_revision;
  stage = some "indexing";
  resume_stage = some "indexing";
  progress_current = 0;
  progress_total = some refresh.progress_total;
}

unfoldable pub reset_rebuild_target :
    JobLease
    → Action RebuildTargetRefresh
    → ℕ
    → Table
    → Result (RebuildTargetRefresh × JobLease × Table)
reset_rebuild_target lease action now t = do
  guard
      (str_eq lease.operation "rebuild_generation"
        && str_eq lease.target_type "index_generation"
        && is_rebuild_stage lease.stage)
      value_error
  (refresh, t') ← action t
  (j, t'') ← fenced_update (stage_fence lease now) (restart_rebuild refresh) t'
  reset ← lease_from_job j false
  ok (refresh, reset, t'')
