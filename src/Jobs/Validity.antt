-- ===== src/Jobs/Validity.antt =====
-- The values that jobs/repositories.py writes against the check constraints of the `jobs` table.
use Prim.Native.String.{String}
use veloxrag.Prelude.{ℕ, ◌≡◌, Bool, true, false, ◌&&◌, Option, some, arith, leb, &&-true, ==_iff}
use veloxrag.Jobs.Row.{
  Job, JobLease, IsValid, is_running, fits, progress_ok, fence, later_than, is_text, same_number,
}
use veloxrag.Jobs.Repository.{extend_lease, requeue, set_progress, set_stage}
use veloxrag.Jobs.Outcome.{succeed, cancel, fail, exhaust, bounded_text}
use veloxrag.Jobs.Claim.{claimed_row}

-- What a row that passes the fence has in common with the lease.
pub record Held (lease : JobLease) (now : ℕ) (j : Job) : Type 0 where
  pub same_id : j.id ≡ lease.id
  pub runs : is_running j.status ≡ true
  pub same_owner : is_text j.lease_owner lease.lease_owner ≡ true
  pub same_epoch : j.lease_epoch ≡ lease.lease_epoch
  pub same_mutation : same_number j.mutation_id lease.mutation_id ≡ true
  pub live : later_than j.lease_expires_at now ≡ true

pub fence-Held :
    (lease : JobLease) (now : ℕ) (j : Job) → fence lease now j ≡ true → Held lease now j
unfolding fence
fence-Held lease now j h =
    let (h5, live) = &&-true _ _ h in
    let (h4, mutation) = &&-true _ _ h5 in
    let (h3, epoch) = &&-true _ _ h4 in
    let (h2, owner) = &&-true _ _ h3 in
    let (id, runs) = &&-true _ _ h2 in
    record {
      same_id = (==_iff j.id lease.id).0 id;
      runs = runs;
      same_owner = owner;
      same_epoch = (==_iff j.lease_epoch lease.lease_epoch).0 epoch;
      same_mutation = mutation;
      live = live;
    }

module _ (j : Job) (v : IsValid j) where
  pub extend_lease-IsValid :
      (now duration : ℕ) → is_running j.status ≡ true → IsValid (extend_lease now duration j)
  extend_lease-IsValid now duration h = ground arith

  pub requeue-IsValid : is_running j.status ≡ true → IsValid (requeue j)
  requeue-IsValid h = ground arith

  pub set_progress-IsValid :
      (current : ℕ) (total : Option ℕ)
      → progress_ok current total ≡ true
      → IsValid (set_progress current total j)
  set_progress-IsValid current total h = ground arith

  pub set_stage-IsValid :
      (stage resume_stage : Option String) (current : ℕ) (total : Option ℕ)
      → fits 64 stage ≡ true
      → fits 64 resume_stage ≡ true
      → progress_ok current total ≡ true
      → IsValid (set_stage stage resume_stage current total j)
  set_stage-IsValid stage resume_stage current total a b c = ground arith

  pub succeed-IsValid : (now : ℕ) → IsValid (succeed now j)
  succeed-IsValid now = ground arith

  pub cancel-IsValid : (now : ℕ) → IsValid (cancel now j)
  cancel-IsValid now = ground arith

  pub fail-IsValid :
      (retryable : Bool) (code message : String) (delay now : ℕ)
      → (bounded_text 64 code && bounded_text 500 message) ≡ true
      → IsValid (fail retryable code message delay now j)
  fail-IsValid retryable code message delay now h = ground arith

  pub exhaust-IsValid : (now : ℕ) → IsValid (exhaust now j)
  exhaust-IsValid now = ground arith

  pub claimed_row-IsValid :
      (owner : String) (duration current : ℕ)
      → fits 255 (some owner) ≡ true
      → leb j.max_attempts j.attempt_count ≡ false
      → IsValid (claimed_row owner duration current j)
  claimed_row-IsValid owner duration current a b = ground arith
