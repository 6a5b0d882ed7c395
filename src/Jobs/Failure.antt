-- ===== src/Jobs/Failure.antt =====
-- What `record_failure` (jobs/repositories.py) makes of a Job.
use Prim.Native.String.{String}
use mathlib.Core.List.{Memᴰ}
use veloxrag.Prelude.{
  ℕ, ◌+◌, ◌≡◌, refl, inl, inr, Bool, true, false, not, ◌&&◌, ◌||◌, none, some, [], ◌∷◌, ltb,
  Bool-cases, Option-cases, arith, ap, sym, ◌∙◌, subst, ok, eq_of_ok, eq_of_some, err≢ok, >>=-eq-ok,
  if◌then◌else◌,
}
use veloxrag.Jobs.Row.{Status, cancelled, Job, JobLease, is_running, is_some, fence}
use veloxrag.Jobs.Repository.{Table, update_row, fenced_update}
use veloxrag.Jobs.Outcome.{fail, is_waiting, record_failure, is_failed}
use veloxrag.Jobs.Updates.{behind_row-eq}

abbrev pub is_cancelled : Status → Bool
is_cancelled cancelled = true
is_cancelled _ = false

-- The row that a fenced update has changed, and the changed row.
pub record IsChanged (matches : Job → Bool) (change : Job → Job) (t : Table) (k : Job) (t' : Table)
    : Type 0 where
  pub source : Job
  pub before : Memᴰ source t
  pub matched : matches source ≡ true
  pub changed : change source ≡ k
  pub after : Memᴰ k t'

module _ (matches : Job → Bool) (change : Job → Job) where
  update_row-IsChanged :
      (t : Table) (k : Job) (t' : Table)
      → update_row matches change t ≡ some (k, t')
      → IsChanged matches change t k t'
  unfolding update_row
  update_row-IsChanged [] k t' e = cc
  update_row-IsChanged (j ∷ rest) k t' e = elim (Bool-cases (matches j)) [
    | inl m ↦
        let same = eq_of_some (rw m at e) in
        let row : change j ≡ k = ap (λ (p : Job × Table). p.0) same in
        record {
          source = j;
          before = Memᴰ.head refl;
          matched = m;
          changed = row;
          after = subst (Memᴰ k) (ap (λ (p : Job × Table). p.1) same) (Memᴰ.head (sym row));
        }
    | inr m ↦
        let (r, found, same) = behind_row-eq j k t' (update_row matches change rest) (rw m at e) in
        let deep = update_row-IsChanged rest k r found in
        record {
          source = deep.source;
          before = Memᴰ.tail deep.before;
          matched = deep.matched;
          changed = deep.changed;
          after = subst (Memᴰ k) same (Memᴰ.tail deep.after);
        }
  ]

  pub fenced_update-IsChanged :
      (t : Table) (r : Job × Table)
      → fenced_update matches change t ≡ ok r
      → IsChanged matches change t r.0 r.1
  unfolding fenced_update
  fenced_update-IsChanged t r e = elim (Option-cases (update_row matches change t)) [
    | inl n ↦ absurd (err≢ok _ r (rw (n, fenced_update) at e))
    | inr (s, f) ↦
        update_row-IsChanged t r.0 r.1 (f ∙ ap some (eq_of_ok (rw (f, fenced_update) at e)))
  ]

-- The row `j` before and the row `k` after a failure.
pub record IsFailed (retryable : Bool) (delay now : ℕ) (j k : Job) : Type 0 where
  pub stopped : is_running k.status ≡ false
  pub unowned : (is_some k.lease_owner || is_some k.lease_expires_at) ≡ false
  pub waits :
      is_waiting k.status
      ≡ (not (is_some j.cancel_requested_at) && retryable && ltb j.attempt_count j.max_attempts)
  pub cancels : is_cancelled k.status ≡ is_some j.cancel_requested_at
  pub fails : is_failed k.status ≡ (not (is_waiting k.status) && not (is_cancelled k.status))
  pub retries_at : k.next_retry_at ≡ (if is_waiting k.status then some (now + delay) else none)
  pub finished : k.finished_at ≡ (if is_waiting k.status then none else some now)

fail-IsFailed :
    (retryable : Bool) (code message : String) (delay now : ℕ) (j : Job)
    → IsFailed retryable delay now j (fail retryable code message delay now j)
fail-IsFailed retryable code message delay now j = ground arith

-- A failure that `record_failure` accepts changes a row that the lease fences, to one that is not
-- running and has no owner: cancelled exactly if that was requested, else waiting for a retry, at the
-- end of the delay, exactly if the failure may be retried and an attempt is left, else failed; it is
-- finished now unless it waits. The status returned is the row's.
pub record_failure_outcome :
    (lease : JobLease) (retryable : Bool) (code message : String) (delay now : ℕ) (t : Table)
    (s : Status) (t' : Table)
    → record_failure lease retryable code message delay now t ≡ ok (s, t')
    → (j : Job) × (k : Job) × Memᴰ j t
      × (fence lease now j ≡ true)
      × Memᴰ k t'
      × (k.status ≡ s)
      × IsFailed retryable delay now j k
unfolding record_failure
record_failure_outcome lease retryable code message delay now t s t' h =
    let (_, _, h1) = >>=-eq-ok _ _ h in
    let (r, e, h2) = >>=-eq-ok _ _ h1 in
    let change = fail retryable code message delay now in
    let row = fenced_update-IsChanged (fence lease now) change t r e in
    let same = eq_of_ok h2 in
    (
      row.source,
      r.0,
      row.before,
      row.matched,
      subst (Memᴰ r.0) (ap (λ (p : Status × Table). p.1) same) row.after,
      ap (λ (p : Status × Table). p.0) same,
      subst (IsFailed retryable delay now row.source) row.changed
          (fail-IsFailed retryable code message delay now row.source),
    )
