-- ===== src/Jobs/Exhaustion.antt =====
-- Jobs without an attempt left: `claim_next` and `finalize_exhausted` of jobs/repositories.py.
use Prim.Native.String.{String}
use mathlib.Core.List.{Memᴰ}
use text.Mathlib.Text.{◌==◌ as str_eq}
use text.Mathlib.TextEquality.{eq_iff}
use veloxrag.Prelude.{
  guard, ℕ, ◌≡◌, ◌≢◌, refl, inl, inr, Bool, true, false, sym, Option, none, some, List, [], ◌∷◌,
  leb, ◌==◌, ==_iff, Bool-cases, &&-true, arith, ap, ◌∙◌, subst, ok, ◌>>=◌, eq_of_ok, err≢ok,
  >>=-eq-ok, take,
}
use veloxrag.Jobs.Row.{
  passes_checks, integrity_error, Job, JobLease, ExhaustedJob, is_running, same_number, same_text,
  exhausted_from_job, lease_from_job,
}
use veloxrag.Jobs.Repository.{Table, update_row, fenced_update}
use veloxrag.Jobs.Outcome.{
  exhausted_fence, exhausted_eligibility, is_claimable, exhaust, is_failed, exhausted_code,
  finalize_exhausted,
}
use veloxrag.Jobs.Claim.{
  Claim, nothing, exhausted, leased, claim_next, claim_first, claimed_row, is_eligible,
  select_candidates, claim_scan_limit,
}
use veloxrag.Jobs.Failure.{IsChanged, fenced_update-IsChanged}
use veloxrag.Jobs.Choice.{IsFirst, is_candidate, select_candidates-IsFirst}

same_number_refl : (o : Option ℕ) → same_number o o ≡ true
same_number_refl none = refl
same_number_refl (some n) = (==_iff n n).1 refl

==_refl : (n : ℕ) → (n == n) ≡ true
==_refl n = (==_iff n n).1 refl

str_eq_refl : (s : String) → str_eq s s ≡ true
str_eq_refl s = (eq_iff s s).1 refl

same_text_refl : (o : Option String) → same_text o o ≡ true
same_text_refl none = refl
same_text_refl (some s) = str_eq_refl s

eligible_closes :
    (now : ℕ) (j : Job)
    → is_eligible now j ≡ true
    → (is_claimable j.status ≡ true) × (exhausted_eligibility j.status now j ≡ true)
unfolding is_eligible
eligible_closes now j h = ground arith

-- The snapshot of a row that has no attempt left is of that row.
snapshot-fence :
    (now : ℕ) (j : Job) (c : ExhaustedJob)
    → exhausted_from_job j ≡ ok c
    → is_eligible now j ≡ true
    → (is_claimable c.status ≡ true) × (exhausted_fence c now j ≡ true)
unfolding exhausted_from_job exhausted_fence
snapshot-fence now j c h e = elim (Bool-cases (j.attempt_count == j.max_attempts)) [
  | inr f ↦ absurd (err≢ok _ c (rw f at h))
  | inl f ↦
      let same = eq_of_ok (rw f at h) in
      let (claimable, eligible) = eligible_closes now j e in
      subst
        (λ (d : ExhaustedJob). (is_claimable d.status ≡ true) × (exhausted_fence d now j ≡ true))
        same
        (
          claimable,
          rw (
            same_number_refl j.knowledge_base_id,
            same_number_refl j.target_revision,
            same_number_refl j.index_generation_id,
            same_number_refl j.mutation_id,
            same_number_refl j.next_retry_at,
            same_number_refl j.lease_expires_at,
            same_number_refl j.cancel_requested_at,
            same_text_refl j.stage,
            same_text_refl j.lease_owner,
            str_eq_refl j.operation,
            str_eq_refl j.target_type,
            ==_refl j.id,
            ==_refl j.target_id,
            ==_refl j.attempt_count,
            ==_refl j.max_attempts,
            ==_refl j.lease_epoch,
            f,
            eligible,
          ),
        )
]

update_row-member :
    (matches : Job → Bool) (change : Job → Job) (j : Job) (t : Table)
    → Memᴰ j t
    → matches j ≡ true
    → (r : Job × Table) × (update_row matches change t ≡ some r)
unfolding update_row
update_row-member matches change j t (Memᴰ.head {x = x} {xs = xs} same) m =
    rw (subst (λ k. matches k ≡ true) same m) (_, refl)
update_row-member matches change j t (Memᴰ.tail {x = x} {xs = xs} found) m =
    elim (Bool-cases (matches x)) [
      | inl e ↦ rw e (_, refl)
      | inr e ↦ let (r, f) = update_row-member matches change j xs found m in rw (e, f) (_, refl)
    ]

leased≢exhausted : (l : JobLease) (c : ExhaustedJob) → leased l ≢ exhausted c
leased≢exhausted l c h = cc

nothing≢exhausted : (c : ExhaustedJob) → nothing ≢ exhausted c
nothing≢exhausted c h = cc

eq_of_exhausted : {c d : ExhaustedJob} → exhausted c ≡ exhausted d → c ≡ d
eq_of_exhausted h = cc

-- A row that a claim finds exhausted is eligible, and the claim leaves the table alone.
claim_first-exhausted :
    (test : Job → Bool) (owner : String) (duration current : ℕ) (cs : List Job) (t : Table)
    (c : ExhaustedJob) (t' : Table)
    → IsFirst test t cs
    → claim_first owner duration current (take claim_scan_limit cs) t ≡ ok (exhausted c, t')
    → (j : Job) × Memᴰ j t × (test j ≡ true) × (exhausted_from_job j ≡ ok c) × (t ≡ t')
unfolding claim_first
claim_first-exhausted test owner duration current [] t c t' a h =
    absurd (nothing≢exhausted c (ap (λ (p : Claim × Table). p.0) (eq_of_ok h)))
claim_first-exhausted test owner duration current (j ∷ cs) t c t' a h =
    elim (Bool-cases (leb j.max_attempts j.attempt_count)) [
      | inl f ↦
          let (d, g, h1) = >>=-eq-ok (exhausted_from_job j) _ (rw f at h) in
          let same : d ≡ c = eq_of_exhausted (ap (λ (p : Claim × Table). p.0) (eq_of_ok h1)) in
          (j, a.in_table, a.passes, g ∙ ap ok same, ap (λ (p : Claim × Table). p.1) (eq_of_ok h1))
      | inr f ↦
          let row = claimed_row owner duration current j in
          let (_, flushed, h0) =
            >>=-eq-ok (guard (passes_checks row) integrity_error) _ (rw f at h) in
          let (l, _, h1) = >>=-eq-ok (lease_from_job row (is_running j.status)) _ h0 in
          absurd (leased≢exhausted l c (ap (λ (p : Claim × Table). p.0) (eq_of_ok h1)))
    ]

-- A row of a table that stands for a closed Job, and the row that it was.
pub record IsClosed (c : ExhaustedJob) (now : ℕ) (t closed : Table) : Type 0 where
  pub source : Job
  pub row : Job
  pub before : Memᴰ source t
  pub fenced : exhausted_fence c now source ≡ true
  pub after : Memᴰ row closed
  pub id : row.id ≡ source.id
  pub failed_now : (is_failed row.status ≡ true) × (row.finished_at ≡ some now)
  pub no_retry : (row.retryable ≡ false) × (row.next_retry_at ≡ none)
  pub unowned : (row.lease_owner ≡ none) × (row.lease_expires_at ≡ none)
  pub code : row.error_code ≡ some exhausted_code

changed-IsClosed :
    (c : ExhaustedJob) (now : ℕ) (t : Table) (r : Job × Table)
    → IsChanged (exhausted_fence c now) (exhaust now) t r.0 r.1
    → IsClosed c now t r.1
changed-IsClosed c now t r h =
    let same : exhaust now h.source ≡ r.0 = h.changed in
    record {
      source = h.source;
      row = r.0;
      before = h.before;
      fenced = h.matched;
      after = h.after;
      id = ap (λ (j : Job). j.id) (sym same);
      failed_now = (
        ap (λ (j : Job). is_failed j.status) (sym same),
        ap (λ (j : Job). j.finished_at) (sym same),
      );
      no_retry =
          (ap (λ (j : Job). j.retryable) (sym same), ap (λ (j : Job). j.next_retry_at) (sym same));
      unowned = (
        ap (λ (j : Job). j.lease_owner) (sym same),
        ap (λ (j : Job). j.lease_expires_at) (sym same),
      );
      code = ap (λ (j : Job). j.error_code) (sym same);
    }

finalize_exhausted_closes :
    (c : ExhaustedJob) (now : ℕ) (j : Job) (t : Table)
    → is_claimable c.status ≡ true
    → Memᴰ j t
    → exhausted_fence c now j ≡ true
    → (closed : Table) × (finalize_exhausted c now t ≡ ok closed) × IsClosed c now t closed
unfolding finalize_exhausted fenced_update ◌>>=◌
finalize_exhausted_closes c now j t claimable member fenced =
    let (r, found) = update_row-member (exhausted_fence c now) (exhaust now) j t member fenced in
    let updated : fenced_update (exhausted_fence c now) (exhaust now) t ≡ ok r =
      rw (found, fenced_update) refl in
    let row = fenced_update-IsChanged (exhausted_fence c now) (exhaust now) t r updated in
    (r.1, rw (claimable, found, fenced_update, ◌>>=◌) refl, changed-IsClosed c now t r row)

-- When a claim finds a Job without an attempt left, then `finalize_exhausted`, at the claim's time
-- and on the table that the claim leaves, closes it: it raises nothing, and in place of a row that
-- the fence of the Job holds of, the table has one with the same id that has failed now with the code
-- of exhausted attempts, and that has no retry and no owner.
pub claim_next_closes :
    (owner : String) (duration : ℕ) (wanted : Option ℕ) (locked : ℕ → Bool) (now current : ℕ)
    (t : Table) (c : ExhaustedJob) (t' : Table)
    → claim_next owner duration wanted locked now current t ≡ ok (exhausted c, t')
    → (closed : Table) × (finalize_exhausted c now t' ≡ ok closed) × IsClosed c now t' closed
unfolding claim_next
claim_next_closes owner duration wanted locked now current t c t' h =
    let (_, _, h1) = >>=-eq-ok _ _ h in
    let (j, member, test, snapshot, same) =
      claim_first-exhausted (is_candidate now locked wanted) owner duration current
        (select_candidates now locked wanted t) t c t'
        (select_candidates-IsFirst now locked wanted t) h1 in
    let (both, _) = &&-true _ _ test in
    let (eligible, _) = &&-true _ _ both in
    let (claimable, fenced) = snapshot-fence now j c snapshot eligible in
    finalize_exhausted_closes c now j t' claimable (subst (Memᴰ j) same member) fenced
