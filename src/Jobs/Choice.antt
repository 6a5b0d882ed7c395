-- ===== src/Jobs/Choice.antt =====
-- Which Job `claim_next` (jobs/repositories.py) takes.
use Prim.Native.String.{String}
use mathlib.Core.Bool.{false≢true}
use mathlib.Core.List.{Memᴰ}
use veloxrag.Prelude.{
  guard, >>=-eq-ok, eq_of_ok, ok, ℕ, ◌+◌, ◌≡◌, ◌≢◌, ◌<◌, refl, inl, inr, Bool, true, false, Option,
  List, [], ◌∷◌, All, All-map, arith, leb, not, ◌&&◌, Bool-cases, leb_false→lt, sym, ap, ◌∙◌, take,
}
use veloxrag.Jobs.Row.{
  passes_checks, integrity_error, Job, JobLease, ExhaustedJob, lease_of, held_lease, is_running,
  lease_from_job, exhausted_from_job,
}
use veloxrag.Jobs.Repository.{Table}
use veloxrag.Jobs.Claim.{
  Claim, nothing, exhausted, leased, claim_next, claim_first, claimed_row, replace_row, is_wanted,
  comes_before, insert_ordered, claim_scan_limit, select_candidates, is_eligible,
}

exhausted≢leased : (c : ExhaustedJob) (l : JobLease) → exhausted c ≢ leased l
exhausted≢leased c l h = cc

nothing≢leased : (l : JobLease) → nothing ≢ leased l
nothing≢leased l h = cc

eq_of_leased : {a b : JobLease} → leased a ≡ leased b → a ≡ b
eq_of_leased h = cc

-- What a claim has given: the row was a candidate with an attempt left, the lease is its, one epoch
-- later, and the row is written at its id.
pub record IsTaken (owner : String) (duration current : ℕ) (j : Job) (t : Table) (new : JobLease)
    (t' : Table) : Type 0 where
  pub attempts_left : j.attempt_count < j.max_attempts
  pub lease_held :
      lease_of
        (claimed_row owner duration current j)
        (is_running j.status)
        owner
        (current + duration)
      ≡ new
  pub written : replace_row (claimed_row owner duration current j) t ≡ t'

claim_first-IsTaken :
    (owner : String) (duration current : ℕ) (j : Job) (cs : List Job) (t : Table) (new : JobLease)
    (t' : Table)
    → claim_first owner duration current (j ∷ cs) t ≡ ok (leased new, t')
    → IsTaken owner duration current j t new t'
unfolding claim_first lease_from_job held_lease
claim_first-IsTaken owner duration current j cs t new t' h =
    elim (Bool-cases (leb j.max_attempts j.attempt_count)) [
      | inl f ↦
          let (x, _, h1) = >>=-eq-ok (exhausted_from_job j) _ (rw f at h) in
          absurd (exhausted≢leased x new (ap (λ (p : Claim × Table). p.0) (eq_of_ok h1)))
      | inr f ↦
          let row = claimed_row owner duration current j in
          let (_, flushed, h0) =
            >>=-eq-ok (guard (passes_checks row) integrity_error) _ (rw f at h) in
          let (l, g, h1) = >>=-eq-ok (lease_from_job row (is_running j.status)) _ h0 in
          record {
            attempts_left = leb_false→lt _ _ f;
            lease_held = eq_of_ok g ∙ eq_of_leased (ap (λ (p : Claim × Table). p.0) (eq_of_ok h1));
            written = ap (λ (p : Claim × Table). p.1) (eq_of_ok h1);
          }
    ]

-- What the statement of a claim asks of a row.
abbrev pub is_candidate : ℕ → (ℕ → Bool) → Option ℕ → Job → Bool
is_candidate now locked wanted j = is_eligible now j && is_wanted wanted j && not (locked j.id)

comes_before_refl : (a : Job) → comes_before a a ≡ true
unfolding comes_before
comes_before_refl a = ground arith

comes_before_trans :
    (a b c : Job) → comes_before a b ≡ true → comes_before b c ≡ true → comes_before a c ≡ true
unfolding comes_before
comes_before_trans a b c h k = ground arith

comes_before_total : (a b : Job) → comes_before a b ≡ false → comes_before b a ≡ true
unfolding comes_before
comes_before_total a b h = ground arith

-- A row of the table that passes a test and comes before each row that does.
pub record IsOldest (test : Job → Bool) (j : Job) (t : Table) : Type 0 where
  pub in_table : Memᴰ j t
  pub passes : test j ≡ true
  pub oldest : All (λ k. test k ≡ true → comes_before j k ≡ true) t

-- The first of the candidates: there is none if no row passes, and else it is the oldest.
abbrev pub IsFirst : (Job → Bool) → Table → List Job → Type 0
IsFirst test t [] = All (λ k. test k ≡ false) t
IsFirst test t (j ∷ _) = IsOldest test j t

module _ (test : Job → Bool) (j : Job) (rest : Table) where
  insert-IsFirst :
      (later : List Job)
      → test j ≡ true
      → IsFirst test rest later
      → IsFirst test (j ∷ rest) (insert_ordered j later)
  unfolding insert_ordered
  insert-IsFirst [] h a = record {
    in_table = Memᴰ.head refl;
    passes = h;
    oldest =
        (λ _. comes_before_refl j, All-map rest (λ k no yes. absurd (false≢true (sym no ∙ yes))) a);
  }
  insert-IsFirst (k ∷ r) h a = elim (Bool-cases (comes_before j k)) [
    | inl e ↦ rw e (record {
      in_table = Memᴰ.head refl;
      passes = h;
      oldest = (
        λ _. comes_before_refl j,
        All-map rest (λ l after yes. comes_before_trans j k l e (after yes)) a.oldest,
      );
    })
    | inr e ↦ rw e (record {
      in_table = Memᴰ.tail a.in_table;
      passes = a.passes;
      oldest = (λ _. comes_before_total j k e, a.oldest);
    })
  ]

  skip-IsFirst :
      (later : List Job) → test j ≡ false → IsFirst test rest later → IsFirst test (j ∷ rest) later
  skip-IsFirst [] h a = (h, a)
  skip-IsFirst (k ∷ r) h a = record {
    in_table = Memᴰ.tail a.in_table;
    passes = a.passes;
    oldest = (λ yes. absurd (false≢true (sym h ∙ yes)), a.oldest);
  }

pub select_candidates-IsFirst :
    (now : ℕ) (locked : ℕ → Bool) (wanted : Option ℕ) (t : Table)
    → IsFirst (is_candidate now locked wanted) t (select_candidates now locked wanted t)
unfolding select_candidates
select_candidates-IsFirst now locked wanted [] = tt
select_candidates-IsFirst now locked wanted (j ∷ rest) =
    let test = is_candidate now locked wanted in
    let later = select_candidates now locked wanted rest in
    let ih = select_candidates-IsFirst now locked wanted rest in
    elim (Bool-cases (test j)) [
      | inl e ↦ rw e (insert-IsFirst test j rest later e ih)
      | inr e ↦ rw e (skip-IsFirst test j rest later e ih)
    ]

claim_first-IsOldest :
    (test : Job → Bool) (owner : String) (duration current : ℕ) (cs : List Job) (t : Table)
    (new : JobLease) (t' : Table)
    → IsFirst test t cs
    → claim_first owner duration current (take claim_scan_limit cs) t ≡ ok (leased new, t')
    → (j : Job) × IsOldest test j t × IsTaken owner duration current j t new t'
unfolding claim_first
claim_first-IsOldest test owner duration current [] t new t' a h =
    absurd (nothing≢leased new (ap (λ (p : Claim × Table). p.0) (eq_of_ok h)))
claim_first-IsOldest test owner duration current (j ∷ cs) t new t' a h =
    (j, a, claim_first-IsTaken owner duration current j (take 31 cs) t new t' h)

-- A claim that gives a lease takes the oldest (by `created_at`, then by id) of the rows of the table
-- that are eligible, wanted and not locked; the row has an attempt left, and the lease and the row
-- written at its id are the claimed row's.
pub claim_next-IsOldest :
    (owner : String) (duration : ℕ) (wanted : Option ℕ) (locked : ℕ → Bool) (now current : ℕ)
    (t : Table) (new : JobLease) (t' : Table)
    → claim_next owner duration wanted locked now current t ≡ ok (leased new, t')
    → (j : Job) × IsOldest (is_candidate now locked wanted) j t
      × IsTaken owner duration current j t new t'
unfolding claim_next
claim_next-IsOldest owner duration wanted locked now current t new t' h =
    let (_, _, h1) = >>=-eq-ok _ _ h in
    claim_first-IsOldest (is_candidate now locked wanted) owner duration current
      (select_candidates now locked wanted t) t new t'
      (select_candidates-IsFirst now locked wanted t) h1
