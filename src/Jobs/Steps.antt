-- ===== src/Jobs/Steps.antt =====
-- What Workers ask of jobs/repositories.py, as sequences of requests, and the table behind them. The
-- domain's part of a stage's transaction writes other tables, and gives a result of type `R`.
use Prim.Native.String.{String}
use veloxrag.Prelude.{err, ok, ℕ, Bool, Option, List, [], ◌∷◌}
use veloxrag.Jobs.Row.{JobLease, ExhaustedJob, Result}
use veloxrag.Jobs.Repository.{
  Table, heartbeat, release_claim, checkpoint, advance_stage, commit_stage_facts,
  commit_stage_checkpoint, prepare_activation, reset_rebuild_target, RebuildTargetRefresh,
}
use veloxrag.Jobs.Outcome.{mark_succeeded, mark_cancelled, record_failure, finalize_exhausted}
use veloxrag.Jobs.Claim.{claim_next}

-- An action that leaves the `jobs` table alone.
abbrev pub elsewhere : {R : Type 0} → R → Table → Result (R × Table)
elsewhere r t = ok (r, t)

-- The table that a result holds, or the one before where the transaction rolls back.
abbrev pub left_1 : {A : Type 0} → Table → Result (A × Table) → Table
left_1 t (ok (_, t')) = t'
left_1 t (err _) = t

abbrev pub left_2 : {A B : Type 0} → Table → Result (A × B × Table) → Table
left_2 t (ok (_, _, t')) = t'
left_2 t (err _) = t

abbrev pub left_0 : Table → Result Table → Table
left_0 t (ok t') = t'
left_0 t (err _) = t

module _ (R : Type 0) where
  -- A request to the repository, with the clock at its statements.
  pub data Request : Type 0 where
    claim :
        (owner : String) (duration : ℕ) (wanted : Option ℕ) (locked : ℕ → Bool) (now current : ℕ)
        → Request
    beat : (lease : JobLease) (duration now : ℕ) → Request
    release : (lease : JobLease) (now : ℕ) → Request
    save :
        (lease : JobLease) (stage resume_stage : Option String) (current : ℕ) (total : Option ℕ)
        (now : ℕ)
        → Request
    advance :
        (lease : JobLease) (result : R) (stage resume_stage : String) (current : ℕ)
        (total : Option ℕ) (now later : ℕ)
        → Request
    facts : (lease : JobLease) (result : R) (now later : ℕ) → Request
    progress :
        (lease : JobLease) (result : R) (current : ℕ) (total : Option ℕ) (now later : ℕ) → Request
    prepare : (lease : JobLease) (result : R) (now later : ℕ) → Request
    reset : (lease : JobLease) (refresh : RebuildTargetRefresh) (now : ℕ) → Request
    succeed : (lease : JobLease) (now : ℕ) → Request
    cancel : (lease : JobLease) (now : ℕ) → Request
    fail : (lease : JobLease) (retryable : Bool) (code message : String) (delay now : ℕ) → Request
    close : (candidate : ExhaustedJob) (now : ℕ) → Request

  -- The table behind a request.
  unfoldable pub serve : Request → Table → Table
  serve (claim owner duration wanted locked now current) t =
      left_1 t (claim_next owner duration wanted locked now current t)
  serve (beat lease duration now) t = left_1 t (heartbeat lease duration now t)
  serve (release lease now) t = left_0 t (release_claim lease now t)
  serve (save lease stage resume_stage current total now) t =
      left_0 t (checkpoint lease stage resume_stage current total now t)
  serve (advance lease result stage resume_stage current total now later) t =
      left_2 t (advance_stage lease (elsewhere result) stage resume_stage current total now later t)
  serve (facts lease result now later) t =
      left_1 t (commit_stage_facts lease (elsewhere result) now later t)
  serve (progress lease result current total now later) t =
      left_2 t (commit_stage_checkpoint lease (elsewhere result) current total now later t)
  serve (prepare lease result now later) t =
      left_1 t (prepare_activation lease (elsewhere result) now later t)
  serve (reset lease refresh now) t =
      left_2 t (reset_rebuild_target lease (elsewhere refresh) now t)
  serve (succeed lease now) t = left_1 t (mark_succeeded lease now t)
  serve (cancel lease now) t = left_0 t (mark_cancelled lease now t)
  serve (fail lease retryable code message delay now) t =
      left_1 t (record_failure lease retryable code message delay now t)
  serve (close candidate now) t = left_0 t (finalize_exhausted candidate now t)

  -- Requests one after another, in any order and from any Workers.
  unfoldable pub serve_all : List Request → Table → Table
  unfolding serve
  serve_all [] t = t
  serve_all (r ∷ rest) t = serve_all rest (serve r t)
