-- ===== src/Jobs/Run/Shutdown.antt =====
-- A run that a shutdown stops, and the restart after it: backend/app/jobs/manager.py, `_run_job`, then
-- `recover`.
use mathlib.Core.Path.{subst}
use mathlib.Core.Option
use mathlib.Core.Option.{some-injective}
use fetcharr.Base.{
  ℕ, String, true, false, ◌≡◌, refl, sym, ap, ◌∙◌, Option, some, List, [], ◌∷◌, ◌++◌, arith, each,
}
use fetcharr.Jobs.Status.{Step, queued}
use fetcharr.Jobs.Rows.{Job, Request, Field}
use fetcharr.Jobs.App.{App, find_job}
use fetcharr.Jobs.Manager.{settle, recover, recovered_row, shut_down}
use fetcharr.Jobs.Manager.Recovery.{after_restart, recover-rows}
use fetcharr.Jobs.Import.{import_fields}
use fetcharr.Jobs.Import.Asking.{ImportOutcome}
use fetcharr.Jobs.Pipeline.{Surroundings, Work, did, stopped, execute, steps_after}
use fetcharr.Jobs.Pipeline.Checkpoints.{checkpoints_of}
use fetcharr.Jobs.Pipeline.Resume.{is_nil}
use fetcharr.Jobs.Pipeline.Quiet.{keeps_live, is_quiet, fields_live, execute-is_quiet}
use fetcharr.Jobs.Run.{Moment, begun, run_job, actions_of, context_of}
use fetcharr.Jobs.Run.Resumes.{Resumes, run_job-Resumes}
use fetcharr.Jobs.Run.Lives.{is_live, happen_all-Lives}

-- The import step of a run checkpoints what backend/app/jobs/pipeline.py, `_import`, writes.
abbrev pub WritesVerdict : Surroundings → Type 0
WritesVerdict around =
    (path : Option String) (fields : List Field)
    → around.import path ≡ did fields
    → (now : ℕ) × ((verdict : ℕ × ImportOutcome) × (fields ≡ import_fields now verdict))

import_fields-each :
    (now : ℕ) (verdict : ℕ × ImportOutcome) → each keeps_live (import_fields now verdict) ≡ true
unfolding import_fields
import_fields-each now (attempts, outcome) = refl

fields_live-verdict :
    (w : Work (List Field))
    → ((fields : List Field)
        → w ≡ did fields
        → (now : ℕ) × ((verdict : ℕ × ImportOutcome) × (fields ≡ import_fields now verdict)))
    → fields_live w ≡ true
fields_live-verdict (stopped end) writes = refl
fields_live-verdict (did fields) writes =
    let (now, (verdict, same)) = writes fields refl in
    ap (each keeps_live) same ∙ import_fields-each now verdict

-- The row of a job that waits again, and what its next run has to do.
pub record Waits (id : String) (todo : List Step) (jobs : List Job) : Type 0 where
  pub row : Job
  pub found : find_job id jobs ≡ some row
  pub waiting : row.status ≡ queued
  pub next : steps_after row.last_completed_step ≡ todo

restarted-Waits :
    (later : ℕ) (id : String) (todo : List Step) (row : Job) (app : App)
    → find_job id app.jobs ≡ some row
    → is_live row ≡ true
    → steps_after row.last_completed_step ≡ todo
    → Waits id todo (recover true later app).jobs
unfolding recovered_row
restarted-Waits later id todo row app found live next = record {
  row = after_restart true later row;
  found = (recover-rows true later app).1 id ∙ ap (Option.map (after_restart true later)) found;
  waiting = ground (arith, live);
  next = ap steps_after (ground (arith, live)) ∙ next;
}

first_left :
    (left : List Step)
    → is_nil left ≡ false
    → (step : Step) × ((rest : List Step) × (left ≡ step ∷ rest))
first_left [] h = absurd (ground (arith, h))
first_left (step ∷ rest) h = (step, (rest, refl))

-- A shutdown that stops a running job, of which no cancel is requested, loses no step of it: whatever
-- the run did before, after a restart that resumes jobs the job waits again, and its next run begins
-- with exactly the steps that this one has not checkpointed, of which there is at least one.
pub run_job-recover :
    (now later : ℕ) (job : Job) (request : Request) (cookies completed_path : Option String)
    (around : Surroundings) (moments : List Moment) (app : App) (row : Job)
    → find_job job.id app.jobs ≡ some row
    → row.last_completed_step ≡ job.last_completed_step
    → is_live row ≡ true
    → WritesVerdict around
    → actions_of moments ≡ (execute around (context_of job request) completed_path).1.actions
    → (execute around (context_of job request) completed_path).0 ≡ shut_down
    → (step : Step) × ((rest : List Step) × (checkpoints_of (actions_of moments) ++ step ∷ rest
          ≡ steps_after job.last_completed_step)
        × Waits job.id
            (step ∷ rest)
            (recover true later (run_job now job cookies moments shut_down app)).jobs)
unfolding run_job settle
run_job-recover now later job request cookies completed_path around moments app row there step live
      writes same stopped_by =
    let context = context_of job request in
    let quiet =
      execute-is_quiet around context
        (λ path. fields_live-verdict (around.import path) (writes path)) completed_path in
    let lives =
      happen_all-Lives job.id job.job_dir moments (begun app) (ap (each is_quiet) same ∙ quiet)
        (record { row = row; found = there; live = live }) in
    let after = run_job now job cookies moments shut_down app in
    let resumes : Resumes now job.id job.last_completed_step shut_down
        (checkpoints_of (actions_of moments)) app.jobs after.jobs =
      subst
        (λ end.
          Resumes now job.id job.last_completed_step end (checkpoints_of (actions_of moments))
            app.jobs (run_job now job cookies moments end app).jobs)
        stopped_by
        (run_job-Resumes now job request cookies completed_path around moments app row there step
          same) in
    let (first, (rest, some_left)) = first_left resumes.left (sym resumes.ended) in
    let row_lives : is_live resumes.row ≡ true =
      ap is_live (some-injective _ _ (sym resumes.found ∙ lives.found)) ∙ lives.live in
    (
      first,
      (
        rest,
        ap (λ l. checkpoints_of (actions_of moments) ++ l) (sym some_left) ∙ resumes.whole,
        restarted-Waits later job.id (first ∷ rest) resumes.row after resumes.found row_lives
            (resumes.next ∙ some_left),
      ),
    )
