-- ===== src/Jobs/Run/Resumes.antt =====
-- What a run leaves in the table: backend/app/jobs/manager.py, `_run_job`, over pipeline.py, `execute`.
use mathlib.Core.Path.{subst}
use fetcharr.Base.{
  ℕ, String, ◌≡◌, refl, sym, ap, ◌∙◌, Option, none, some, List, [], ◌∷◌, ◌++◌, arith,
}
use fetcharr.Jobs.Status.{JobStatus, Step}
use fetcharr.Jobs.Rows.{Job, Request}
use fetcharr.Jobs.App.{App, find_job}
use fetcharr.Jobs.App.Table.{OnlyChanges}
use fetcharr.Jobs.Manager.{RunEnd}
use fetcharr.Jobs.Manager.Lifecycle.{HasEnded, RowEnded, end_status, Ends, settle-Ends}
use fetcharr.Jobs.Pipeline.{Surroundings, execute, steps_after}
use fetcharr.Jobs.Pipeline.Checkpoints.{checkpoints_of}
use fetcharr.Jobs.Pipeline.Resume.{execute-Reached, is_success, is_nil}
use fetcharr.Jobs.Run.{Moment, happen_all, begun, run_job, actions_of, context_of}
use fetcharr.Jobs.Run.Stands.{Stands, last_made, happen_all-Stands, settle-Stands}

steps_after-same :
    (step other : Step) (rest others : List Step)
    → step ∷ rest ≡ other ∷ others
    → steps_after (some other) ≡ others
    → steps_after (some step) ≡ rest
steps_after-same step other rest others h next = cc

-- The steps after one of the steps to do.
steps_after-next :
    (was : Option Step) (step : Step) (rest : List Step)
    → step ∷ rest ≡ steps_after was
    → steps_after (some step) ≡ rest
unfolding steps_after
steps_after-next none step rest h = steps_after-same step Step.download rest _ h refl
steps_after-next (some Step.download) step rest h =
    steps_after-same step Step.transcode rest _ h refl
steps_after-next (some Step.transcode) step rest h =
    steps_after-same step Step.organize rest _ h refl
steps_after-next (some Step.organize) step rest h = steps_after-same step Step.import rest _ h refl
steps_after-next (some Step.import) step rest h = absurd (ground (arith, h))

steps_after-last_made :
    (was : Option Step) (made left : List Step)
    → made ++ left ≡ steps_after was
    → steps_after (last_made was made) ≡ left
steps_after-last_made was [] left h = sym h
steps_after-last_made was (step ∷ made) left h =
    steps_after-last_made (some step) made left (sym (steps_after-next was step (made ++ left) h))

-- The row has ended with that status, when there is one.
abbrev pub Settled : ℕ → Option JobStatus → Job → Type 0
Settled now none row = Unit
Settled now (some status) row = HasEnded now status row

end-Settled :
    (now : ℕ) (end : Option JobStatus) (row : Job)
    → ((status : JobStatus) → end ≡ some status → HasEnded now status row)
    → Settled now end row
end-Settled now none row ends = tt
end-Settled now (some status) row ends = ends status refl

-- What a run of a job that ended leaves of the table of before: the row's last completed step is such
-- that the steps after it are those that the run has not checkpointed, and none is left exactly after a
-- success; an end other than a shutdown has ended the row; the other rows are as they were.
pub record Resumes (now : ℕ) (id : String) (was : Option Step) (end : RunEnd) (made : List Step)
    (before after : List Job) : Type 0 where
  pub row : Job
  pub found : find_job id after ≡ some row
  pub left : List Step
  pub whole : made ++ left ≡ steps_after was
  pub next : steps_after row.last_completed_step ≡ left
  pub ended : is_success end ≡ is_nil left
  pub settled : Settled now (end_status end) row
  pub others : OnlyChanges id before after

ended_row :
    (now : ℕ) (id : String) (status : JobStatus) (before after : List Job) (was row : Job)
    → find_job id before ≡ some was
    → find_job id after ≡ some row
    → Ends now id status before after
    → HasEnded now status row
ended_row now id status before after was row h found ends =
    subst (λ r. RowEnded now status (some was) r) found
      (subst (λ r. RowEnded now status r (find_job id after)) h ends.ended)

-- However the pipeline of a claimed job runs and ends, and whatever its callbacks write in between: the
-- job's row is there, the next run of it begins with exactly the steps that this one has not
-- checkpointed, and none is left exactly when it succeeded; unless the end was a shutdown, the row has
-- ended with the status of that end; the other rows are as they were.
pub run_job-Resumes :
    (now : ℕ) (job : Job) (request : Request) (cookies completed_path : Option String)
    (around : Surroundings) (moments : List Moment) (app : App) (row : Job)
    → find_job job.id app.jobs ≡ some row
    → row.last_completed_step ≡ job.last_completed_step
    → actions_of moments ≡ (execute around (context_of job request) completed_path).1.actions
    → let end = (execute around (context_of job request) completed_path).0 in
      Resumes now job.id job.last_completed_step end
        (checkpoints_of (actions_of moments))
        app.jobs
        (run_job now job cookies moments end app).jobs
unfolding run_job context_of
run_job-Resumes now job request cookies completed_path around moments app row there step same =
    let run = execute around (context_of job request) completed_path in
    let reached = execute-Reached around (context_of job request) completed_path in
    let made = checkpoints_of (actions_of moments) in
    let last = happen_all job.id job.job_dir moments (begun app) in
    let start : Stands job.id app.jobs job.last_completed_step app.jobs = record {
      row = row;
      found = there;
      at = step;
      others = λ k. ground arith;
    } in
    let middle =
      happen_all-Stands job.id app.jobs job.job_dir moments job.last_completed_step (begun app)
        start in
    let end =
      settle-Stands job.id app.jobs now job.job_dir cookies last.lines run.0
        (last_made job.last_completed_step made) last.app middle in
    let whole : made ++ reached.left ≡ steps_after job.last_completed_step =
      ap (λ steps. steps ++ reached.left) (ap checkpoints_of same ∙ reached.same) ∙ reached.whole in
    record {
      row = end.row;
      found = end.found;
      left = reached.left;
      whole = whole;
      next =
          ap steps_after end.at
          ∙ steps_after-last_made job.last_completed_step made reached.left whole;
      ended = reached.ended;
      settled = end-Settled now (end_status run.0) end.row (λ status h.
          ended_row now job.id status last.app.jobs _ middle.row end.row middle.found end.found
            (settle-Ends now job.id job.job_dir cookies last.lines run.0 last.app status h));
      others = end.others;
    }
