-- ===== src/Jobs/Run/Stands.antt =====
-- Where the table stands while a job runs: backend/app/jobs/manager.py, `_run_job`.
use mathlib.Core.Path.{subst}
use fetcharr.Base.{
  ℕ, String, ◌≡◌, refl, sym, ◌∙◌, inl, inr, Option, some, List, [], ◌∷◌, arith, cat, Option-cases,
  Bool-cases, leb, not, ◌&&◌, ◌-◌,
}
use fetcharr.Ytdlp.Progress.{Progress}
use fetcharr.Jobs.Status.{JobStatus, Step, postprocessing}
use fetcharr.Jobs.Rows.{Job, Field, set_field, set_fields}
use fetcharr.Jobs.App.{App, find_job, alter}
use fetcharr.Jobs.App.Table.{KeepsId, OnlyChanges, alter-OnlyChanges, find_job-altered}
use fetcharr.Jobs.Manager.{
  update, set_status, checkpoint, checkpointed_row, import_event, flush_logs, settle, finish,
  finish_cancelled, finish_fields, buffer, RunEnd, succeeded, interrupted, broken, shut_down,
}
use fetcharr.Jobs.Manager.Lifecycle.{flush_logs-jobs, flag_cookies-jobs}
use fetcharr.Jobs.Pipeline.{
  Action, removed_job_dir, cleaned_partials, removed_cookies, wrote_cookies, used_cookies,
}
use fetcharr.Jobs.Pipeline.Checkpoints.{checkpoints_of}
use fetcharr.Jobs.Run.{
  Running, Moment, acted, progressed, attempted, logged, flushed, perform, write_progress,
  write_attempt, tell_progress, note_postprocessing, note_progress, happen, happen_all,
  progress_interval, actions_of,
}

-- A change of a row that keeps its id and its last completed step.
pub record Keeps (f : Job → Job) : Type 0 where
  pub id : KeepsId f
  pub step : (j : Job) → (f j).last_completed_step ≡ j.last_completed_step

set_field-Keeps : (field : Field) → Keeps (set_field field)
unfolding set_field
set_field-Keeps field = record { id = λ j. ground arith; step = λ j. ground arith }

pub set_fields-Keeps : (fields : List Field) → Keeps (set_fields fields)
unfolding set_fields
set_fields-Keeps [] = record { id = λ j. refl; step = λ j. refl }
set_fields-Keeps (field ∷ fields) =
    let one = set_field-Keeps field in
    let more = set_fields-Keeps fields in
    record {
      id = λ j. more.id (set_field field j) ∙ one.id j;
      step = λ j. more.step (set_field field j) ∙ one.step j;
    }

-- Where the table stands in a run of a job: its row has that last completed step, and the other rows
-- are those of before.
pub record Stands (id : String) (before : List Job) (step : Option Step) (jobs : List Job)
    : Type 0 where
  pub row : Job
  pub found : find_job id jobs ≡ some row
  pub at : row.last_completed_step ≡ step
  pub others : OnlyChanges id before jobs

-- The last of the steps that were checkpointed, or the one of before.
abbrev pub last_made : Option Step → List Step → Option Step
last_made was [] = was
last_made was (step ∷ steps) = last_made (some step) steps

module _ (id : String) (before : List Job) where
  alter-Stands :
      (f : Job → Job) (step next : Option Step) (jobs : List Job)
      → KeepsId f
      → ((j : Job) → j.last_completed_step ≡ step → (f j).last_completed_step ≡ next)
      → Stands id before step jobs
      → Stands id before next (alter id f jobs)
  alter-Stands f step next jobs keeps moves s = record {
    row = f s.row;
    found = find_job-altered id f jobs s.row keeps s.found;
    at = moves s.row s.at;
    others = λ k. ground (arith, alter-OnlyChanges id f jobs keeps k, s.others k);
  }

  set_fields-Stands :
      (fields : List Field) (step : Option Step) (jobs : List Job)
      → Stands id before step jobs
      → Stands id before step (alter id (set_fields fields) jobs)
  set_fields-Stands fields step jobs s =
      let kept = set_fields-Keeps fields in
      alter-Stands (set_fields fields) step step jobs kept.id (λ j e. kept.step j ∙ e) s

  pub checkpoint-jobs :
      (step : Step) (seconds : ℕ) (fields : List Field) (app : App) (row : Job)
      → find_job id app.jobs ≡ some row
      → (checkpoint id step seconds fields app).jobs
        ≡ alter id (checkpointed_row step seconds fields) app.jobs
  unfolding checkpoint
  checkpoint-jobs step seconds fields app row h = elim (Option-cases (import_event id fields)) [
    | inl e ↦ ground (arith, h, e)
    | inr (event, e) ↦ ground (arith, h, e)
  ]

  checkpoint-Stands :
      (step : Step) (seconds : ℕ) (fields : List Field) (was : Option Step) (app : App)
      → Stands id before was app.jobs
      → Stands id before (some step) (checkpoint id step seconds fields app).jobs
  unfolding checkpointed_row
  checkpoint-Stands step seconds fields was app s =
      let kept = set_fields-Keeps fields in
      subst (Stands id before (some step))
        (sym (checkpoint-jobs step seconds fields app s.row s.found))
        (alter-Stands (checkpointed_row step seconds fields) was (some step) app.jobs
          (λ j. kept.id _) (λ j e. kept.step _) s)

  set_status-Stands :
      (status : JobStatus) (phase : Step) (step : Option Step) (app : App)
      → Stands id before step app.jobs
      → Stands id before step (set_status id status phase app).jobs
  unfolding set_status update
  set_status-Stands status phase step app s = set_fields-Stands _ step app.jobs s

  update-Stands :
      (fields : List Field) (step : Option Step) (app : App)
      → Stands id before step app.jobs
      → Stands id before step (update id fields app).jobs
  unfolding update
  update-Stands fields step app s = set_fields-Stands fields step app.jobs s

  -- The last completed step after an action.
  abbrev step_by : Action → Option Step → Option Step
  step_by (Action.checkpoint step fields) was = some step
  step_by _ was = was

  perform-Stands :
      (job_dir : String) (seconds : ℕ) (action : Action) (was : Option Step) (app : App)
      → Stands id before was app.jobs
      → Stands id before (step_by action was) (perform id job_dir seconds action app).jobs
  unfolding perform
  perform-Stands job_dir seconds (Action.set_status status step) was app s =
      set_status-Stands status step was app s
  perform-Stands job_dir seconds (Action.checkpoint step fields) was app s =
      checkpoint-Stands step seconds fields was app s
  perform-Stands job_dir seconds removed_job_dir was app s = s
  perform-Stands job_dir seconds cleaned_partials was app s = s
  perform-Stands job_dir seconds removed_cookies was app s = s
  perform-Stands job_dir seconds (wrote_cookies text) was app s = s
  perform-Stands job_dir seconds (used_cookies text) was app s = s

  note_postprocessing-Stands :
      (job_dir : String) (progress : Progress) (step : Option Step) (r : Running)
      → Stands id before step r.app.jobs
      → Stands id before step (note_postprocessing id job_dir progress r).app.jobs
  unfolding note_postprocessing
  note_postprocessing-Stands job_dir progress step r s =
      elim (Bool-cases (progress.postprocessing && not r.postprocessed)) [
        | inl e ↦ rw e (set_status-Stands postprocessing Step.download step r.app s)
        | inr e ↦ rw e s
      ]

  note_progress-Stands :
      (job_dir : String) (now : ℕ) (progress : Progress) (step : Option Step) (r : Running)
      → Stands id before step r.app.jobs
      → Stands id before step (note_progress id job_dir now progress r).app.jobs
  unfolding note_progress write_progress
  note_progress-Stands job_dir now progress step r s =
      elim (Bool-cases (leb progress_interval (now - r.last_progress_write))) [
        | inl e ↦ rw e (update-Stands _ step r.app s)
        | inr e ↦ rw e s
      ]

  -- The last completed step after what happened.
  abbrev step_after : Moment → Option Step → Option Step
  step_after (acted seconds action) was = step_by action was
  step_after _ was = was

  happen-Stands :
      (job_dir : String) (m : Moment) (was : Option Step) (r : Running)
      → Stands id before was r.app.jobs
      → Stands id before (step_after m was) (happen id job_dir m r).app.jobs
  unfolding happen write_attempt tell_progress
  happen-Stands job_dir (acted seconds action) was r s =
      perform-Stands job_dir seconds action was r.app s
  happen-Stands job_dir (progressed now progress) was r s =
      note_progress-Stands job_dir now progress was _
        (note_postprocessing-Stands job_dir progress was _ s)
  happen-Stands job_dir (attempted number) was r s = update-Stands _ was r.app s
  happen-Stands job_dir (logged line) was r s = s
  happen-Stands job_dir (flushed now) was r s =
      subst (Stands id before was) (sym (flush_logs-jobs now id r.lines r.app)) s

  last_made-step_after :
      (m : Moment) (moments : List Moment) (was : Option Step)
      → last_made (step_after m was) (checkpoints_of (actions_of moments))
        ≡ last_made was (checkpoints_of (actions_of (m ∷ moments)))
  unfolding actions_of
  last_made-step_after (acted seconds (Action.set_status status step)) moments was = refl
  last_made-step_after (acted seconds (Action.checkpoint step fields)) moments was = refl
  last_made-step_after (acted seconds removed_job_dir) moments was = refl
  last_made-step_after (acted seconds cleaned_partials) moments was = refl
  last_made-step_after (acted seconds removed_cookies) moments was = refl
  last_made-step_after (acted seconds (wrote_cookies text)) moments was = refl
  last_made-step_after (acted seconds (used_cookies text)) moments was = refl
  last_made-step_after (progressed now progress) moments was = refl
  last_made-step_after (attempted number) moments was = refl
  last_made-step_after (logged line) moments was = refl
  last_made-step_after (flushed now) moments was = refl

  pub happen_all-Stands :
      (job_dir : String) (moments : List Moment) (was : Option Step) (r : Running)
      → Stands id before was r.app.jobs
      → Stands id before
          (last_made was (checkpoints_of (actions_of moments)))
          (happen_all id job_dir moments r).app.jobs
  unfolding happen_all actions_of
  happen_all-Stands job_dir [] was r s = s
  happen_all-Stands job_dir (m ∷ moments) was r s =
      subst (λ step. Stands id before step (happen_all id job_dir (m ∷ moments) r).app.jobs)
        (last_made-step_after m moments was)
        (happen_all-Stands job_dir moments (step_after m was) (happen id job_dir m r)
          (happen-Stands job_dir m was r s))

  pub settle-Stands :
      (now : ℕ) (job_dir : String) (cookies : Option String) (lines : List String) (end : RunEnd)
      (step : Option Step) (app : App)
      → Stands id before step app.jobs
      → Stands id before step (settle now id job_dir cookies lines end app).jobs
  unfolding settle finish finish_cancelled finish_fields update
  settle-Stands now job_dir cookies lines succeeded step app s =
      set_fields-Stands _ step _
        (subst (Stands id before step) (sym (flush_logs-jobs now id lines app)) s)
  settle-Stands now job_dir cookies lines interrupted step app s =
      set_fields-Stands _ step _
        (subst (Stands id before step) (sym (flush_logs-jobs now id lines app)) s)
  settle-Stands now job_dir cookies lines (broken kind message) step app s =
      let logged = buffer (cat ("failed: " ∷ message ∷ [])) lines in
      let same =
        flag_cookies-jobs cookies kind message (flush_logs now id logged app)
        ∙ flush_logs-jobs now id logged app in
      set_fields-Stands _ step _ (subst (Stands id before step) (sym same) s)
  settle-Stands now job_dir cookies lines shut_down step app s = s
