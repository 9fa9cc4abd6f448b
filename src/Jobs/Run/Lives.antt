-- ===== src/Jobs/Run/Lives.antt =====
-- The row of a running job stays one of a running job: backend/app/jobs/manager.py, `_run_job`.
use mathlib.Core.Path.{subst}
use fetcharr.Base.{
  ℕ, String, Bool, true, ◌≡◌, refl, sym, inl, inr, ◌&&◌, not, some, List, [], ◌∷◌, arith, each, leb,
  ◌-◌, Bool-cases,
}
use fetcharr.Ytdlp.Progress.{Progress}
use fetcharr.Jobs.Status.{JobStatus, Step, is_active, postprocessing}
use fetcharr.Jobs.Rows.{Job, Field, set_field, set_fields}
use fetcharr.Jobs.App.{App, find_job, alter}
use fetcharr.Jobs.App.Table.{KeepsId, find_job-altered}
use fetcharr.Jobs.Manager.{update, set_status, checkpoint, checkpointed_row}
use fetcharr.Jobs.Manager.Lifecycle.{flush_logs-jobs}
use fetcharr.Jobs.Pipeline.{
  Action, removed_job_dir, cleaned_partials, removed_cookies, wrote_cookies, used_cookies,
}
use fetcharr.Jobs.Pipeline.Quiet.{keeps_live, is_quiet}
use fetcharr.Jobs.Run.{
  Running, Moment, acted, progressed, attempted, logged, flushed, perform, write_progress,
  write_attempt, tell_progress, note_postprocessing, note_progress, happen, happen_all, actions_of,
  progress_interval,
}
use fetcharr.Jobs.Run.Stands.{set_fields-Keeps, checkpoint-jobs}

-- A job that runs, without a request for a cancel.
abbrev pub is_live : Job → Bool
is_live job = is_active job.status && not job.cancel_requested

set_field-is_live :
    (field : Field) (job : Job)
    → keeps_live field ≡ true
    → is_live job ≡ true
    → is_live (set_field field job) ≡ true
unfolding set_field
set_field-is_live field job keeps h = ground (arith, keeps, h)

set_fields-is_live :
    (fields : List Field) (job : Job)
    → each keeps_live fields ≡ true
    → is_live job ≡ true
    → is_live (set_fields fields job) ≡ true
unfolding set_fields
set_fields-is_live [] job keeps h = h
set_fields-is_live (field ∷ fields) job keeps h =
    set_fields-is_live fields (set_field field job) (ground (arith, keeps))
      (set_field-is_live field job (ground (arith, keeps)) h)

split-is_quiet :
    (m : Moment) (moments : List Moment)
    → each is_quiet (actions_of (m ∷ moments)) ≡ true
    → (each is_quiet (actions_of (m ∷ [])) ≡ true) × (each is_quiet (actions_of moments) ≡ true)
unfolding actions_of
split-is_quiet (acted seconds action) moments h = (ground (arith, h), ground (arith, h))
split-is_quiet (progressed now progress) moments h = (refl, h)
split-is_quiet (attempted number) moments h = (refl, h)
split-is_quiet (logged line) moments h = (refl, h)
split-is_quiet (flushed now) moments h = (refl, h)

-- The job's row is there, and live.
pub record Lives (id : String) (jobs : List Job) : Type 0 where
  pub row : Job
  pub found : find_job id jobs ≡ some row
  pub live : is_live row ≡ true

module _ (id : String) where
  alter-Lives :
      (f : Job → Job) (jobs : List Job)
      → KeepsId f
      → ((j : Job) → is_live j ≡ true → is_live (f j) ≡ true)
      → Lives id jobs
      → Lives id (alter id f jobs)
  alter-Lives f jobs keeps live s = record {
    row = f s.row;
    found = find_job-altered id f jobs s.row keeps s.found;
    live = live s.row s.live;
  }

  update-Lives :
      (fields : List Field) (app : App)
      → each keeps_live fields ≡ true
      → Lives id app.jobs
      → Lives id (update id fields app).jobs
  unfolding update
  update-Lives fields app keeps s =
      alter-Lives (set_fields fields) app.jobs (set_fields-Keeps fields).id
        (λ j h. set_fields-is_live fields j keeps h) s

  set_status-Lives :
      (status : JobStatus) (phase : Step) (app : App)
      → is_active status ≡ true
      → Lives id app.jobs
      → Lives id (set_status id status phase app).jobs
  unfolding set_status
  set_status-Lives status phase app active s = update-Lives _ app (ground (arith, active)) s

  checkpoint-Lives :
      (step : Step) (seconds : ℕ) (fields : List Field) (app : App)
      → each keeps_live fields ≡ true
      → Lives id app.jobs
      → Lives id (checkpoint id step seconds fields app).jobs
  unfolding checkpointed_row
  checkpoint-Lives step seconds fields app keeps s =
      subst (Lives id) (sym (checkpoint-jobs id app.jobs step seconds fields app s.row s.found)) (
        alter-Lives (checkpointed_row step seconds fields) app.jobs
          (λ j. (set_fields-Keeps fields).id _) (λ j h. set_fields-is_live fields _ keeps h) s)

  perform-Lives :
      (job_dir : String) (seconds : ℕ) (action : Action) (app : App)
      → is_quiet action ≡ true
      → Lives id app.jobs
      → Lives id (perform id job_dir seconds action app).jobs
  unfolding perform
  perform-Lives job_dir seconds (Action.set_status status step) app quiet s =
      set_status-Lives status step app quiet s
  perform-Lives job_dir seconds (Action.checkpoint step fields) app quiet s =
      checkpoint-Lives step seconds fields app quiet s
  perform-Lives job_dir seconds removed_job_dir app quiet s = s
  perform-Lives job_dir seconds cleaned_partials app quiet s = s
  perform-Lives job_dir seconds removed_cookies app quiet s = s
  perform-Lives job_dir seconds (wrote_cookies text) app quiet s = s
  perform-Lives job_dir seconds (used_cookies text) app quiet s = s

  note_postprocessing-Lives :
      (job_dir : String) (progress : Progress) (r : Running)
      → Lives id r.app.jobs
      → Lives id (note_postprocessing id job_dir progress r).app.jobs
  unfolding note_postprocessing
  note_postprocessing-Lives job_dir progress r s =
      elim (Bool-cases (progress.postprocessing && not r.postprocessed)) [
        | inl e ↦ rw e (set_status-Lives postprocessing Step.download r.app refl s)
        | inr e ↦ rw e s
      ]

  note_progress-Lives :
      (job_dir : String) (now : ℕ) (progress : Progress) (r : Running)
      → Lives id r.app.jobs
      → Lives id (note_progress id job_dir now progress r).app.jobs
  unfolding note_progress write_progress
  note_progress-Lives job_dir now progress r s =
      elim (Bool-cases (leb progress_interval (now - r.last_progress_write))) [
        | inl e ↦ rw e (update-Lives _ r.app refl s)
        | inr e ↦ rw e s
      ]

  happen-Lives :
      (job_dir : String) (m : Moment) (r : Running)
      → each is_quiet (actions_of (m ∷ [])) ≡ true
      → Lives id r.app.jobs
      → Lives id (happen id job_dir m r).app.jobs
  unfolding happen write_attempt tell_progress actions_of
  happen-Lives job_dir (acted seconds action) r quiet s =
      perform-Lives job_dir seconds action r.app (ground (arith, quiet)) s
  happen-Lives job_dir (progressed now progress) r quiet s =
      note_progress-Lives job_dir now progress _ (note_postprocessing-Lives job_dir progress _ s)
  happen-Lives job_dir (attempted number) r quiet s = update-Lives _ r.app refl s
  happen-Lives job_dir (logged line) r quiet s = s
  happen-Lives job_dir (flushed now) r quiet s =
      subst (Lives id) (sym (flush_logs-jobs now id r.lines r.app)) s

  pub happen_all-Lives :
      (job_dir : String) (moments : List Moment) (r : Running)
      → each is_quiet (actions_of moments) ≡ true
      → Lives id r.app.jobs
      → Lives id (happen_all id job_dir moments r).app.jobs
  unfolding happen_all
  happen_all-Lives job_dir [] r quiet s = s
  happen_all-Lives job_dir (m ∷ moments) r quiet s =
      let (one, more) = split-is_quiet m moments quiet in
      happen_all-Lives job_dir moments (happen id job_dir m r) more (happen-Lives job_dir m r one s)
