-- ===== src/Jobs/Service/Actions.antt =====
-- The table after a user's action: backend/app/jobs/service.py, `cancel`, `retry`, `retry_import`.
use fetcharr.Base.{
  ◌⊎◌, false, none, Option, if◌then◌else◌, ℕ, String, ◌≡◌, refl, Bool, true, some, List, [], ◌∷◌,
  arith, eq_iff, is_some,
}
use fetcharr.Events.{ProgressSnapshot}
use fetcharr.Jobs.Status.{Step, pending, queued, cancelled, is_cancellable, is_failed}
use fetcharr.Jobs.Rows.{Job}
use fetcharr.Jobs.App.{App, find_job, cancel_state, set_cancel}
use fetcharr.Jobs.App.Table.{OnlyChanges, find_job-altered}
use fetcharr.Jobs.Service.{
  Result, ok, err, is_refused, cancel, cancel_found, asked_row, request_cancel, read,
}

-- What an action asks of a row, and what it makes of it.
pub record UserAction : Type 1 where
  pub may : Job → Bool
  pub Becomes : Job → Job → Type 0

-- A job may be cancelled in most of its running statuses. One that has a task is asked to stop, and keeps
-- its status until the task has stopped; one that has none is cancelled.
abbrev pub cancelling : ℕ → Bool → UserAction
cancelling now running = record {
  may = λ job. is_cancellable job.status;
  Becomes = λ was job.
      if running
      then (job.cancel_requested ≡ true) × (job.status ≡ was.status)
      else (job.status ≡ cancelled) × (job.cancel_requested ≡ false) × (job.finished_at ≡ some now);
}

-- A failed job waits again, and its checkpoint is the one that it had.
abbrev pub retrying : UserAction
retrying = record {
  may = λ job. is_failed job.status;
  Becomes = λ was job.
      (job.status ≡ queued)
      × (job.last_completed_step ≡ was.last_completed_step)
      × (job.error_code ≡ none)
      × (job.finished_at ≡ none);
}

-- A job whose import was refused or failed waits again, with the import alone left to do.
abbrev pub reimporting : UserAction
reimporting = record {
  may = λ job. is_refused job.import_status;
  Becomes = λ was job.
      (job.status ≡ queued)
      × (job.last_completed_step ≡ some Step.organize)
      × (job.import_status ≡ pending)
      × (job.finished_at ≡ none);
}

-- What an action does: where the job is there and may be acted on, its row becomes what the action makes
-- of it, the answer is that row with the live snapshot on top, and every other row is as it was; where
-- the job is missing or may not be acted on, it is refused and nothing changes.
abbrev pub ActsOn :
    (String → Option ProgressSnapshot) → UserAction → String → App → Result Job × App → Type 0
ActsOn live action id before (ok answer, after) =
    (was : Job) × ((row : Job) × (find_job id before.jobs ≡ some was)
      × (action.may was ≡ true)
      × (find_job id after.jobs ≡ some row)
      × action.Becomes was row
      × (answer ≡ read (live id) row)
      × OnlyChanges id before.jobs after.jobs)
ActsOn live action id before (err e, after) =
    (after ≡ before)
    × ((find_job id before.jobs ≡ none)
        ⊎ ((was : Job) × (find_job id before.jobs ≡ some was) × (action.may was ≡ false)))

cancel_state-set_cancel :
    (id : String) (on : Bool) (cancels : List (String × Bool))
    → cancel_state id (set_cancel id on cancels) ≡ some on
cancel_state-set_cancel id on [] = ground (arith, eq_iff id id)
cancel_state-set_cancel id on ((key, was) ∷ rest) =
    ground (arith, eq_iff key id, cancel_state-set_cancel id on rest)

-- A cancel of a job that runs and may be cancelled sets its event and asks in its row, whose status it
-- leaves to the job's own task.
pub cancel-running :
    (live : String → Option ProgressSnapshot) (now : ℕ) (app : App) (job : Job)
    → find_job job.id app.jobs ≡ some job
    → is_cancellable job.status ≡ true
    → is_some (cancel_state job.id app.cancels) ≡ true
    → (cancel_state job.id (cancel live now job.id app).1.cancels ≡ some true)
      × (find_job job.id (cancel live now job.id app).1.jobs ≡ some (asked_row job))
unfolding cancel cancel_found request_cancel
cancel-running live now app job h ready running = (
  ground (arith, h, ready, running, cancel_state-set_cancel job.id true app.cancels),
  ground (arith, h, ready, running, find_job-altered job.id asked_row app.jobs job (λ j. refl) h),
)
