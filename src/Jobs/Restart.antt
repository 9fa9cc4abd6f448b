-- ===== src/Jobs/Restart.antt =====
-- A cancel that a restart comes between: JobService.cancel, then JobManager.recover.
use mathlib.Core.Option
use fetcharr.Base.{Option, ℕ, String, Bool, true, false, ◌≡◌, ap, ◌∙◌, some, List, arith, is_some}
use fetcharr.Events.{ProgressSnapshot}
use fetcharr.Jobs.Status.{cancelled, is_active, is_cancellable}
use fetcharr.Jobs.Rows.{Job}
use fetcharr.Jobs.App.{App, find_job, cancel_state}
use fetcharr.Jobs.Service.{cancel, asked_row}
use fetcharr.Jobs.Service.Actions.{cancel-running}
use fetcharr.Jobs.Manager.{recover, recovered_row}
use fetcharr.Jobs.Manager.Recovery.{after_restart, recover-rows}

-- The job is there, cancelled, and no request for a cancel is left.
abbrev pub EndsCancelled : String → List Job → Type 0
EndsCancelled id jobs =
    (row : Job) × (find_job id jobs ≡ some row)
    × (row.status ≡ cancelled)
    × (row.cancel_requested ≡ false)

-- A cancel that was accepted for a running job is not lost by a restart: the recovery ends the job as
-- cancelled, even where it would resume the job, and leaves no request for a cancel behind.
pub cancel-recover :
    (live : String → Option ProgressSnapshot) (now later : ℕ) (auto_resume : Bool) (app : App)
    (job : Job)
    → find_job job.id app.jobs ≡ some job
    → is_cancellable job.status ≡ true
    → is_active job.status ≡ true
    → is_some (cancel_state job.id app.cancels) ≡ true
    → EndsCancelled job.id (recover auto_resume later (cancel live now job.id app).1).jobs
unfolding recovered_row
cancel-recover live now later auto_resume app job h ready active running =
    let asked = (cancel-running live now app job h ready running).1 in
    let row = after_restart auto_resume later (asked_row job) in
    let found : find_job job.id (recover auto_resume later (cancel live now job.id app).1).jobs
        ≡ some row =
      (recover-rows auto_resume later (cancel live now job.id app).1).1 job.id
      ∙ ap (Option.map (after_restart auto_resume later)) asked in
    (row, found, ground (arith, active), ground (arith, active))
