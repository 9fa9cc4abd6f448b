-- ===== src/Jobs/Manager/Recovery.antt =====
-- The rows after a restart: backend/app/jobs/manager.py, `recover`.
use fetcharr.Base.{
  append_nil, ℕ, String, ◌≡◌, refl, Bool, false, List, [], ◌∷◌, ◌++◌, All, arith, if◌then◌else◌,
}
use mathlib.Core.Option
use fetcharr.Jobs.Status.{is_active}
use fetcharr.Jobs.Rows.{Job}
use fetcharr.Jobs.App.{App, find_job}
use fetcharr.Jobs.Manager.{recovered_row, recover_rows, cancelled_dirs, recover}

-- What `recover` makes of a row.
abbrev pub after_restart : Bool → ℕ → Job → Job
after_restart auto_resume now job =
    if is_active job.status then recovered_row auto_resume now job else job

recovered_row-idle :
    (auto_resume : Bool) (now : ℕ) (job : Job)
    → is_active (after_restart auto_resume now job).status ≡ false
unfolding recovered_row
recovered_row-idle auto_resume now job = ground arith

recovered_row-id :
    (auto_resume : Bool) (now : ℕ) (job : Job) → (after_restart auto_resume now job).id ≡ job.id
unfolding recovered_row
recovered_row-id auto_resume now job = ground arith

find_job-recover_rows :
    (auto_resume : Bool) (now : ℕ) (id : String) (jobs : List Job)
    → find_job id (recover_rows auto_resume now jobs)
      ≡ Option.map (after_restart auto_resume now) (find_job id jobs)
unfolding find_job recover_rows
find_job-recover_rows auto_resume now id [] = ground arith
find_job-recover_rows auto_resume now id (j ∷ jobs) =
    ground
      (arith, find_job-recover_rows auto_resume now id jobs, recovered_row-id auto_resume now j)

recover_rows-idle :
    (auto_resume : Bool) (now : ℕ) (jobs : List Job)
    → All (λ j. is_active j.status ≡ false) (recover_rows auto_resume now jobs)
unfolding recover_rows
recover_rows-idle auto_resume now [] = tt
recover_rows-idle auto_resume now (j ∷ jobs) =
    (recovered_row-idle auto_resume now j, recover_rows-idle auto_resume now jobs)

recover_rows-fixed :
    (auto_resume : Bool) (now : ℕ) (jobs : List Job)
    → All (λ j. is_active j.status ≡ false) jobs
    → recover_rows auto_resume now jobs ≡ jobs
unfolding recover_rows
recover_rows-fixed auto_resume now [] idle = refl
recover_rows-fixed auto_resume now (j ∷ jobs) (e, idle) =
    ground (arith, e, recover_rows-fixed auto_resume now jobs idle)

cancelled_dirs-idle :
    (jobs : List Job) → All (λ j. is_active j.status ≡ false) jobs → cancelled_dirs jobs ≡ []
unfolding cancelled_dirs
cancelled_dirs-idle [] idle = refl
cancelled_dirs-idle (j ∷ jobs) (e, idle) = ground (arith, e, cancelled_dirs-idle jobs idle)

-- After a recovery no row is active, and a lookup finds the row it found before: as it was when the
-- job was not active, and recovered when it was.
pub recover-rows :
    (auto_resume : Bool) (now : ℕ) (app : App)
    → All (λ j. is_active j.status ≡ false) (recover auto_resume now app).jobs
      × ((id : String)
          → find_job id (recover auto_resume now app).jobs
            ≡ Option.map (after_restart auto_resume now) (find_job id app.jobs))
unfolding recover
recover-rows auto_resume now app = (
  recover_rows-idle auto_resume now app.jobs,
  λ id. find_job-recover_rows auto_resume now id app.jobs,
)

-- A second recovery, whatever its time and its setting, changes nothing and removes no folder.
pub recover-twice :
    (auto_resume again : Bool) (now later : ℕ) (app : App)
    → recover again later (recover auto_resume now app) ≡ recover auto_resume now app
unfolding recover
recover-twice auto_resume again now later app =
    let rows = recover_rows auto_resume now app.jobs in
    let idle : All (λ j. is_active j.status ≡ false) rows =
      recover_rows-idle auto_resume now app.jobs in
    rw
      (
        recover_rows-fixed again later rows idle,
        cancelled_dirs-idle rows idle,
        append_nil (app.effects ++ cancelled_dirs app.jobs),
      )
      refl
