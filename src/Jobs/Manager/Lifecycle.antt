-- ===== src/Jobs/Manager/Lifecycle.antt =====
-- The rows after the end of a job's task: backend/app/jobs/manager.py, the end of `_run_job`.
use mathlib.Core.Path.{subst}
use fetcharr.Base.{◌∙◌, cat, ℕ, String, ◌≡◌, refl, none, some, Option, List, [], ◌∷◌, arith, eq_iff}
use mathlib.Core.Option
use mathlib.Core.Option.{some-injective}
use fetcharr.Jobs.Status.{JobStatus, completed, failed, cancelled}
use fetcharr.Jobs.Rows.{Job, set_field, set_fields}
use fetcharr.Jobs.App.{App, find_job, alter}
use fetcharr.Jobs.App.Table.{KeepsId, OnlyChanges, alter-OnlyChanges, find_job-alter}
use fetcharr.Jobs.Manager.{
  update, finish, finish_fields, finish_cancelled, flush_logs, settle, RunEnd, succeeded,
  interrupted, broken, shut_down, buffer, flag_cookies,
}

pub flush_logs-jobs :
    (now : ℕ) (id : String) (lines : List String) (app : App)
    → (flush_logs now id lines app).jobs ≡ app.jobs
unfolding flush_logs
flush_logs-jobs now id [] app = refl
flush_logs-jobs now id (line ∷ lines) app = refl

pub flag_cookies-jobs :
    (site : Option String) (kind message : String) (app : App)
    → (flag_cookies site kind message app).jobs ≡ app.jobs
unfolding flag_cookies
flag_cookies-jobs none kind message app = refl
flag_cookies-jobs (some site) kind message app = ground arith

-- The status that an end leaves, when it leaves one.
abbrev pub end_status : RunEnd → Option JobStatus
end_status succeeded = some completed
end_status interrupted = some cancelled
end_status (broken kind message) = some failed
end_status shut_down = none

-- The columns of a job that has ended.
pub record HasEnded (now : ℕ) (end : JobStatus) (job : Job) : Type 0 where
  pub status : job.status ≡ end
  pub phase : job.phase ≡ none
  pub speed : job.speed_bps ≡ none
  pub eta : job.eta_s ≡ none
  pub finished : job.finished_at ≡ some now

-- The row of a job that has ended; a job that was deleted meanwhile stays deleted.
abbrev pub RowEnded : ℕ → JobStatus → Option Job → Option Job → Type 0
RowEnded now end none none = Unit
RowEnded now end (some was) (some job) = HasEnded now end job
RowEnded now end _ _ = ⊥

-- What an end does to the table: the row of the job has ended, and the other rows are as they were.
pub record Ends (now : ℕ) (id : String) (end : JobStatus) (before after : List Job) : Type 0 where
  pub ended : RowEnded now end (find_job id before) (find_job id after)
  pub others : OnlyChanges id before after

RowEnded-map :
    (now : ℕ) (end : JobStatus) (f : Job → Job) (row : Option Job)
    → ((job : Job) → HasEnded now end (f job))
    → RowEnded now end row (Option.map f row)
RowEnded-map now end f none ends = tt
RowEnded-map now end f (some job) ends = ends job

-- The end by a change of the row.
alter-Ends :
    (now : ℕ) (id : String) (end : JobStatus) (f : Job → Job) (jobs : List Job)
    → KeepsId f
    → ((job : Job) → HasEnded now end (f job))
    → Ends now id end jobs (alter id f jobs)
alter-Ends now id end f jobs keeps ends =
    let same : Option.map f (find_job id jobs) ≡ find_job id (alter id f jobs) =
      ground (arith, find_job-alter id f id jobs keeps, eq_iff id id) in
    record {
      ended =
          subst (RowEnded now end (find_job id jobs)) same
            (RowEnded-map now end f (find_job id jobs) ends);
      others = alter-OnlyChanges id f jobs keeps;
    }

finish-Ends :
    (now : ℕ) (id : String) (end : JobStatus) (code message : Option String) (app : App)
    → Ends now id end app.jobs (finish now id end code message app).jobs
unfolding finish update set_fields set_field finish_fields
finish-Ends now id end code message app =
    let f = set_fields (finish_fields now end code message) in
    alter-Ends now id end f app.jobs (λ j. ground arith)
      (λ j. record {
        status = ground arith;
        phase = ground arith;
        speed = ground arith;
        eta = ground arith;
        finished = ground arith;
      })

finish_cancelled-Ends :
    (now : ℕ) (id job_dir : String) (app : App)
    → Ends now id cancelled app.jobs (finish_cancelled now id job_dir app).jobs
unfolding finish_cancelled update set_fields set_field
finish_cancelled-Ends now id job_dir app =
    alter-Ends now id cancelled _ app.jobs (λ j. refl)
      (λ j. record { status = refl; phase = refl; speed = refl; eta = refl; finished = refl })

Ends-from :
    (now : ℕ) (id : String) (end status : JobStatus) (before was after : List Job)
    → before ≡ was
    → some end ≡ some status
    → Ends now id end before after
    → Ends now id status was after
Ends-from now id end status before was after same h ends =
    subst (λ x. Ends now id status x after) same
      (subst (λ x. Ends now id x before after) (some-injective _ _ h) ends)

-- However the run of a job ended, but by a shutdown, the row of the job ends with the status that
-- belongs to that end, without a phase, a speed or a remaining time; no row appears or disappears, and
-- the other rows are as they were.
pub settle-Ends :
    (now : ℕ) (id job_dir : String) (cookies : Option String) (lines : List String) (end : RunEnd)
    (app : App) (status : JobStatus)
    → end_status end ≡ some status
    → Ends now id status app.jobs (settle now id job_dir cookies lines end app).jobs
unfolding settle
settle-Ends now id job_dir cookies lines succeeded app status h =
    Ends-from now id completed status _ app.jobs _ (flush_logs-jobs now id lines app) h
      (finish-Ends now id completed none none (flush_logs now id lines app))
settle-Ends now id job_dir cookies lines interrupted app status h =
    Ends-from now id cancelled status _ app.jobs _ (flush_logs-jobs now id lines app) h
      (finish_cancelled-Ends now id job_dir (flush_logs now id lines app))
settle-Ends now id job_dir cookies lines (broken kind message) app status h =
    let logged = buffer (cat ("failed: " ∷ message ∷ [])) lines in
    let same =
      flag_cookies-jobs cookies kind message (flush_logs now id logged app)
      ∙ flush_logs-jobs now id logged app in
    Ends-from now id failed status _ app.jobs _ same h (
      finish-Ends now id failed (some kind) (some message)
        (flag_cookies cookies kind message (flush_logs now id logged app)))
settle-Ends now id job_dir cookies lines shut_down app status h = absurd (ground arith)
