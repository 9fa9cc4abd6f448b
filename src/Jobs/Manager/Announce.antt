-- ===== src/Jobs/Manager/Announce.antt =====
-- The events of a job's end, and the counts of a summary: backend/app/jobs/manager.py.
use fetcharr.Base.{
  ℕ, String, ◌≡◌, refl, sym, ◌∙◌, ◌≤◌, ◌+◌, true, none, some, Option, List, [], ◌∷◌, ◌++◌,
  append_nil, arith, cat,
}
use mathlib.Core.Option.{some-injective}
use fetcharr.Events.{Event, job_state, job_log}
use fetcharr.Jobs.Status.{JobStatus, completed, failed, cancelled, is_completed, is_failed}
use fetcharr.Jobs.Rows.{Job}
use fetcharr.Jobs.App.{App, find_job}
use fetcharr.Jobs.Manager.{
  update, finish, finish_cancelled, flush_logs, settle, RunEnd, succeeded, interrupted, broken,
  shut_down, buffer, flag_cookies, count_status, summary_for,
}
use fetcharr.Jobs.Manager.Lifecycle.{end_status}

-- The summary of the request of a job, or nothing when the job is gone.
abbrev pub summary_of : String → List Job → List Event
summary_of id jobs = summary_for jobs (find_job id jobs)

-- The counts of a summary: the jobs that completed and those that failed are among all of them.
pub count_status-le :
    (id : String) (jobs : List Job)
    → count_status is_completed id jobs + count_status is_failed id jobs
      ≤ count_status (λ _. true) id jobs
unfolding count_status
count_status-le id [] = omega arith
count_status-le id (j ∷ jobs) = ground (arith, count_status-le id jobs)

-- What is heard of the lines that were pending.
abbrev pub logs_of : String → List String → List Event
logs_of id [] = []
logs_of id (line ∷ lines) = job_log id (line ∷ lines) ∷ []

flush_logs-events :
    (now : ℕ) (id : String) (lines : List String) (app : App)
    → (flush_logs now id lines app).events ≡ app.events ++ logs_of id lines
unfolding flush_logs
flush_logs-events now id [] app = sym (append_nil app.events)
flush_logs-events now id (line ∷ lines) app = refl

-- What is said of the job's end in the event of its last state.
abbrev pub end_message : RunEnd → Option String
end_message (broken kind message) = some message
end_message _ = none

-- The lines that are pending when the job ends: a failure adds its own.
abbrev pub end_lines : RunEnd → List String → List String
end_lines (broken kind message) lines = buffer (cat ("failed: " ∷ message ∷ [])) lines
end_lines _ lines = lines

flag_cookies-events :
    (site : Option String) (kind message : String) (app : App)
    → (flag_cookies site kind message app).events ≡ app.events
unfolding flag_cookies
flag_cookies-events none kind message app = refl
flag_cookies-events (some site) kind message app = ground arith

-- The last events of a job: the lines that were pending, its last state, the summary.
abbrev pub last_events :
    String → JobStatus → Option String → List String → List Job → List Event → List Event
last_events id end message lines jobs before =
    ((before ++ logs_of id lines) ++ job_state id end none message ∷ []) ++ summary_of id jobs

announced :
    (id : String) (end status : JobStatus) (message : Option String) (lines : List String)
    (jobs : List Job) (before flushed : List Event)
    → flushed ≡ before ++ logs_of id lines
    → some end ≡ some status
    → (flushed ++ job_state id end none message ∷ []) ++ summary_of id jobs
      ≡ last_events id status message lines jobs before
announced id end status message lines jobs before flushed same h =
    rw (same, some-injective _ _ h) refl

-- A subscriber hears of a job's end in this order: the lines that were pending, all of them, then the
-- last state, then at most the summary of the request.
pub settle-events :
    (now : ℕ) (id job_dir : String) (cookies : Option String) (lines : List String) (end : RunEnd)
    (app : App) (status : JobStatus)
    → end_status end ≡ some status
    → (settle now id job_dir cookies lines end app).events
      ≡ last_events id status
          (end_message end)
          (end_lines end lines)
          (settle now id job_dir cookies lines end app).jobs
          app.events
unfolding settle finish finish_cancelled update
settle-events now id job_dir cookies lines succeeded app status h =
    announced id completed status none lines _ _ _ (flush_logs-events now id lines app) h
settle-events now id job_dir cookies lines interrupted app status h =
    announced id cancelled status none lines _ _ _ (flush_logs-events now id lines app) h
settle-events now id job_dir cookies lines (broken kind message) app status h =
    let logged = buffer (cat ("failed: " ∷ message ∷ [])) lines in
    announced id failed status (some message) logged _ _ _
      (flag_cookies-events cookies kind message (flush_logs now id logged app)
        ∙ flush_logs-events now id logged app)
      h
settle-events now id job_dir cookies lines shut_down app status h = absurd (ground arith)
