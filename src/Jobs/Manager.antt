-- ===== src/Jobs/Manager.antt =====
-- backend/app/jobs/manager.py, `JobManager`: the writes of a
-- running job, its end, and the recovery after a restart. `now` is `utcnow()`. The tasks, the
-- semaphores and the timers of the event loop are not modelled: an operation is one step of the loop,
-- and any order of steps is a list of operations.
pub mod Recovery
pub mod Lifecycle
pub mod Buffer
pub mod Announce
use fetcharr.Base.{
  ℕ, suc, ◌+◌, ◌-◌, String, Bool, true, false, ◌&&◌, ◌||◌, Option, none, some, List, [], ◌∷◌, ◌++◌,
  map, drop, length, str_eq, is_some, or_else, cat, ◌==◌, if◌then◌else◌,
}
use text.Mathlib.Text.{find?}
use fetcharr.Events.{Event, job_state, job_import, job_log, request_summary}
use fetcharr.Jobs.Status.{
  JobStatus, queued, completed, failed, cancelled, Step, ImportStatus, is_active, is_failed,
  is_completed, is_cancelled, step_index,
}
use fetcharr.Jobs.Rows
use fetcharr.Jobs.Rows.{Job, Request, Field, set_fields, movie, tv, other, daily}
use fetcharr.Jobs.App.{
  App, Effect, removed_tree, flagged, forgotten, find_job, alter, publish, effect, set_cancel,
  drop_cancel,
}

-- `_start` and `_forget`
unfoldable pub start : String → App → App
start id app = record app { cancels = set_cancel id false app.cancels }

unfoldable pub forget : String → App → App
forget id app = effect (forgotten id) (record app { cancels = drop_cancel id app.cancels })

-- backend/app/library/naming.py, the targets that a file is named after
pub data Target : Type 0 where
  movie_target : String → Option ℕ → Target
  episode_target : String → ℕ → ℕ → String → Target
  daily_target : String → (air_date : ℕ) → String → Option ℕ → Target
  other_target : String → String → Target

-- `a or b` of an optional text: the empty text counts as missing.
abbrev pub or_text : Option String → String → String
or_text none d = d
or_text (some s) d = if str_eq s "" then d else s

-- `_Claimed.target`, with the claim's `source_title` and `video_id`
unfoldable pub target_of : Job → Request → Target
target_of job request =
    let source_title = or_text job.source_title job.url in
    let series = or_text request.title source_title in
    let title = or_text job.episode_title "" in
    let season = or_else job.season 0 in
    let episode = or_else job.episode 0 in
    elim request.media_type [
      | movie ↦ movie_target series request.year
      | tv ↦ elim request.numbering [
        | some daily ↦ elim job.air_date [
          | some day ↦ daily_target series day title job.season
          | none ↦ episode_target series season episode title
        ]
        | _ ↦ episode_target series season episode title
      ]
      | other ↦ other_target source_title (or_text job.video_id "")
    ]

-- `_update`: `UPDATE jobs SET … WHERE id = …`
unfoldable pub update : String → List Field → App → App
update id fields app = record app { jobs = alter id (set_fields fields) app.jobs }

unfoldable pub set_status : String → JobStatus → Step → App → App
unfolding update
set_status id status step app =
    publish (job_state id status (some step) none)
      (update id (Rows.status status ∷ Rows.phase (some step) ∷ []) app)

set_timing : Step → ℕ → List (Step × ℕ) → List (Step × ℕ)
set_timing step time [] = (step, time) ∷ []
set_timing step time ((key, was) ∷ rest) =
    let later = set_timing step time rest in
    if step_index key == step_index step then (key, time) ∷ rest else (key, was) ∷ later

-- The row that a checkpoint leaves.
unfoldable pub checkpointed_row : Step → ℕ → List Field → Job → Job
unfolding set_timing
checkpointed_row step time fields job = set_fields fields (record job {
  step_timings = set_timing step time job.step_timings;
  last_completed_step = some step;
})

-- What the checkpoint's fields say of the import.
import_of : List Field → Option ImportStatus
import_of [] = none
import_of (Rows.import_status v ∷ fields) = some v
import_of (_ ∷ fields) = import_of fields

path_of : List Field → Option String
path_of [] = none
path_of (Rows.imported_path v ∷ fields) = v
path_of (_ ∷ fields) = path_of fields

pub import_event : String → List Field → Option Event
import_event id fields = elim (import_of fields) [
  | none ↦ none
  | some status ↦ some (job_import id status (path_of fields))
]

unfoldable pub checkpoint : String → Step → ℕ → List Field → App → App
unfolding import_event import_of path_of
checkpoint id step time fields app = elim (find_job id app.jobs) [
  | none ↦ app
  | some job ↦
      let written = record app { jobs = alter id (checkpointed_row step time fields) app.jobs } in
      elim (import_event id fields) [ none ↦ written | some e ↦ publish e written ]
]

-- `_finish`: `progress_pct` is 100 % for a completed job.
unfoldable pub finish_fields : ℕ → JobStatus → Option String → Option String → List Field
finish_fields now status code message =
    Rows.status status
    ∷ Rows.phase none
    ∷ Rows.finished_at (some now)
    ∷ Rows.error_code code
    ∷ Rows.error_message message
    ∷ Rows.speed_bps none
    ∷ Rows.eta_s none
    ∷ (if is_completed status then Rows.progress_pct (some 1000) ∷ [] else [])

pub count_status : (JobStatus → Bool) → String → List Job → ℕ
count_status p request [] = 0
count_status p request (j ∷ rest) =
    let more = count_status p request rest in
    if str_eq j.request_id request && p j.status then suc more else more

-- `_publish_summary`: the summary of the request of a job, when the job is there
unfoldable pub summary_for : List Job → Option Job → List Event
unfolding count_status
summary_for jobs none = []
summary_for jobs (some job) =
    request_summary job.request_id (count_status (λ _. true) job.request_id jobs)
      (count_status is_completed job.request_id jobs) (count_status is_failed job.request_id jobs)
    ∷ []

abbrev pub publish_summary : String → App → App
publish_summary id app = record app {
  events = app.events ++ summary_for app.jobs (find_job id app.jobs);
}

unfoldable pub finish : ℕ → String → JobStatus → Option String → Option String → App → App
unfolding finish_fields update
finish now id status code message app = publish_summary id (
    publish (job_state id status none message)
      (update id (finish_fields now status code message) app))

unfoldable pub finish_cancelled : ℕ → String → String → App → App
unfolding update
finish_cancelled now id job_dir app = publish_summary id (
    publish (job_state id cancelled none none) (
      update id
        (Rows.status cancelled
          ∷ Rows.phase none
          ∷ Rows.finished_at (some now)
          ∷ Rows.cancel_requested false
          ∷ Rows.speed_bps none
          ∷ Rows.eta_s none
          ∷ [])
        (effect (removed_tree job_dir) app)))

abbrev log_buffer_lines : ℕ
log_buffer_lines = 500

-- `lines.append(line)` of a deque that holds the newest lines only
unfoldable pub buffer : String → List String → List String
buffer line lines =
    let longer = lines ++ line ∷ [] in drop (length longer - log_buffer_lines) longer

-- `_flush_logs`, of the lines that were pending
unfoldable pub flush_logs : ℕ → String → List String → App → App
flush_logs now id [] app = app
flush_logs now id (line ∷ lines) app =
    let pending = line ∷ lines in
    publish (job_log id pending) (record app {
      logs = app.logs ++ map (λ l. record { job_id = id; ts = now; line = l }) pending;
    })

-- backend/app/ytdlp/inspect.py, `is_auth_error`
unfoldable pub is_auth_error : String → String → Bool
is_auth_error kind message = str_eq kind "needs_cookies" || is_some (find? message "HTTP Error 403")

-- How `execute` ended: as it should, cancelled, with a kind (or an exception's class) and a message,
-- or by the cancellation of the task itself at shutdown.
pub data RunEnd : Type 0 where
  succeeded interrupted shut_down : RunEnd
  broken : String → String → RunEnd

-- The cookies in use are flagged by a failure that stale cookies explain.
pub flag_cookies : Option String → String → String → App → App
flag_cookies none kind message app = app
flag_cookies (some site) kind message app =
    if is_auth_error kind message then effect (flagged site) app else app

-- The end of `_run_job`: the pending lines first, then the terminal state. A shutdown leaves the row
-- as it is.
unfoldable pub settle : ℕ → String → String → Option String → List String → RunEnd → App → App
unfolding flag_cookies
settle now id job_dir cookies lines succeeded app =
    finish now id completed none none (flush_logs now id lines app)
settle now id job_dir cookies lines interrupted app =
    finish_cancelled now id job_dir (flush_logs now id lines app)
settle now id job_dir cookies lines (broken kind message) app =
    let logged = buffer (cat ("failed: " ∷ message ∷ [])) lines in
    finish now id failed (some kind) (some message)
      (flag_cookies cookies kind message (flush_logs now id logged app))
settle now id job_dir cookies lines shut_down app = app

-- One row of `recover`.
unfoldable pub recovered_row : Bool → ℕ → Job → Job
recovered_row auto_resume now job =
    if job.cancel_requested
    then record job {
      status = cancelled;
      cancel_requested = false;
      finished_at = some now;
      phase = none;
    }
    else if auto_resume
    then record job { status = queued; phase = none }
    else record job {
      status = failed;
      error_code = some "interrupted";
      error_message = some "fetcharr restarted while this job was running";
      finished_at = some now;
      phase = none;
    }

unfoldable pub recover_rows : Bool → ℕ → List Job → List Job
recover_rows auto_resume now [] = []
recover_rows auto_resume now (j ∷ rest) =
    (if is_active j.status then recovered_row auto_resume now j else j)
    ∷ recover_rows auto_resume now rest

-- The folders that are removed once the rows are written.
unfoldable pub cancelled_dirs : List Job → List Effect
cancelled_dirs [] = []
cancelled_dirs (j ∷ rest) =
    let more = cancelled_dirs rest in
    if is_active j.status && j.cancel_requested then removed_tree j.job_dir ∷ more else more

unfoldable pub recover : Bool → ℕ → App → App
unfolding recover_rows cancelled_dirs
recover auto_resume now app = record app {
  jobs = recover_rows auto_resume now app.jobs;
  effects = app.effects ++ cancelled_dirs app.jobs;
}

-- `_job_dirs_in_use`
unfoldable pub job_dirs_in_use : List Job → List String
job_dirs_in_use [] = []
job_dirs_in_use (j ∷ rest) =
    let more = job_dirs_in_use rest in
    if is_failed j.status || is_cancelled j.status then more else j.id ∷ more
