-- ===== src/Jobs/Run.antt =====
-- backend/app/jobs/manager.py, `JobManager._run_job`: what a run is given, and what its pipeline's actions
-- and callbacks write while it runs, up to its end. The actions and the callbacks come in any order, one
-- step of the event loop each; a write that a callback spawns is made at once. The folder of the job is
-- there. Times are microseconds. What the pipeline does to the partial files and to the cookie file
-- stays in its actions.
pub mod Stands
pub mod Resumes
pub mod Lives
pub mod Shutdown
pub mod Quality
mod Tests
use fetcharr.Base.{
  ℕ, ◌-◌, leb, String, Bool, true, false, not, ◌&&◌, Option, none, some, List, [], ◌∷◌, Text, codes,
  if◌then◌else◌,
}
use fetcharr.Events.{job_progress}
use fetcharr.Ytdlp.Options.{DownloadOptions, is_transcoded}
use fetcharr.Ytdlp.Progress.{Progress}
use fetcharr.Transcode.Profiles.{profile_name}
use fetcharr.Settings.{Env, radarr, sonarr, quality_in_force}
use fetcharr.Settings.Values.{Dict, put, Stored}
use fetcharr.Jobs.Status.{postprocessing, Step}
use fetcharr.Jobs.Rows
use fetcharr.Jobs.Rows.{Job, Request, MediaType, movie, tv, other}
use fetcharr.Jobs.App.{App, removed_tree, publish, effect}
use fetcharr.Jobs.Manager.{
  RunEnd, target_of, update, set_status, checkpoint, buffer, flush_logs, settle,
}
use fetcharr.Jobs.Pipeline.{Action, Context, removed_job_dir}

-- The part of `PipelineContext` that decides which steps have work to do.
unfoldable pub context_of : Job → Request → Context
context_of job request = record {
  transcodes = is_transcoded request.options.transcode;
  target = target_of job request;
  import_status = job.import_status;
  last_completed_step = job.last_completed_step;
}

-- `_transcode_quality`
unfoldable pub quality_for : DownloadOptions → Stored → Dict ℕ
quality_for options s =
    if not (is_transcoded options.transcode) then [] else elim options.transcode_quality [
      | none ↦ quality_in_force s
      | some n ↦ put (codes (profile_name options.transcode)) n (quality_in_force s)
    ]

-- The connections that are resolved before the first step.
unfoldable pub connections_for :
    (encrypt : ℕ → Text → Text) (decrypt : Text → Option Text)
    → MediaType
    → (radarr_env sonarr_env : Env) → Stored
    → Option (Text × Text) × Option (Text × Text)
connections_for encrypt decrypt movie radarr_env sonarr_env s =
    (radarr encrypt decrypt radarr_env s, none)
connections_for encrypt decrypt tv radarr_env sonarr_env s =
    (none, sonarr encrypt decrypt sonarr_env s)
connections_for encrypt decrypt other radarr_env sonarr_env s = (none, none)

abbrev pub progress_interval : ℕ
progress_interval = 2000000

-- The variables of `_run_job` that its callbacks change, and the state that it shares.
pub record Running : Type 0 where
  pub lines : List String
  pub last_progress_write : ℕ
  pub postprocessed : Bool
  pub app : App

-- What happens in a run: an action of the pipeline, with the seconds that a checkpoint is given; a
-- progress report, with the loop's time; an attempt; a line of the log; a flush of the log.
pub data Moment : Type 0 where
  acted : ℕ → Action → Moment
  progressed : ℕ → Progress → Moment
  attempted : ℕ → Moment
  logged : String → Moment
  flushed : ℕ → Moment

module _ (id job_dir : String) where
  unfoldable pub perform : ℕ → Action → App → App
  perform seconds (Action.set_status status step) app = set_status id status step app
  perform seconds (Action.checkpoint step fields) app = checkpoint id step seconds fields app
  perform seconds removed_job_dir app = effect (removed_tree job_dir) app
  perform seconds _ app = app

  -- `_write_progress`
  unfoldable pub write_progress : Progress → App → App
  write_progress progress app =
      update id
        (Rows.progress_pct progress.pct
          ∷ Rows.downloaded_bytes (some progress.downloaded_bytes)
          ∷ Rows.total_bytes progress.total_bytes
          ∷ Rows.speed_bps progress.speed_bps
          ∷ Rows.eta_s progress.eta_s
          ∷ [])
        app

  -- `_write_attempt`
  unfoldable pub write_attempt : ℕ → App → App
  write_attempt number app = update id (Rows.attempt number ∷ []) app

  -- `hub.publish("job.progress", _progress_event(…))`
  unfoldable pub tell_progress : Progress → App → App
  tell_progress progress app =
      publish
        (job_progress id (record {
          progress_pct = progress.pct;
          downloaded_bytes = some progress.downloaded_bytes;
          total_bytes = progress.total_bytes;
          speed_bps = progress.speed_bps;
          eta_s = progress.eta_s;
        }))
        app

  -- The first report of the postprocessing sets the job's status.
  unfoldable pub note_postprocessing : Progress → Running → Running
  note_postprocessing progress r =
      if progress.postprocessing && not r.postprocessed
      then record r { postprocessed = true; app = set_status id postprocessing Step.download r.app }
      else r

  -- At most one write of the progress in an interval.
  unfoldable pub note_progress : ℕ → Progress → Running → Running
  note_progress now progress r =
      if leb progress_interval (now - r.last_progress_write)
      then record r { last_progress_write = now; app = write_progress progress r.app }
      else r

  unfoldable pub happen : Moment → Running → Running
  happen (acted seconds action) r = record r { app = perform seconds action r.app }
  happen (progressed now progress) r =
      note_progress now progress
        (note_postprocessing progress (record r { app = tell_progress progress r.app }))
  happen (attempted number) r = record r { app = write_attempt number r.app }
  happen (logged line) r = record r { lines = buffer line r.lines }
  happen (flushed now) r = record r { lines = []; app = flush_logs now id r.lines r.app }

  unfoldable pub happen_all : List Moment → Running → Running
  happen_all [] r = r
  happen_all (m ∷ moments) r = happen_all moments (happen m r)

abbrev pub begun : App → Running
begun app = record { lines = []; last_progress_write = 0; postprocessed = false; app = app }

-- `_run_job`, with the site whose cookies are in use, by what happens in the pipeline and how it ends
unfoldable pub run_job : ℕ → Job → Option String → List Moment → RunEnd → App → App
run_job now job cookies moments end app =
    let last = happen_all job.id job.job_dir moments (begun app) in
    settle now job.id job.job_dir cookies last.lines end last.app

-- The actions of the pipeline among the moments, in order.
unfoldable pub actions_of : List Moment → List Action
actions_of [] = []
actions_of (acted seconds action ∷ moments) = action ∷ actions_of moments
actions_of (_ ∷ moments) = actions_of moments
