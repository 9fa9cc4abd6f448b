-- ===== src/Jobs/Pipeline.antt =====
-- backend/app/jobs/pipeline.py, `execute`: the four steps of a job behind their done-checks, each with
-- its checkpoint. What a step's own work answers (ffprobe, yt-dlp, ffmpeg, the organizer, the import)
-- is a field of `Surroundings`; what the pipeline tells the JobManager is the list of its actions.
pub mod Checkpoints
pub mod Quiet
pub mod Resume
pub mod Cookies
mod Tests
use fetcharr.Base.{
  ℕ, String, Bool, true, false, Option, none, some, List, [], ◌∷◌, ◌++◌, if◌then◌else◌,
}
use fetcharr.Jobs.Status.{
  JobStatus, downloading, transcoding, organizing, importing, Step, ImportStatus, imported,
  not_imported,
}
use fetcharr.Jobs.Rows
use fetcharr.Jobs.Rows.{Field}
use fetcharr.Jobs.Manager.{RunEnd, succeeded, interrupted, shut_down, broken, Target, other_target}

-- An exception: `DownloadCancelled` or `TranscodeCancelled`, the task's own cancellation, any other.
pub data Stop : Type 0 where
  cancel shutdown : Stop
  failure : String → String → Stop

abbrev pub end_of : Stop → RunEnd
end_of cancel = interrupted
end_of shutdown = shut_down
end_of (failure kind message) = broken kind message

-- The answer of a piece of work, or the exception that it raised.
pub data Work (A : Type 0) : Type 0 where
  did : A → Work A
  stopped : Stop → Work A

-- `Organized`
pub record Organized : Type 0 where
  pub video : String
  pub sidecars : List String
  pub size : ℕ

-- What a run meets. `cancelled` tells whether the cancel event is set when a step begins,
-- `slot_cancelled` when it has its slot; `download_done` is `_download_done`, `argv` what `build_argv`
-- gives for the job (none where it raises), `download` the run of yt-dlp, `cookies` the site's cookie
-- file, `refreshed` what yt-dlp left in it, and `unsaved` what `on_cookies_used` raises, where it is called.
pub record Surroundings : Type 0 where
  pub cancelled : Step → Bool
  pub slot_cancelled : Step → Bool
  pub download_done : Option String
  pub argv : Option (List String)
  pub download : List String → Work String
  pub cookies : Option String
  pub refreshed : Option String
  pub unsaved : Option Stop
  pub final_path : Work String
  pub transcode_done : Bool
  pub transcode : String → Work Bool
  pub is_organized : String → Option String → Bool
  pub organize : String → Work Organized
  pub import : Option String → Work (List Field)

pub record Context : Type 0 where
  pub transcodes : Bool
  pub target : Target
  pub import_status : ImportStatus
  pub last_completed_step : Option Step

-- What the JobManager and the file system are asked for, in order.
pub data Action : Type 0 where
  set_status : JobStatus → Step → Action
  checkpoint : Step → List Field → Action
  removed_job_dir cleaned_partials removed_cookies : Action
  wrote_cookies used_cookies : String → Action

pub record Run : Type 0 where
  pub video_path : Option String
  pub completed_path : Option String
  pub actions : List Action

abbrev pub act : Action → Run → Run
act action run = record run { actions = run.actions ++ action ∷ [] }

-- `STEPS[start:]`
unfoldable pub steps_after : Option Step → List Step
steps_after none = Step.download ∷ Step.transcode ∷ Step.organize ∷ Step.import ∷ []
steps_after (some Step.download) = Step.transcode ∷ Step.organize ∷ Step.import ∷ []
steps_after (some Step.transcode) = Step.organize ∷ Step.import ∷ []
steps_after (some Step.organize) = Step.import ∷ []
steps_after (some Step.import) = []

-- `import_status not in IMPORT_DONE`
abbrev pub needs_import : ImportStatus → Bool
needs_import imported = false
needs_import not_imported = false
needs_import _ = true

abbrev pub is_other : Target → Bool
is_other (other_target title id) = true
is_other _ = false

module _ (around : Surroundings) (context : Context) where
  -- `_download`: the cookie file that is written once the slot is held, what is done with it and with
  -- the partial files when yt-dlp has ended, and its removal, however the step ends.
  written : Option String → List Action
  written none = []
  written (some text) = wrote_cookies text ∷ []

  used : Option String → Option String → List Action
  used (some text) (some left) = used_cookies left ∷ []
  used _ _ = []

  left_by : Work String → List Action
  unfolding used
  left_by (did path) = used around.cookies around.refreshed
  left_by (stopped (failure kind message)) = cleaned_partials ∷ []
  left_by (stopped _) = []

  removed : Option String → List Action
  removed none = []
  removed (some text) = removed_cookies ∷ []

  act_all : List Action → Run → Run
  act_all actions run = record run { actions = run.actions ++ actions }

  held : Work String → List Action
  unfolding written left_by removed
  held w = written around.cookies ++ (left_by w ++ removed around.cookies)

  -- The exception of `on_cookies_used`, which is called for a cookie file that is still there.
  not_saved : Option String → Option String → Option Stop
  not_saved (some text) (some left) = around.unsaved
  not_saved _ _ = none

  pub returned : Option Stop → String → Run → Work (List Field) × Run
  returned none path run = (did [], record run { video_path = some path })
  returned (some end) path run = (stopped end, run)

  downloaded : Work String → Run → Work (List Field) × Run
  unfolding held act_all not_saved returned
  downloaded (stopped end) run = (stopped end, act_all (held (stopped end)) run)
  downloaded (did path) run =
      returned (not_saved around.cookies around.refreshed) path (act_all (held (did path)) run)

  start_download : Option (List String) → Run → Work (List Field) × Run
  unfolding downloaded act_all removed
  start_download none run = (stopped (failure "ValueError" "URL must not start with '-'"), run)
  start_download (some argv) run =
      if around.slot_cancelled Step.download
      then (stopped cancel, act_all (removed around.cookies) run)
      else downloaded (around.download argv) (act (set_status downloading Step.download) run)

  download_step : Option String → Run → Work (List Field) × Run
  unfolding start_download
  download_step (some path) run = (did [], record run { video_path = some path })
  download_step none run = start_download around.argv run

  -- `video_path`, read from `final_path` where no step of this run has given it
  video : Option String → Work String
  video (some path) = did path
  video none = around.final_path

  pub transcoded : Work Bool → Run → Work (List Field) × Run
  transcoded (stopped end) run = (stopped end, run)
  transcoded (did fell_back) run = (did (Rows.transcode_fallback_used fell_back ∷ []), run)

  -- `_transcode`
  transcode_video : Work String → Run → Work (List Field) × Run
  unfolding transcoded
  transcode_video (stopped end) run = (stopped end, run)
  transcode_video (did path) run =
      let seen = record run { video_path = some path } in
      if around.slot_cancelled Step.transcode
      then (stopped cancel, seen)
      else transcoded (around.transcode path) (act (set_status transcoding Step.transcode) seen)

  transcode_step : Run → Work (List Field) × Run
  unfolding transcode_video video
  transcode_step run =
      if context.transcodes
      then (if around.transcode_done
          then (did [], run)
          else transcode_video (video run.video_path) run)
      else (did [], run)

  pub organized : Work Organized → Run → Work (List Field) × Run
  organized (stopped end) run = (stopped end, run)
  organized (did result) run = (
    did (
        Rows.completed_path result.video
        ∷ Rows.sidecar_paths result.sidecars
        ∷ Rows.file_size result.size
        ∷ []),
    record run { completed_path = some result.video },
  )

  -- `_organize`, up to its checkpoint
  organize_video : Work String → Run → Work (List Field) × Run
  unfolding organized
  organize_video (stopped end) run = (stopped end, run)
  organize_video (did path) run =
      let seen = record run { video_path = some path } in
      if around.is_organized path run.completed_path
      then (did [], seen)
      else organized (around.organize path) (act (set_status organizing Step.organize) seen)

  -- `_import`, up to its checkpoint
  import_step : Run → Work (List Field) × Run
  import_step run =
      if is_other context.target
      then (did [], run)
      else if needs_import context.import_status
      then (around.import run.completed_path, act (set_status importing Step.import) run)
      else (did [], run)

  pub step_work : Step → Run → Work (List Field) × Run
  unfolding download_step transcode_step organize_video import_step video
  step_work Step.download run = download_step around.download_done run
  step_work Step.transcode run = transcode_step run
  step_work Step.organize run = organize_video (video run.video_path) run
  step_work Step.import run = import_step run

  -- The job folder goes once the checkpoint of a real organize step is written.
  pub clean : Step → List Field → Run → Run
  clean Step.organize (field ∷ fields) run = act removed_job_dir run
  clean _ _ run = run

  -- The checkpoint of a step whose work is done, or the end of the run.
  step_ended : Step → Work (List Field) × Run → Option Stop × Run
  unfolding clean
  step_ended step (stopped end, run) = (some end, run)
  step_ended step (did fields, run) = (none, clean step fields (act (checkpoint step fields) run))

  -- The rest of the steps follows, unless this one stopped the run.
  continued : Option Stop × Run → RunEnd × Run → RunEnd × Run
  continued (none, next) later = later
  continued (some end, next) later = (end_of end, next)

  run_steps : List Step → Run → RunEnd × Run
  unfolding step_work step_ended continued
  run_steps [] run = (succeeded, run)
  run_steps (step ∷ rest) run =
      let next = step_ended step (step_work step run) in
      let later = run_steps rest next.1 in
      if around.cancelled step then (interrupted, run) else continued next later

  -- `execute`
  unfoldable pub execute : Option String → RunEnd × Run
  unfolding run_steps
  execute completed_path =
      run_steps (steps_after context.last_completed_step)
        (record { video_path = none; completed_path = completed_path; actions = [] })
