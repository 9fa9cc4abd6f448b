-- ===== src/Jobs/Run/Tests.antt =====
-- A run that resumes after the download, on a table of two rows, and the table after it.
use fetcharr.Base.{
  ℕ, ◌++◌, arith, All, Text, codes, Option, ◌≡◌, refl, true, false, none, some, List, [], ◌∷◌,
}
use fetcharr.Jobs.Status.{Step, pending, starting, transcoding, organizing, importing}
use fetcharr.Jobs.Rows
use fetcharr.Jobs.Rows.{Job}
use fetcharr.Jobs.App.{App, find_job}
use fetcharr.Ytdlp.Options.{DownloadOptions, TranscodeProfile}
use fetcharr.Jobs.Manager.{shut_down, recover, RunEnd, target_of}
use fetcharr.Jobs.Rows.{Request}
use fetcharr.Jobs.Tests.{a_job, a_request, plain}
use fetcharr.Jobs.Pipeline.{
  Action, removed_job_dir, Surroundings, shutdown, did, stopped, failure, execute, steps_after,
}
use fetcharr.Jobs.Pipeline.Checkpoints.{checkpoints_of}
use fetcharr.Jobs.Run.{Moment, acted, attempted, logged, flushed, run_job, actions_of, context_of}
use fetcharr.Jobs.Run.{quality_for}
use fetcharr.Jobs.Run.Shutdown.{Waits, run_job-recover}
use fetcharr.Jobs.Run.Quality.{Granted, chosen, quality_for-Granted}
use fetcharr.Settings.Values.{Change, quality, above, get}
use fetcharr.Settings.InForce.{nothing_stored, update_all}
use fetcharr.Jobs.Run.Resumes.{Resumes, run_job-Resumes}

-- The import meets an arr app that cannot be reached.
abbrev around : Surroundings
around = record {
  cancelled = λ _. false;
  slot_cancelled = λ _. false;
  download_done = none;
  argv = some [];
  download = λ argv. did "/jobs/a/x.mkv";
  cookies = none;
  refreshed = none;
  unsaved = none;
  final_path = did "/jobs/a/x.mkv";
  transcode_done = false;
  transcode = λ path. did true;
  is_organized = λ path completed. false;
  organize = λ path. did (record { video = "/completed/film.mp4"; sidecars = []; size = 10 });
  import = λ completed. stopped (failure "OSError" "no route");
}

abbrev running : Job
running = record (a_job "a" starting 1) {
  last_completed_step = some Step.download;
  import_status = pending;
}

abbrev asked : Request
asked = record a_request { options = record plain { transcode = TranscodeProfile.x265_software } }

abbrev app : App
app = record {
  jobs = a_job "b" starting 2 ∷ running ∷ [];
  requests = a_request ∷ [];
  logs = [];
  cancels = ("a", false) ∷ [];
  woken = false;
  events = [];
  effects = [];
}

abbrev moments : List Moment
moments =
    logged "ffmpeg"
    ∷ acted 0 (Action.set_status transcoding Step.transcode)
    ∷ flushed 5
    ∷ acted 7 (Action.checkpoint Step.transcode (Rows.transcode_fallback_used true ∷ []))
    ∷ attempted 2
    ∷ acted 0 (Action.set_status organizing Step.organize)
    ∷ acted 8 (
        Action.checkpoint Step.organize (
          Rows.completed_path "/completed/film.mp4"
          ∷ Rows.sidecar_paths []
          ∷ Rows.file_size 10
          ∷ []))
    ∷ acted 0 removed_job_dir
    ∷ acted 0 (Action.set_status importing Step.import)
    ∷ []

abbrev end : RunEnd
end = (execute around (context_of running asked) none).0

moments_lem : actions_of moments ≡ (execute around (context_of running asked) none).1.actions
unfolding actions_of execute context_of steps_after target_of
moments_lem = refl

run_job-Resumes_example :
    Resumes 9 "a"
      (some Step.download)
      end
      (checkpoints_of (actions_of moments))
      app.jobs
      (run_job 9 running none moments end app).jobs
unfolding context_of find_job
run_job-Resumes_example =
    run_job-Resumes 9 running asked none none around moments app running refl refl moments_lem

-- The same run, stopped by a shutdown while the arr app is asked.
abbrev stopped_around : Surroundings
stopped_around = record around { import = λ completed. stopped shutdown }

stopped_moments_lem :
    actions_of moments ≡ (execute stopped_around (context_of running asked) none).1.actions
unfolding actions_of execute context_of steps_after target_of
stopped_moments_lem = refl

stopped_lem : (execute stopped_around (context_of running asked) none).0 ≡ shut_down
unfolding execute context_of steps_after target_of
stopped_lem = refl

run_job-recover_example :
    (step : Step) × ((rest : List Step) × (checkpoints_of (actions_of moments) ++ step ∷ rest
        ≡ steps_after (some Step.download))
      × Waits "a"
          (step ∷ rest)
          (recover true 20 (run_job 9 running none moments shut_down app)).jobs)
unfolding find_job
run_job-recover_example =
    run_job-recover 9 20 running asked none none stopped_around moments app running refl refl refl
      (λ path fields h. absurd (ground (arith, h))) stopped_moments_lem stopped_lem

abbrev seal : ℕ → Text → Text
seal salt text = salt ∷ text

abbrev unseal : Text → Option Text
unseal [] = none
unseal (salt ∷ text) = some text

-- A quality of the software profile is stored, and the request gives its own.
abbrev updates : List (ℕ × List Change)
updates = (9, quality ((codes "x265-software", above 30) ∷ []) ∷ []) ∷ []

abbrev own : DownloadOptions
own = record plain { transcode = TranscodeProfile.hevc_qsv; transcode_quality = some 18 }

quality_for-Granted_example :
    let s = update_all seal unseal updates nothing_stored in
    ((name : Text) → get name (quality_for own s) ≡ chosen own s name)
    × All (Granted own) (quality_for own s)
quality_for-Granted_example = quality_for-Granted seal unseal updates own refl
