-- ===== src/Jobs/Pipeline/Tests.antt =====
-- A run of the pipeline that resumes after the download, and its property there.
use fetcharr.Base.{true, false, none, some, [], ◌∷◌}
use fetcharr.Jobs.Status.{Step, pending}
use fetcharr.Jobs.Manager.{movie_target}
use fetcharr.Jobs.Pipeline.{Surroundings, Context, did, stopped, failure, execute, steps_after}
use fetcharr.Jobs.Pipeline.Cookies.{IsClear, execute-IsClear}
use fetcharr.Jobs.Pipeline.Resume.{Reached, execute-Reached}

abbrev around : Surroundings
around = record {
  cancelled = λ _. false;
  slot_cancelled = λ _. false;
  download_done = none;
  argv = some [];
  download = λ argv. stopped (failure "YtDlpFatal" "no network");
  cookies = some "# Netscape";
  refreshed = none;
  unsaved = none;
  final_path = did "/jobs/1/x.mp4";
  transcode_done = false;
  transcode = λ path. did true;
  is_organized = λ path completed. false;
  organize = λ path. did (record { video = "/completed/film.mp4"; sidecars = []; size = 10 });
  import = λ completed. did [];
}

abbrev context : Context
context = record {
  transcodes = true;
  target = movie_target "Film" none;
  import_status = pending;
  last_completed_step = some Step.download;
}

execute-Reached_example :
    Reached
      (Step.transcode ∷ Step.organize ∷ Step.import ∷ [])
      []
      (execute around context none).0
      (execute around context none).1.actions
unfolding steps_after
execute-Reached_example = execute-Reached around context none

-- The same from the beginning: yt-dlp fails with the cookie file on disk.
abbrev fresh : Context
fresh = record context { last_completed_step = none }

execute-IsClear_example : IsClear (execute around fresh none).1.actions
execute-IsClear_example = execute-IsClear around fresh none
