-- ===== src/Jobs/Tests.antt =====
-- The jobs domain run on a small table, and its properties at that table.
use fetcharr.Base.{
  ℕ, String, true, false, ◌≡◌, ◌≢◌, refl, Option, none, some, List, [], ◌∷◌, cat, All, str_eq,
  if◌then◌else◌,
}
use mathlib.Core.Option
use fetcharr.Ytdlp.Options.{
  DownloadOptions, TranscodeProfile, best, mp4, any, auto, SubtitleMode, SponsorBlockMode,
}
use fetcharr.Jobs.Status.{
  JobStatus, ImportStatus, queued, downloading, completed, failed, is_active,
}
use fetcharr.Jobs.Rows.{Job, Request, CollisionPolicy, movie}
use fetcharr.Jobs.App.{App, find_job, find_request, alter}
use fetcharr.Jobs.Queue.{claim, candidates, first_of_rows, better, claim_row, claim_order}
use fetcharr.Jobs.Manager.{recover, settle, RunEnd, broken, settle}
use fetcharr.Jobs.Queue.Claim.{Row, claim-Oldest, Oldest, claim-twice}
use fetcharr.Jobs.Manager.Recovery.{after_restart, recover-rows, recover-twice}
use fetcharr.Jobs.Manager.Lifecycle.{Ends, settle-Ends}
use fetcharr.Jobs.Manager.Announce.{last_events, end_lines, settle-events}
use fetcharr.Events.{ProgressSnapshot}
use fetcharr.Jobs.Service.{cancel, delete, delete_file, Dirs, owned_files}
use fetcharr.Jobs.Restart.{EndsCancelled, cancel-recover}
use fetcharr.Jobs.Service.Deletion.{Adds, IsOwn, own_file, deletions-IsOwn}
use fetcharr.Jobs.Service.Refusal.{NothingDone, RefusedOrGone, deletions-RefusedOrGone}

abbrev pub plain : DownloadOptions
plain = record {
  quality = best;
  container = mp4;
  fragments = auto;
  use_aria2c = auto;
  retries = 5;
  transcode = TranscodeProfile.off;
  transcode_quality = none;
  subtitles = record { mode = SubtitleMode.off; languages = []; include_auto_captions = false };
  sponsorblock = record { mode = SponsorBlockMode.off; categories = [] };
  audio_language = none;
  video_codec = any;
  allow_hdr = true;
  rate_limit = none;
  embed_metadata = true;
  embed_chapters = true;
}

abbrev pub a_request : Request
a_request = record {
  id = "r";
  media_type = movie;
  title = some "A film";
  year = some 2020;
  numbering = none;
  radarr_movie_id = none;
  options = plain;
  created_at = 1;
}

abbrev pub a_job : String → JobStatus → ℕ → Job
a_job id status created_at = record {
  id = id;
  request_id = "r";
  url = "https://example.org/v";
  video_id = none;
  stream_type = none;
  source_title = none;
  status = status;
  phase = none;
  last_completed_step = none;
  step_timings = [];
  cancel_requested = false;
  attempt = 0;
  progress_pct = none;
  downloaded_bytes = none;
  total_bytes = none;
  speed_bps = none;
  eta_s = none;
  job_dir = cat ("/media/incomplete/" ∷ id ∷ []);
  completed_path = some "/media/completed/film.mp4";
  sidecar_paths = "/etc/passwd" ∷ [];
  file_size = none;
  collision_policy = CollisionPolicy.ask;
  site_key = none;
  use_cookies = false;
  transcode_fallback_used = false;
  file_deleted_at = none;
  season = none;
  episode = none;
  sonarr_episode_id = none;
  episode_title = none;
  air_date = none;
  import_status = ImportStatus.not_imported;
  import_command_id = none;
  import_attempts = 0;
  import_detail = none;
  imported_path = none;
  imported_at = none;
  error_code = none;
  error_message = none;
  created_at = created_at;
  started_at = none;
  finished_at = none;
}

-- Two jobs wait, one runs and one is done.
abbrev young : Job
young = a_job "young" queued 9

abbrev old : Job
old = a_job "old" queued 4

abbrev busy : Job
busy = a_job "busy" downloading 2

abbrev done : Job
done = a_job "done" completed 1

abbrev app : App
app = record {
  jobs = young ∷ old ∷ busy ∷ done ∷ [];
  requests = a_request ∷ [];
  logs = [];
  cancels = ("busy", false) ∷ [];
  woken = false;
  events = [];
  effects = [];
}

abbrev rows : List Row
rows = (young, a_request) ∷ (old, a_request) ∷ []

two_wait : candidates app.requests app.jobs ≡ rows
unfolding candidates find_request
two_wait = refl

claims_old : (claim 10 app).0 ≡ some (old, a_request)
unfolding claim claim_row candidates find_request first_of_rows better claim_order
claims_old = refl

then_young : (claim 11 (claim 10 app).1).0 ≡ some (young, a_request)
unfolding claim claim_row candidates find_request first_of_rows better claim_order alter
then_young = refl

claim-Oldest_example : Oldest app (claim 10 app)
claim-Oldest_example = claim-Oldest 10 app

claim-twice_example : young.id ≢ old.id
claim-twice_example =
    claim-twice 10 11 app (old, a_request) (young, a_request) claims_old then_young

abbrev failure : RunEnd
failure = broken "no_file" "yt-dlp exited 1"

settle-Ends_example :
    Ends 20 "busy" failed app.jobs
      (settle 20 "busy" "/media/incomplete/busy" none ("line" ∷ []) failure app).jobs
settle-Ends_example =
    settle-Ends 20 "busy" "/media/incomplete/busy" none ("line" ∷ []) failure app failed refl

settle-events_example :
    (settle 20 "busy" "/media/incomplete/busy" none ("line" ∷ []) failure app).events
    ≡ last_events "busy" failed
        (some "yt-dlp exited 1")
        (end_lines failure ("line" ∷ []))
        (settle 20 "busy" "/media/incomplete/busy" none ("line" ∷ []) failure app).jobs
        []
settle-events_example =
    settle-events 20 "busy" "/media/incomplete/busy" none ("line" ∷ []) failure app failed refl

recover-rows_example :
    All (λ j. is_active j.status ≡ false) (recover true 30 app).jobs
    × ((id : String)
        → find_job id (recover true 30 app).jobs
          ≡ Option.map (after_restart true 30) (find_job id app.jobs))
recover-rows_example = recover-rows true 30 app

recover-twice_example : recover false 40 (recover true 30 app) ≡ recover true 30 app
recover-twice_example = recover-twice true false 30 40 app

-- The running job is at 40 percent.
abbrev live : String → Option ProgressSnapshot
live id =
    if str_eq id "busy"
    then some (record {
      progress_pct = some 40;
      downloaded_bytes = some 400;
      total_bytes = some 1000;
      speed_bps = none;
      eta_s = none;
    })
    else none

busy_found : find_job busy.id app.jobs ≡ some busy
unfolding find_job
busy_found = refl

done_found : find_job done.id app.jobs ≡ some done
unfolding find_job
done_found = refl

cancel-recover_example : EndsCancelled "busy" (recover true 30 (cancel live 5 "busy" app).1).jobs
cancel-recover_example = cancel-recover live 5 30 true app busy busy_found refl refl refl

-- A path of three parts, by its first letters: enough to tell the folders of this table apart.
abbrev resolve : String → List String
resolve path =
    if str_eq path "/etc/passwd"
    then "etc" ∷ "passwd" ∷ []
    else if str_eq path "/media/completed"
    then "media" ∷ "completed" ∷ []
    else if str_eq path "/media/incomplete"
    then "media" ∷ "incomplete" ∷ []
    else if str_eq path "/media/completed/film.mp4"
    then "media" ∷ "completed" ∷ "film.mp4" ∷ []
    else "media" ∷ "incomplete" ∷ path ∷ []

abbrev parent : String → String
parent path = "/media/completed"

abbrev dirs : Dirs
dirs = record { completed_dir = "/media/completed"; incomplete_dir = "/media/incomplete" }

-- Nothing else is written between the two transactions of a deletion.
abbrev meanwhile : List Job → List Job
meanwhile rows = rows

deletions-IsOwn_example :
    Adds
      (IsOwn resolve parent dirs done (own_file done))
      []
      (delete resolve dirs "done" true app).1.effects
    × Adds
        (IsOwn resolve parent dirs done (owned_files done))
        []
        (delete_file resolve parent live meanwhile dirs 50 "done" app).1.effects
deletions-IsOwn_example =
    deletions-IsOwn resolve parent live meanwhile dirs true 50 done app done_found

deletions-RefusedOrGone_example :
    NothingDone app (delete resolve dirs "done" true app)
    × RefusedOrGone "done" app (delete_file resolve parent live meanwhile dirs 50 "done" app)
deletions-RefusedOrGone_example =
    deletions-RefusedOrGone resolve parent live meanwhile dirs true 50 "done" app
