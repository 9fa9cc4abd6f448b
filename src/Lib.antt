-- ===== src/Lib.antt =====
-- fetcharr downloads a video with yt-dlp, may re-encode it with ffmpeg, files it in a library, and asks
-- Radarr or Sonarr to import it. A request is a number of jobs; a job goes through four checkpointed steps
-- (download, transcode, organize, import), which backend/app/jobs drives:
-- the JobManager claims a queued job, runs its pipeline, writes its checkpoints and its end, and recovers
-- what a restart interrupted; the JobService does what a user asks of a job. Both tell the EventHub,
-- which fans out to the connected browsers.
--
-- The files, and the code that each models:
--   Jobs/Status, Jobs/Rows    backend/app/jobs/constants.py, jobs/models.py, requests/models.py
--   Jobs/App                  the rows, cancel events, events and file effects that the two share
--   Jobs/Service              backend/app/jobs/service.py (JobService), jobs/exceptions.py, and is_inside of
--                             jobs/utils.py; its children state what actions and deletions do
--   Jobs/Queue                backend/app/jobs/manager.py (JobManager._claim)
--   Jobs/Run                  backend/app/jobs/manager.py (_run_job): what a run is given, and the actions of
--                             the pipeline and the callbacks as writes on the rows
--   Jobs/Restart              a cancel of the service and a recovery of the manager, one after the other
--   Jobs/Rejections           backend/app/jobs/utils.py (explain_rejection)
--   Jobs/Manager              backend/app/jobs/manager.py (JobManager): _set_status, _checkpoint,
--                             _finish, _cancelled, _publish_summary, _flush_logs, the end of _run_job, recover
--   Jobs/Pipeline             backend/app/jobs/pipeline.py (execute and its four steps)
--   Jobs/Import               backend/app/jobs/pipeline.py (the import step: retries and verdict); its child
--                             Asking has the plan, the verification, the command and its polling
--   Events                    backend/app/events/service.py (EventHub), events/schemas.py, events/router.py
--   Auth/Limiter              backend/app/auth/utils.py (LoginRateLimiter)
--   Auth/Service              backend/app/auth/service.py (AuthService); its child Guard is
--                             backend/app/auth/dependencies.py (require_auth)
--   Ytdlp/Options, Stream,    backend/app/ytdlp/schemas.py, stream.py, formats.py, command.py, and
--   Formats, Command          build_inspect_argv and is_auth_error of inspect.py
--   Ytdlp/Cookies             backend/app/ytdlp/cookies.py (parse, render)
--   Ytdlp/Errors              backend/app/ytdlp/inspect.py (classify_error) and scrub of cookies.py
--   Ytdlp/Progress, Runner    backend/app/ytdlp/runner.py (parse_progress, cleanup_partials;
--                             run_once, download)
--   Sites                     backend/app/sites/utils.py (match_site, keep_for_domains, cookie_status)
--   Sites/Rows, Service       backend/app/sites/service.py (SitesService), models.py, summary of utils.py
--   Requests, Requests/Preview  backend/app/requests/service.py (create; preview), utils.py, schemas.py
--   Settings                  backend/app/settings/service.py (SettingsService); its child Values has the
--                             checks of values and unknown_tokens of library/naming.py
--   Transcode/Profiles        backend/app/transcode/profiles.py
--   Transcode/Runner          backend/app/transcode/runner.py
--   Requests/Named            what a job is named after: target_for of backend/app/requests/service.py against
--                             _Claimed.target of backend/app/jobs/manager.py
--   Library/Disk              the files that the organizer changes, and what a crash leaves of the changes
--   Library/Naming            backend/app/library/naming.py (sanitize, the templates, build_path)
--   Library/Organizer         backend/app/library/organizer.py (organize, its marker, collisions and moves)
--   Base                      tests on numbers, lists, texts
-- Each Tests module runs the model on concrete data.
--
-- State is passed explicitly, and an operation that raises returns an error value. A database
-- transaction is one step, and where an operation has two, what others write between them is a
-- parameter; the rows are a list in the order of the table, and a row is found by its id.
-- What an operation asks of the file system is recorded in order, as effects. A time is a number of
-- microseconds, a date a number of days, a percentage in tenths of a percent. The text of a file
-- stands for its UTF-8, which has no surrogates, and is read with the universal newlines of Python.
--
-- Parameters, since they are not code of the repository: the process that runs ffmpeg (what a run with
-- some arguments does), what the swap of the transcoded file meets (an error of the rename or
-- of the marker's write, a shutdown), Path.resolve and Path.parent, whether a rename stays on one device, Unicode's
-- normal form and lower case, the calendar, the hashes of passwords and tokens, the encryption of
-- secrets, the ids that are drawn, the host of a URL, the reading of JSON, what a process of yt-dlp
-- prints and leaves, the
-- answers of yt-dlp, ffprobe, the organizer and the arr app to one run of the pipeline, and the retry
-- loop of tenacity.
--
-- The search for a free number of a name has as much fuel as the disk has files, and one more; the loop
-- that shortens a name has as much as its title has bytes, and two more.
--
-- The polling loop of an import runs for the rounds that come before its deadline has passed, and one
-- more; their number is part of what an attempt meets.
--
-- Not modelled: the tasks, semaphores and timers of the event loop (any order of steps is a list of
-- operations), the processes themselves with their signals, the HTTP layer, the
-- sessions of the database and its migrations, and the parts of the application that are not in the
-- list above: the clients of the arr apps, the inspections, the history of requests, the hardware check.
pub mod Base
pub mod Auth
pub mod Jobs
pub mod Library
pub mod Requests
pub mod Settings
pub mod Sites
pub mod Events
pub mod Ytdlp
pub mod Transcode
