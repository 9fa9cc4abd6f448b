-- ===== src/Jobs/Service.antt =====
-- backend/app/jobs/service.py, `JobService`: what a user does to a job. A method that raises rolls
-- its transaction back, so it returns the app as it was, but for what was done before that transaction;
-- `now` is `utcnow()`. Parameters: `live` is the hub's snapshot of a job, by its id; `resolve` is
-- `Path.resolve` as the parts of the result, `parent` is `Path.parent`; `meanwhile` is what other calls
-- write between the two transactions of `delete_file`. The removals of files do not fail.
pub mod Actions
pub mod Deletion
pub mod Refusal
use fetcharr.Base.{
  ℕ, ◌+◌, String, Bool, true, false, ◌&&◌, not, Option, none, some, List, [], ◌∷◌, ◌++◌, take, keep,
  any, length, drop, str_eq, if◌then◌else◌,
}
use mathlib.Core.List.{reverse}
use fetcharr.Events.{job_state, ProgressSnapshot}
use fetcharr.Jobs.Status.{
  JobStatus, queued, cancelled, organize, ImportStatus, pending, imported, not_imported, error,
  is_cancellable, is_failed, is_terminal,
}
use fetcharr.Jobs.Rows.{Job}
use fetcharr.Jobs.App.{
  App, JobLog, unlinked, removed_tree, pruned, find_job, alter, delete_row, publish, effect,
  cancel_state, set_cancel,
}

-- backend/app/jobs/exceptions.py
pub data JobError : Type 0 where
  job_not_found : String → JobError
  cancel_too_late retry_not_possible job_still_running : JobStatus → JobError
  import_not_possible : ImportStatus → JobError
  unsafe_path : String → JobError
  file_managed_by_arr : JobError

pub data Result (A : Type 0) : Type 0 where
  ok : A → Result A
  err : JobError → Result A

-- `JobManager.request_cancel`
unfoldable pub request_cancel : String → App → Bool × App
request_cancel id app = elim (cancel_state id app.cancels) [
  | none ↦ (false, app)
  | some on ↦ (true, record app { cancels = set_cancel id true app.cancels })
]

-- `JobService.read`: the row with the live snapshot on top
unfoldable pub read : Option ProgressSnapshot → Job → Job
read none job = job
read (some s) job = record job {
  progress_pct = s.progress_pct;
  downloaded_bytes = s.downloaded_bytes;
  total_bytes = s.total_bytes;
  speed_bps = s.speed_bps;
  eta_s = s.eta_s;
}

-- The row of a job that never left the queue, cancelled.
abbrev pub cancelled_row : ℕ → Job → Job
cancelled_row now job = record job {
  status = cancelled;
  phase = none;
  cancel_requested = false;
  finished_at = some now;
}

abbrev pub asked_row : Job → Job
asked_row job = record job { cancel_requested = true }

abbrev pub retried_row : Job → Job
retried_row job = record job {
  status = queued;
  phase = none;
  error_code = none;
  error_message = none;
  finished_at = none;
}

-- `import_status in (NOT_IMPORTED, ERROR)`
abbrev pub is_refused : ImportStatus → Bool
is_refused not_imported = true
is_refused error = true
is_refused _ = false

abbrev pub reimported_row : Job → Job
reimported_row job = record job {
  import_status = pending;
  import_detail = none;
  last_completed_step = some organize;
  status = queued;
  phase = none;
  finished_at = none;
}

-- `hub.snapshot`, by the job's id
module _ (live : String → Option ProgressSnapshot) where
  -- `read` of a row
  abbrev pub shown : Job → Job
  shown job = read (live job.id) job

  cancel_found : ℕ → Job → App → Result Job × App
  unfolding request_cancel
  cancel_found now job app =
      let (running, asked) = request_cancel job.id app in
      if not (is_cancellable job.status)
      then (err (cancel_too_late job.status), app)
      else if running
      then (ok (shown (asked_row job)), record asked { jobs = alter job.id asked_row app.jobs })
      else (
        ok (shown (cancelled_row now job)),
        publish (job_state job.id cancelled none none) (
            effect (removed_tree job.job_dir)
              (record asked { jobs = alter job.id (cancelled_row now) app.jobs })),
      )

  unfoldable pub cancel : ℕ → String → App → Result Job × App
  unfolding cancel_found
  cancel now id app = elim (find_job id app.jobs) [
    | none ↦ (err (job_not_found id), app)
    | some job ↦ cancel_found now job app
  ]

  unfoldable pub retry : String → App → Result Job × App
  retry id app = elim (find_job id app.jobs) [
    | none ↦ (err (job_not_found id), app)
    | some job ↦
        if not (is_failed job.status) then (err (retry_not_possible job.status), app) else (
          ok (shown (retried_row job)),
          record app { jobs = alter id retried_row app.jobs; woken = true },
        )
  ]

  unfoldable pub retry_import : String → App → Result Job × App
  retry_import id app = elim (find_job id app.jobs) [
    | none ↦ (err (job_not_found id), app)
    | some job ↦
        if not (is_refused job.import_status)
        then (err (import_not_possible job.import_status), app)
        else (
          ok (shown (reimported_row job)),
          record app { jobs = alter id reimported_row app.jobs; woken = true },
        )
  ]

abbrev pub log_limit : ℕ
log_limit = 500

-- `log`: the newest rows, oldest of them first
unfoldable pub log : String → App → Result (List JobLog)
log id app = elim (find_job id app.jobs) [
  | none ↦ err (job_not_found id)
  | some job ↦ ok (reverse (take log_limit (reverse (keep (λ row. str_eq row.job_id id) app.logs))))
]

-- The two folders of the settings.
pub record Dirs : Type 0 where
  pub completed_dir : String
  pub incomplete_dir : String

-- `Path.is_relative_to`, of resolved parts
abbrev pub is_under : List String → List String → Bool
is_under [] path = true
is_under (a ∷ root) [] = false
is_under (a ∷ root) (b ∷ path) = let more = is_under root path in str_eq a b && more

abbrev pub same_parts : List String → List String → Bool
same_parts a b = is_under a b && is_under b a

abbrev pub is_imported : ImportStatus → Bool
is_imported imported = true
is_imported _ = false

-- `Path(text) if text else None`
abbrev pub nonempty : Option String → Option String
nonempty none = none
nonempty (some text) = if str_eq text "" then none else some text

abbrev pub deleted_row : ℕ → Job → Job
deleted_row now job = record job { file_deleted_at = some now }

-- `[job.completed_path, *job.sidecar_paths]`, the empty ones left out
unfoldable pub owned_files : Job → List String
owned_files job =
    keep (λ path. not (str_eq path ""))
      (elim job.completed_path [ none ↦ job.sidecar_paths | some path ↦ path ∷ job.sidecar_paths ])

module _ (resolve : String → List String) where
  -- backend/app/jobs/utils.py
  unfoldable pub is_inside : String → List String → Bool
  is_inside path roots = any (λ root. is_under (resolve root) (resolve path)) roots

  -- The first path that is outside of the roots.
  first_unsafe : List String → List String → Option String
  first_unsafe [] roots = none
  first_unsafe (path ∷ rest) roots =
      let later = first_unsafe rest roots in if is_inside path roots then later else some path

  remove_dir : Dirs → Job → App → App
  remove_dir dirs job app =
      if is_inside job.job_dir (dirs.incomplete_dir ∷ [])
      then effect (removed_tree job.job_dir) app
      else app

  abbrev without_job : String → App → App
  without_job id app = record app {
    jobs = delete_row id app.jobs;
    logs = keep (λ row. not (str_eq row.job_id id)) app.logs;
  }

  -- The deletion of a job with such a completed path.
  delete_at : Dirs → Bool → Job → App → Option String → Result (Unit {0}) × App
  unfolding remove_dir
  delete_at dirs delete_file job app none =
      (ok tt, without_job job.id (if delete_file then remove_dir dirs job app else app))
  delete_at dirs false job app (some path) = (ok tt, without_job job.id app)
  delete_at dirs true job app (some path) =
      if is_inside path (dirs.completed_dir ∷ job.job_dir ∷ [])
      then (ok tt, without_job job.id (remove_dir dirs job (effect (unlinked path) app)))
      else (err (unsafe_path path), app)

  delete_found : Dirs → Bool → Job → App → Result (Unit {0}) × App
  unfolding delete_at
  delete_found dirs delete_file job app =
      delete_at dirs delete_file job app (nonempty job.completed_path)

  unfoldable pub delete : Dirs → String → Bool → App → Result (Unit {0}) × App
  unfolding delete_found
  delete dirs id delete_file app = elim (find_job id app.jobs) [
    | none ↦ (err (job_not_found id), app)
    | some job ↦ delete_found dirs delete_file job app
  ]

  module _ (parent : String → String) where
    -- `{path.parent.resolve() for path in files}`, each once
    places : List (List String) → List String → List (List String)
    places seen [] = seen
    places seen (path ∷ rest) =
        let place = resolve (parent path) in
        places (if any (same_parts place) seen then seen else seen ++ place ∷ []) rest

    unlink_all : List String → App → App
    unlink_all [] app = app
    unlink_all (path ∷ rest) app = unlink_all rest (effect (unlinked path) app)

    -- Below the completed folder, and not that folder itself, a folder is pruned up to its category.
    prune : List String → List String → App → App
    prune root place app =
        if is_under root place && not (same_parts place root)
        then effect (pruned place (root ++ take 1 (drop (length root) place))) app
        else app

    prune_all : List String → List (List String) → App → App
    prune_all root [] app = app
    prune_all root (place ∷ rest) app = prune_all root rest (prune root place app)

    unfoldable pub remove_files : List String → String → App → App
    unfolding unlink_all prune_all prune places
    remove_files files completed_dir app =
        prune_all (resolve completed_dir) (places [] files) (unlink_all files app)

    -- `meanwhile` is what other calls make of the rows while the files are removed.
    module _ (live : String → Option ProgressSnapshot) (meanwhile : List Job → List Job) where
      -- The second transaction of `delete_file`.
      mark_deleted : ℕ → String → App → Result Job × App
      mark_deleted now id app = elim (find_job id app.jobs) [
        | none ↦ (err (job_not_found id), app)
        | some job ↦ (
          ok (shown live (deleted_row now job)),
          record app { jobs = alter id (deleted_row now) app.jobs },
        )
      ]

      -- The deletion of those files, when none of them is unsafe.
      delete_files : Dirs → ℕ → Job → List String → App → Option String → Result Job × App
      unfolding remove_dir mark_deleted
      delete_files dirs now job files app (some path) = (err (unsafe_path path), app)
      delete_files dirs now job files app none =
          let removed = remove_dir dirs job (remove_files files dirs.completed_dir app) in
          mark_deleted now job.id (record removed { jobs = meanwhile removed.jobs })

      delete_file_found : Dirs → ℕ → Job → App → Result Job × App
      unfolding first_unsafe delete_files
      delete_file_found dirs now job app =
          let files = owned_files job in
          if not (is_terminal job.status)
          then (err (job_still_running job.status), app)
          else if is_imported job.import_status
          then (err file_managed_by_arr, app)
          else delete_files dirs now job files app
              (first_unsafe files (dirs.completed_dir ∷ job.job_dir ∷ []))

      unfoldable pub delete_file : Dirs → ℕ → String → App → Result Job × App
      unfolding delete_file_found
      delete_file dirs now id app = elim (find_job id app.jobs) [
        | none ↦ (err (job_not_found id), app)
        | some job ↦ delete_file_found dirs now job app
      ]
