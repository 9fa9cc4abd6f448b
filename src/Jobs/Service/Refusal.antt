-- ===== src/Jobs/Service/Refusal.antt =====
-- The deletions that are refused, backend/app/jobs/service.py: what they leave, and which they are.
use mathlib.Core.Path.{subst}
use fetcharr.Base.{
  ◌⊎◌, ℕ, String, ◌≡◌, ◌≢◌, refl, sym, inl, inr, Bool, true, false, not, none, some, Option, List,
  [], ◌∷◌, arith, Bool-cases, Option-cases, any,
}
use fetcharr.Events.{ProgressSnapshot}
use fetcharr.Jobs.App.Table.{find_job-id}
use fetcharr.Jobs.Status.{is_terminal}
use fetcharr.Jobs.Rows.{Job}
use fetcharr.Jobs.App.{App, find_job}
use fetcharr.Jobs.Service.{
  Result, job_not_found, job_still_running, file_managed_by_arr, unsafe_path, ok, err, JobError,
  Dirs, is_inside, first_unsafe, delete_at, delete_found, delete, is_imported, delete_files,
  owned_files, delete_file_found, delete_file, nonempty, mark_deleted, read, deleted_row,
}

module _ {A : Type 0} where
  -- A result that is an error comes with the state as it was.
  abbrev pub NothingDone : App → Result A × App → Type 0
  NothingDone before (ok a, after) = Unit
  NothingDone before (err e, after) = after ≡ before

  refused_by :
      (app : App) (e : JobError) (r : Result A × App) → r ≡ (err e, app) → NothingDone app r
  refused_by app e r same = subst (NothingDone app) (sym same) refl

  done_by : (app after : App) (a : A) (r : Result A × App) → r ≡ (ok a, after) → NothingDone app r
  done_by app after a r same = subst (NothingDone app) (sym same) tt

delete_at-NothingDone :
    (resolve : String → List String) (dirs : Dirs) (with_file : Bool) (job : Job) (app : App)
    (path : Option String)
    → NothingDone app (delete_at resolve dirs with_file job app path)
unfolding delete_at
delete_at-NothingDone resolve dirs true job app none = tt
delete_at-NothingDone resolve dirs false job app none = tt
delete_at-NothingDone resolve dirs false job app (some path) = tt
delete_at-NothingDone resolve dirs true job app (some path) =
    elim (Bool-cases (is_inside resolve path (dirs.completed_dir ∷ job.job_dir ∷ []))) [
      | inl e ↦
          let after = (delete_at resolve dirs true job app (some path)).1 in
          done_by app after tt _ (ground (arith, e))
      | inr e ↦ refused_by app (unsafe_path path) _ (ground (arith, e))
    ]

delete-NothingDone :
    (resolve : String → List String) (dirs : Dirs) (with_file : Bool) (id : String) (app : App)
    → NothingDone app (delete resolve dirs id with_file app)
unfolding delete delete_found
delete-NothingDone resolve dirs with_file id app = elim (Option-cases (find_job id app.jobs)) [
  | inl e ↦ refused_by app (job_not_found id) _ (ground (arith, e))
  | inr (job, e) ↦
      let found = delete_at resolve dirs with_file job app (nonempty job.completed_path) in
      let whole : found ≡ delete resolve dirs id with_file app = ground (arith, e) in
      subst (NothingDone app) whole
        (delete_at-NothingDone resolve dirs with_file job app (nonempty job.completed_path))
]

-- A deletion of files that is an error comes with the state as it was, unless the job was there and was
-- gone, by another call, when its files had been removed.
abbrev pub RefusedOrGone : String → App → Result Job × App → Type 0
RefusedOrGone id before (ok job, after) = Unit
RefusedOrGone id before (err e, after) =
    (after ≡ before)
    ⊎ ((e ≡ job_not_found id)
        × (find_job id after.jobs ≡ none)
        × ((job : Job) × (find_job id before.jobs ≡ some job)
            × (is_terminal job.status ≡ true)
            × (is_imported job.import_status ≡ false)))

module _ (resolve : String → List String) (parent : String → String)
    (live : String → Option ProgressSnapshot) (meanwhile : List Job → List Job) (dirs : Dirs)
    (now : ℕ) where
  refused_before :
      (id : String) (app : App) (e : JobError) (r : Result Job × App)
      → r ≡ (err e, app)
      → RefusedOrGone id app r
  refused_before id app e r same = subst (RefusedOrGone id app) (sym same) (inl refl)

  mark_deleted-RefusedOrGone :
      (before app : App) (job : Job)
      → find_job job.id before.jobs ≡ some job
      → is_terminal job.status ≡ true
      → is_imported job.import_status ≡ false
      → RefusedOrGone job.id before (mark_deleted resolve parent live meanwhile now job.id app)
  unfolding mark_deleted
  mark_deleted-RefusedOrGone before app job h ended free =
      let result = mark_deleted resolve parent live meanwhile now job.id app in
      elim (Option-cases (find_job job.id app.jobs)) [
        | inl e ↦
            let same : result ≡ (err (job_not_found job.id), app) = ground (arith, e) in
            subst (RefusedOrGone job.id before) (sym same) (inr (refl, e, (job, h, ended, free)))
        | inr (row, e) ↦
            let same : result ≡ (ok (read (live row.id) (deleted_row now row)), result.1) =
              ground (arith, e) in
            subst (RefusedOrGone job.id before) (sym same) tt
      ]

  delete_files-RefusedOrGone :
      (job : Job) (files : List String) (app : App) (bad : Option String)
      → find_job job.id app.jobs ≡ some job
      → is_terminal job.status ≡ true
      → is_imported job.import_status ≡ false
      → RefusedOrGone job.id app
          (delete_files resolve parent live meanwhile dirs now job files app bad)
  unfolding delete_files
  delete_files-RefusedOrGone job files app (some path) h ended free = inl refl
  delete_files-RefusedOrGone job files app none h ended free =
      mark_deleted-RefusedOrGone app _ job h ended free

  delete_file_found-RefusedOrGone :
      (job : Job) (app : App)
      → find_job job.id app.jobs ≡ some job
      → RefusedOrGone job.id app (delete_file_found resolve parent live meanwhile dirs now job app)
  unfolding delete_file_found
  delete_file_found-RefusedOrGone job app h = elim (Bool-cases (is_terminal job.status)) [
    | inr e ↦ refused_before job.id app (job_still_running job.status) _ (ground (arith, e))
    | inl e ↦ elim (Bool-cases (is_imported job.import_status)) [
      | inl f ↦ refused_before job.id app file_managed_by_arr _ (ground (arith, e, f))
      | inr f ↦
          let bad =
            first_unsafe resolve (owned_files job) (dirs.completed_dir ∷ job.job_dir ∷ []) in
          rw (e, f) (delete_files-RefusedOrGone job (owned_files job) app bad h e f)
    ]
  ]

  delete_file-RefusedOrGone :
      (id : String) (app : App)
      → RefusedOrGone id app (delete_file resolve parent live meanwhile dirs now id app)
  unfolding delete_file
  delete_file-RefusedOrGone id app = elim (Option-cases (find_job id app.jobs)) [
    | inl e ↦ refused_before id app (job_not_found id) _ (ground (arith, e))
    | inr (job, e) ↦
        let same : job.id ≡ id = find_job-id id app.jobs job e in
        let there : find_job job.id app.jobs ≡ some job = ground (arith, same, e) in
        let found = delete_file_found resolve parent live meanwhile dirs now job app in
        let whole : found ≡ delete_file resolve parent live meanwhile dirs now id app =
          ground (arith, e) in
        subst (RefusedOrGone id app) whole (
          subst (λ k. RefusedOrGone k app found) same
            (delete_file_found-RefusedOrGone job app there))
  ]

-- A deletion of a job that is refused leaves the state as it was and asks for no effect. So does a
-- deletion of its files, with one exception: a job that had ended and that arr had not imported may be
-- gone, by another call, when its files have been removed, and is then not found.
pub deletions-RefusedOrGone :
    (resolve : String → List String) (parent : String → String)
    (live : String → Option ProgressSnapshot) (meanwhile : List Job → List Job) (dirs : Dirs)
    (with_file : Bool) (now : ℕ) (id : String) (app : App)
    → NothingDone app (delete resolve dirs id with_file app)
      × RefusedOrGone id app (delete_file resolve parent live meanwhile dirs now id app)
deletions-RefusedOrGone resolve parent live meanwhile dirs with_file now id app = (
  delete-NothingDone resolve dirs with_file id app,
  delete_file-RefusedOrGone resolve parent live meanwhile dirs now id app,
)

first_unsafe-any :
    (resolve : String → List String) (files roots : List String)
    → any (λ path. not (is_inside resolve path roots)) files ≡ true
    → first_unsafe resolve files roots ≢ none
unfolding first_unsafe
first_unsafe-any resolve [] roots h e = absurd (ground arith)
first_unsafe-any resolve (path ∷ rest) roots h e =
    absurd (ground (arith, h, e, first_unsafe-any resolve rest roots))

refused_file :
    (resolve : String → List String) (parent : String → String)
    (live : String → Option ProgressSnapshot) (meanwhile : List Job → List Job) (dirs : Dirs)
    (now : ℕ) (job : Job) (app : App)
    → find_job job.id app.jobs ≡ some job
    → (path : String)
    → first_unsafe resolve (owned_files job) (dirs.completed_dir ∷ job.job_dir ∷ []) ≡ some path
    → ((e : JobError) × ((delete_file resolve parent live meanwhile dirs now job.id app).0 ≡ err e))
      × ((delete_file resolve parent live meanwhile dirs now job.id app).1 ≡ app)
unfolding delete_file delete_file_found delete_files
refused_file resolve parent live meanwhile dirs now job app h path e =
    elim (Bool-cases (is_terminal job.status)) [
      | inr f ↦ ((job_still_running job.status, ground (arith, h, f)), ground (arith, h, f))
      | inl f ↦ elim (Bool-cases (is_imported job.import_status)) [
        | inl g ↦ ((file_managed_by_arr, ground (arith, h, f, g)), ground (arith, h, f, g))
        | inr g ↦ ((unsafe_path path, ground (arith, h, f, g, e)), ground (arith, h, f, g, e))
      ]
    ]

-- The files of a job are not deleted when one of them is outside of the completed folder and
-- of the job's: the call is refused, and nothing is deleted, not even the files that are inside.
pub delete_file_unsafe :
    (resolve : String → List String) (parent : String → String)
    (live : String → Option ProgressSnapshot) (meanwhile : List Job → List Job) (dirs : Dirs)
    (now : ℕ) (job : Job) (app : App)
    → find_job job.id app.jobs ≡ some job
    → any
        (λ path. not (is_inside resolve path (dirs.completed_dir ∷ job.job_dir ∷ [])))
        (owned_files job)
      ≡ true
    → ((e : JobError) × ((delete_file resolve parent live meanwhile dirs now job.id app).0 ≡ err e))
      × ((delete_file resolve parent live meanwhile dirs now job.id app).1 ≡ app)
delete_file_unsafe resolve parent live meanwhile dirs now job app h bad =
    let roots = dirs.completed_dir ∷ job.job_dir ∷ [] in
    let found = first_unsafe-any resolve (owned_files job) roots bad in
    elim (Option-cases (first_unsafe resolve (owned_files job) roots)) [
      | inl e ↦ absurd (found e)
      | inr (path, e) ↦ refused_file resolve parent live meanwhile dirs now job app h path e
    ]
