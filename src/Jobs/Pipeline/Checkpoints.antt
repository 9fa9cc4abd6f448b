-- ===== src/Jobs/Pipeline/Checkpoints.antt =====
-- The checkpoints among the actions of a run of backend/app/jobs/pipeline.py, `execute`.
use fetcharr.Base.{
  String, Bool, ◌≡◌, refl, ap, ◌∙◌, Option, none, some, List, [], ◌∷◌, ◌++◌, arith, append_nil,
}
use fetcharr.Jobs.Status.{Step, downloading, transcoding, organizing, importing}
use fetcharr.Jobs.Rows.{Field}
use fetcharr.Jobs.Pipeline.{
  Action, set_status, checkpoint, removed_job_dir, Surroundings, Context, Run, Work, Organized, did,
  stopped, cancel, shutdown, failure, act, written, used, left_by, removed, held, act_all,
  wrote_cookies, used_cookies, removed_cookies, cleaned_partials, returned, not_saved, downloaded,
  download_step, start_download, video, transcoded, transcode_video, transcode_step, organized,
  organize_video, import_step, step_work, clean, Stop,
}

-- The steps that were checkpointed, in order.
abbrev pub checkpoints_of : List Action → List Step
checkpoints_of [] = []
checkpoints_of (checkpoint step fields ∷ rest) = step ∷ checkpoints_of rest
checkpoints_of (_ ∷ rest) = checkpoints_of rest

pub checkpoints_of-append :
    (xs ys : List Action) → checkpoints_of (xs ++ ys) ≡ checkpoints_of xs ++ checkpoints_of ys
checkpoints_of-append [] ys = refl
checkpoints_of-append (checkpoint step fields ∷ xs) ys =
    ap (λ l. step ∷ l) (checkpoints_of-append xs ys)
checkpoints_of-append (set_status status step ∷ xs) ys = checkpoints_of-append xs ys
checkpoints_of-append (removed_job_dir ∷ xs) ys = checkpoints_of-append xs ys
checkpoints_of-append (cleaned_partials ∷ xs) ys = checkpoints_of-append xs ys
checkpoints_of-append (removed_cookies ∷ xs) ys = checkpoints_of-append xs ys
checkpoints_of-append (wrote_cookies text ∷ xs) ys = checkpoints_of-append xs ys
checkpoints_of-append (used_cookies text ∷ xs) ys = checkpoints_of-append xs ys

checkpoints_of-status :
    (xs : List Action) (y : Action)
    → checkpoints_of (y ∷ []) ≡ []
    → checkpoints_of (xs ++ y ∷ []) ≡ checkpoints_of xs
checkpoints_of-status xs y h =
    checkpoints_of-append xs (y ∷ [])
    ∙ ap (λ l. checkpoints_of xs ++ l) h
    ∙ append_nil (checkpoints_of xs)

module _ (around : Surroundings) (context : Context) where
  -- The work on the cookie file writes no checkpoint.
  written-checkpoints :
      (cookies : Option String) → checkpoints_of (written around context cookies) ≡ []
  unfolding written
  written-checkpoints none = refl
  written-checkpoints (some text) = refl

  used-checkpoints :
      (cookies refreshed : Option String)
      → checkpoints_of (used around context cookies refreshed) ≡ []
  unfolding used
  used-checkpoints none refreshed = refl
  used-checkpoints (some text) none = refl
  used-checkpoints (some text) (some left) = refl

  left_by-checkpoints : (w : Work String) → checkpoints_of (left_by around context w) ≡ []
  unfolding left_by
  left_by-checkpoints (did path) = used-checkpoints around.cookies around.refreshed
  left_by-checkpoints (stopped (failure kind message)) = refl
  left_by-checkpoints (stopped cancel) = refl
  left_by-checkpoints (stopped shutdown) = refl

  removed-checkpoints :
      (cookies : Option String) → checkpoints_of (removed around context cookies) ≡ []
  unfolding removed
  removed-checkpoints none = refl
  removed-checkpoints (some text) = refl

  held-checkpoints : (w : Work String) → checkpoints_of (held around context w) ≡ []
  unfolding held
  held-checkpoints w =
      let ended =
        checkpoints_of-append (left_by around context w) (removed around context around.cookies) in
      checkpoints_of-append (written around context around.cookies) _
      ∙ rw
          (
            written-checkpoints around.cookies,
            ended,
            left_by-checkpoints w,
            removed-checkpoints around.cookies,
          )
          refl

  act_all-checkpoints :
      (xs : List Action) (run : Run)
      → checkpoints_of xs ≡ []
      → checkpoints_of (act_all around context xs run).actions ≡ checkpoints_of run.actions
  unfolding act_all
  act_all-checkpoints xs run h =
      checkpoints_of-append run.actions xs
      ∙ ap (λ l. checkpoints_of run.actions ++ l) h
      ∙ append_nil (checkpoints_of run.actions)

  pub returned-actions :
      (end : Option Stop) (path : String) (run : Run)
      → (returned around context end path run).1.actions ≡ run.actions
  unfolding returned
  returned-actions none path run = refl
  returned-actions (some end) path run = refl

  downloaded-checkpoints :
      (w : Work String) (run : Run)
      → checkpoints_of (downloaded around context w run).1.actions ≡ checkpoints_of run.actions
  unfolding downloaded
  downloaded-checkpoints (did path) run =
      let after = act_all around context (held around context (did path)) run in
      let raised = not_saved around context around.cookies around.refreshed in
      ap checkpoints_of (returned-actions raised path after)
      ∙ act_all-checkpoints (held around context (did path)) run (held-checkpoints (did path))
  downloaded-checkpoints (stopped stop) run =
      act_all-checkpoints (held around context (stopped stop)) run (held-checkpoints (stopped stop))

  pub transcoded-actions :
      (w : Work Bool) (run : Run) → (transcoded around context w run).1.actions ≡ run.actions
  unfolding transcoded
  transcoded-actions (did fell_back) run = refl
  transcoded-actions (stopped stop) run = refl

  pub organized-actions :
      (w : Work Organized) (run : Run) → (organized around context w run).1.actions ≡ run.actions
  unfolding organized
  organized-actions (did result) run = refl
  organized-actions (stopped stop) run = refl

  -- The work of a step writes no checkpoint of its own.
  start_download-checkpoints :
      (argv : Option (List String)) (run : Run)
      → checkpoints_of (start_download around context argv run).1.actions
        ≡ checkpoints_of run.actions
  unfolding start_download
  start_download-checkpoints none run = refl
  start_download-checkpoints (some argv) run = ground (
    arith,
    downloaded-checkpoints (around.download argv) (act (set_status downloading Step.download) run),
    act_all-checkpoints (removed around context around.cookies) run
        (removed-checkpoints around.cookies),
    checkpoints_of-status run.actions (set_status downloading Step.download) refl,
  )

  download_step-checkpoints :
      (done : Option String) (run : Run)
      → checkpoints_of (download_step around context done run).1.actions
        ≡ checkpoints_of run.actions
  unfolding download_step
  download_step-checkpoints (some path) run = refl
  download_step-checkpoints none run = start_download-checkpoints around.argv run

  transcode_video-checkpoints :
      (w : Work String) (run : Run)
      → checkpoints_of (transcode_video around context w run).1.actions ≡ checkpoints_of run.actions
  unfolding transcode_video
  transcode_video-checkpoints (stopped stop) run = refl
  transcode_video-checkpoints (did path) run =
      let seen = record run { video_path = some path } in
      ground (
        arith,
        transcoded-actions (around.transcode path)
            (act (set_status transcoding Step.transcode) seen),
        checkpoints_of-status run.actions (set_status transcoding Step.transcode) refl,
      )

  organize_video-checkpoints :
      (w : Work String) (run : Run)
      → checkpoints_of (organize_video around context w run).1.actions ≡ checkpoints_of run.actions
  unfolding organize_video
  organize_video-checkpoints (stopped stop) run = refl
  organize_video-checkpoints (did path) run =
      let seen = record run { video_path = some path } in
      ground (
        arith,
        organized-actions (around.organize path) (act (set_status organizing Step.organize) seen),
        checkpoints_of-status run.actions (set_status organizing Step.organize) refl,
      )

  pub step_work-checkpoints :
      (step : Step) (run : Run)
      → checkpoints_of (step_work around context step run).1.actions ≡ checkpoints_of run.actions
  unfolding step_work transcode_step import_step
  step_work-checkpoints Step.download run = download_step-checkpoints around.download_done run
  step_work-checkpoints Step.transcode run =
      ground (arith, transcode_video-checkpoints (video around context run.video_path) run)
  step_work-checkpoints Step.organize run =
      organize_video-checkpoints (video around context run.video_path) run
  step_work-checkpoints Step.import run =
      ground (arith, checkpoints_of-status run.actions (set_status importing Step.import) refl)

  pub clean-checkpoints :
      (step : Step) (fields : List Field) (run : Run)
      → checkpoints_of (clean around context step fields run).actions ≡ checkpoints_of run.actions
  unfolding clean
  clean-checkpoints Step.organize (field ∷ fields) run =
      checkpoints_of-status run.actions removed_job_dir refl
  clean-checkpoints Step.organize [] run = refl
  clean-checkpoints Step.download fields run = refl
  clean-checkpoints Step.transcode fields run = refl
  clean-checkpoints Step.import fields run = refl
