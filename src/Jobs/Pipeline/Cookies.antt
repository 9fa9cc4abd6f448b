-- ===== src/Jobs/Pipeline/Cookies.antt =====
-- The plaintext cookie file of a download: backend/app/jobs/pipeline.py, `_download`.
use fetcharr.Base.{
  String, Bool, true, false, ◌≡◌, refl, ap, ◌∙◌, Option, none, some, List, [], ◌∷◌, ◌++◌, arith,
}
use fetcharr.Jobs.Status.{Step, downloading, transcoding, organizing, importing}
use fetcharr.Jobs.Rows.{Field}
use fetcharr.Jobs.Pipeline.{
  Action, set_status, checkpoint, removed_job_dir, Surroundings, Context, Run, Work, continued, did,
  stopped, cancel, shutdown, failure, act, steps_after, written, used, left_by, removed, held,
  act_all, wrote_cookies, used_cookies, removed_cookies, cleaned_partials, not_saved, downloaded,
  download_step, start_download, video, transcode_video, transcode_step, organize_video,
  import_step, step_work, clean, step_ended, run_steps, execute,
}
use fetcharr.Jobs.Pipeline.Checkpoints.{returned-actions, transcoded-actions, organized-actions}

-- Whether the file is there after the actions, when it was there before them or not.
abbrev pub plaintext : Bool → List Action → Bool
plaintext there [] = there
plaintext there (wrote_cookies text ∷ rest) = plaintext true rest
plaintext there (removed_cookies ∷ rest) = plaintext false rest
plaintext there (set_status status step ∷ rest) = plaintext there rest
plaintext there (checkpoint step fields ∷ rest) = plaintext there rest
plaintext there (removed_job_dir ∷ rest) = plaintext there rest
plaintext there (cleaned_partials ∷ rest) = plaintext there rest
plaintext there (used_cookies text ∷ rest) = plaintext there rest

plaintext-append :
    (there : Bool) (xs ys : List Action)
    → plaintext there (xs ++ ys) ≡ plaintext (plaintext there xs) ys
plaintext-append there [] ys = refl
plaintext-append there (wrote_cookies text ∷ xs) ys = plaintext-append true xs ys
plaintext-append there (removed_cookies ∷ xs) ys = plaintext-append false xs ys
plaintext-append there (set_status status step ∷ xs) ys = plaintext-append there xs ys
plaintext-append there (checkpoint step fields ∷ xs) ys = plaintext-append there xs ys
plaintext-append there (removed_job_dir ∷ xs) ys = plaintext-append there xs ys
plaintext-append there (cleaned_partials ∷ xs) ys = plaintext-append there xs ys
plaintext-append there (used_cookies text ∷ xs) ys = plaintext-append there xs ys

-- No cookie file is on disk.
abbrev pub IsClear : List Action → Type 0
IsClear actions = plaintext false actions ≡ false

append-IsClear : (xs ys : List Action) → IsClear xs → IsClear ys → IsClear (xs ++ ys)
append-IsClear xs ys h k = plaintext-append false xs ys ∙ ap (λ b. plaintext b ys) h ∙ k

module _ (around : Surroundings) (context : Context) where
  used-plaintext :
      (there : Bool) (cookies refreshed : Option String)
      → plaintext there (used around context cookies refreshed) ≡ there
  unfolding used
  used-plaintext there none refreshed = refl
  used-plaintext there (some text) none = refl
  used-plaintext there (some text) (some left) = refl

  left_by-plaintext :
      (there : Bool) (w : Work String) → plaintext there (left_by around context w) ≡ there
  unfolding left_by
  left_by-plaintext there (did path) = used-plaintext there around.cookies around.refreshed
  left_by-plaintext there (stopped (failure kind message)) = refl
  left_by-plaintext there (stopped cancel) = refl
  left_by-plaintext there (stopped shutdown) = refl

  -- The file is removed where it was written.
  wrapped-IsClear :
      (cookies : Option String) (xs : List Action)
      → ((there : Bool) → plaintext there xs ≡ there)
      → IsClear (written around context cookies ++ (xs ++ removed around context cookies))
  unfolding written removed
  wrapped-IsClear none xs h = plaintext-append false xs [] ∙ h false
  wrapped-IsClear (some text) xs h = plaintext-append true xs (removed_cookies ∷ [])

  held-IsClear : (w : Work String) → IsClear (held around context w)
  unfolding held
  held-IsClear w =
      wrapped-IsClear around.cookies (left_by around context w) (λ b. left_by-plaintext b w)

  removed-IsClear : (cookies : Option String) → IsClear (removed around context cookies)
  unfolding removed
  removed-IsClear none = refl
  removed-IsClear (some text) = refl

  downloaded-IsClear :
      (w : Work String) (run : Run)
      → IsClear run.actions
      → IsClear (downloaded around context w run).1.actions
  unfolding downloaded act_all
  downloaded-IsClear (did path) run h =
      rw
        (returned-actions around context (not_saved around context around.cookies around.refreshed)
          path _)
        (append-IsClear run.actions _ h (held-IsClear (did path)))
  downloaded-IsClear (stopped stop) run h =
      append-IsClear run.actions _ h (held-IsClear (stopped stop))

  start_download-IsClear :
      (argv : Option (List String)) (run : Run)
      → IsClear run.actions
      → IsClear (start_download around context argv run).1.actions
  unfolding start_download act_all
  start_download-IsClear none run h = h
  start_download-IsClear (some argv) run h =
      let begun = act (set_status downloading Step.download) run in
      ground (
        arith,
        downloaded-IsClear (around.download argv) begun (append-IsClear run.actions _ h refl),
        append-IsClear run.actions (removed around context around.cookies) h
            (removed-IsClear around.cookies),
      )

  download_step-IsClear :
      (done : Option String) (run : Run)
      → IsClear run.actions
      → IsClear (download_step around context done run).1.actions
  unfolding download_step
  download_step-IsClear (some path) run h = h
  download_step-IsClear none run h = start_download-IsClear around.argv run h

  transcode_video-IsClear :
      (w : Work String) (run : Run)
      → IsClear run.actions
      → IsClear (transcode_video around context w run).1.actions
  unfolding transcode_video
  transcode_video-IsClear (stopped stop) run h = h
  transcode_video-IsClear (did path) run h =
      let begun =
        act (set_status transcoding Step.transcode) (record run { video_path = some path }) in
      ground (
        arith,
        h,
        transcoded-actions around context (around.transcode path) begun,
        append-IsClear run.actions (set_status transcoding Step.transcode ∷ []) h refl,
      )

  organize_video-IsClear :
      (w : Work String) (run : Run)
      → IsClear run.actions
      → IsClear (organize_video around context w run).1.actions
  unfolding organize_video
  organize_video-IsClear (stopped stop) run h = h
  organize_video-IsClear (did path) run h =
      let begun =
        act (set_status organizing Step.organize) (record run { video_path = some path }) in
      ground (
        arith,
        h,
        organized-actions around context (around.organize path) begun,
        append-IsClear run.actions (set_status organizing Step.organize ∷ []) h refl,
      )

  step_work-IsClear :
      (step : Step) (run : Run)
      → IsClear run.actions
      → IsClear (step_work around context step run).1.actions
  unfolding step_work transcode_step import_step
  step_work-IsClear Step.download run h = download_step-IsClear around.download_done run h
  step_work-IsClear Step.transcode run h =
      ground (arith, h, transcode_video-IsClear (video around context run.video_path) run h)
  step_work-IsClear Step.organize run h =
      organize_video-IsClear (video around context run.video_path) run h
  step_work-IsClear Step.import run h =
      ground (arith, h, append-IsClear run.actions (set_status importing Step.import ∷ []) h refl)

  clean-IsClear :
      (step : Step) (fields : List Field) (run : Run)
      → IsClear run.actions
      → IsClear (clean around context step fields run).actions
  unfolding clean
  clean-IsClear Step.organize (field ∷ fields) run h = append-IsClear run.actions _ h refl
  clean-IsClear Step.organize [] run h = h
  clean-IsClear Step.download fields run h = h
  clean-IsClear Step.transcode fields run h = h
  clean-IsClear Step.import fields run h = h

  step_ended-IsClear :
      (step : Step) (w : Work (List Field) × Run)
      → IsClear w.1.actions
      → IsClear (step_ended around context step w).1.actions
  unfolding step_ended
  step_ended-IsClear step (stopped end, run) h = h
  step_ended-IsClear step (did fields, run) h =
      clean-IsClear step fields _ (append-IsClear run.actions _ h refl)

  run_steps-IsClear :
      (todo : List Step) (run : Run)
      → IsClear run.actions
      → IsClear (run_steps around context todo run).1.actions
  unfolding run_steps continued
  run_steps-IsClear [] run h = h
  run_steps-IsClear (step ∷ rest) run h =
      let next = step_ended around context step (step_work around context step run) in
      let clear =
        step_ended-IsClear step (step_work around context step run)
          (step_work-IsClear step run h) in
      ground (arith, h, clear, run_steps-IsClear rest next.1 clear)

  -- However a run ends, no plaintext cookie file of it is left on disk: where it was written, it was
  -- removed after that.
  pub execute-IsClear :
      (completed_path : Option String) → IsClear (execute around context completed_path).1.actions
  unfolding execute
  execute-IsClear completed_path =
      run_steps-IsClear (steps_after context.last_completed_step) _ refl
