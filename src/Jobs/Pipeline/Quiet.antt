-- ===== src/Jobs/Pipeline/Quiet.antt =====
-- What the actions of backend/app/jobs/pipeline.py, `execute`, write of a job's status: the statuses of a
-- running job only, and no request for a cancel.
use fetcharr.Base.{
  String, Bool, true, false, ◌≡◌, refl, inl, inr, Option, none, some, List, [], ◌∷◌, arith, each,
  each-append, Bool-cases,
}
use fetcharr.Jobs.Status.{Step, is_active, downloading, transcoding, organizing, importing}
use fetcharr.Jobs.Rows
use fetcharr.Jobs.Rows.{Field}
use fetcharr.Jobs.Manager.{RunEnd}
use fetcharr.Jobs.Pipeline.{
  Action, set_status, checkpoint, removed_job_dir, Surroundings, Context, Run, Work, Organized, did,
  stopped, cancel, shutdown, failure, act, written, used, left_by, removed, held, act_all, returned,
  not_saved, downloaded, download_step, start_download, video, transcoded, transcode_video,
  transcode_step, organized, organize_video, import_step, step_work, clean, step_ended, continued,
  run_steps, execute, is_other, needs_import, Stop, steps_after,
}

-- The write of a field that leaves a running job running, without a request for a cancel.
abbrev pub keeps_live : Field → Bool
keeps_live (Rows.status status) = is_active status
keeps_live (Rows.cancel_requested on) = false
keeps_live _ = true

abbrev pub is_quiet : Action → Bool
is_quiet (set_status status step) = is_active status
is_quiet (checkpoint step fields) = each keeps_live fields
is_quiet _ = true

-- The fields of a step's checkpoint, when it has one, and the actions so far.
abbrev pub fields_live : Work (List Field) → Bool
fields_live (did fields) = each keeps_live fields
fields_live (stopped end) = true

record QuietStep (r : Work (List Field) × Run) : Type 0 where
  fields : fields_live r.0 ≡ true
  actions : each is_quiet r.1.actions ≡ true

act-is_quiet :
    (action : Action) (run : Run)
    → is_quiet action ≡ true
    → each is_quiet run.actions ≡ true
    → each is_quiet (act action run).actions ≡ true
act-is_quiet action run quiet h =
    each-append is_quiet run.actions (action ∷ []) h (ground (arith, quiet))

module _ (around : Surroundings) (context : Context) where
  removed-is_quiet :
      (cookies : Option String) → each is_quiet (removed around context cookies) ≡ true
  unfolding removed
  removed-is_quiet none = refl
  removed-is_quiet (some text) = refl

  written-is_quiet :
      (cookies : Option String) → each is_quiet (written around context cookies) ≡ true
  unfolding written
  written-is_quiet none = refl
  written-is_quiet (some text) = refl

  used-is_quiet :
      (cookies refreshed : Option String)
      → each is_quiet (used around context cookies refreshed) ≡ true
  unfolding used
  used-is_quiet none refreshed = refl
  used-is_quiet (some text) none = refl
  used-is_quiet (some text) (some left) = refl

  left_by-is_quiet : (w : Work String) → each is_quiet (left_by around context w) ≡ true
  unfolding left_by
  left_by-is_quiet (did path) = used-is_quiet around.cookies around.refreshed
  left_by-is_quiet (stopped (failure kind message)) = refl
  left_by-is_quiet (stopped cancel) = refl
  left_by-is_quiet (stopped shutdown) = refl

  held-is_quiet : (w : Work String) → each is_quiet (held around context w) ≡ true
  unfolding held
  held-is_quiet w =
      each-append is_quiet (written around context around.cookies) _
        (written-is_quiet around.cookies)
        (each-append is_quiet (left_by around context w) _ (left_by-is_quiet w)
          (removed-is_quiet around.cookies))

  returned-QuietStep :
      (end : Option Stop) (path : String) (run : Run)
      → each is_quiet run.actions ≡ true
      → QuietStep (returned around context end path run)
  unfolding returned
  returned-QuietStep none path run h = record { fields = refl; actions = h }
  returned-QuietStep (some end) path run h = record { fields = refl; actions = h }

  downloaded-QuietStep :
      (w : Work String) (run : Run)
      → each is_quiet run.actions ≡ true
      → QuietStep (downloaded around context w run)
  unfolding downloaded act_all
  downloaded-QuietStep (did path) run h =
      returned-QuietStep (not_saved around context around.cookies around.refreshed) path
        (act_all around context (held around context (did path)) run)
        (each-append is_quiet run.actions _ h (held-is_quiet (did path)))
  downloaded-QuietStep (stopped end) run h = record {
    fields = refl;
    actions = each-append is_quiet run.actions _ h (held-is_quiet (stopped end));
  }

  start_download-QuietStep :
      (argv : Option (List String)) (run : Run)
      → each is_quiet run.actions ≡ true
      → QuietStep (start_download around context argv run)
  unfolding start_download act_all
  start_download-QuietStep none run h = record { fields = refl; actions = h }
  start_download-QuietStep (some argv) run h =
      elim (Bool-cases (around.slot_cancelled Step.download)) [
        | inl e ↦ rw e (record {
          fields = refl;
          actions = each-append is_quiet run.actions _ h (removed-is_quiet around.cookies);
        })
        | inr e ↦ rw e (
            downloaded-QuietStep (around.download argv)
              (act (set_status downloading Step.download) run)
              (act-is_quiet (set_status downloading Step.download) run refl h))
      ]

  download_step-QuietStep :
      (done : Option String) (run : Run)
      → each is_quiet run.actions ≡ true
      → QuietStep (download_step around context done run)
  unfolding download_step
  download_step-QuietStep (some path) run h = record { fields = refl; actions = h }
  download_step-QuietStep none run h = start_download-QuietStep around.argv run h

  transcoded-QuietStep :
      (w : Work Bool) (run : Run)
      → each is_quiet run.actions ≡ true
      → QuietStep (transcoded around context w run)
  unfolding transcoded
  transcoded-QuietStep (did fell_back) run h = record { fields = refl; actions = h }
  transcoded-QuietStep (stopped end) run h = record { fields = refl; actions = h }

  transcode_video-QuietStep :
      (w : Work String) (run : Run)
      → each is_quiet run.actions ≡ true
      → QuietStep (transcode_video around context w run)
  unfolding transcode_video
  transcode_video-QuietStep (stopped end) run h = record { fields = refl; actions = h }
  transcode_video-QuietStep (did path) run h =
      let seen = record run { video_path = some path } in
      elim (Bool-cases (around.slot_cancelled Step.transcode)) [
        | inl e ↦ rw e (record { fields = refl; actions = h })
        | inr e ↦ rw e (
            transcoded-QuietStep (around.transcode path)
              (act (set_status transcoding Step.transcode) seen)
              (act-is_quiet (set_status transcoding Step.transcode) seen refl h))
      ]

  transcode_step-QuietStep :
      (run : Run) → each is_quiet run.actions ≡ true → QuietStep (transcode_step around context run)
  unfolding transcode_step
  transcode_step-QuietStep run h = elim (Bool-cases context.transcodes) [
    | inr e ↦ rw e (record { fields = refl; actions = h })
    | inl e ↦ elim (Bool-cases around.transcode_done) [
      | inl d ↦ rw (e, d) (record { fields = refl; actions = h })
      | inr d ↦ rw (e, d) (transcode_video-QuietStep (video around context run.video_path) run h)
    ]
  ]

  organized-QuietStep :
      (w : Work Organized) (run : Run)
      → each is_quiet run.actions ≡ true
      → QuietStep (organized around context w run)
  unfolding organized
  organized-QuietStep (did result) run h = record { fields = refl; actions = h }
  organized-QuietStep (stopped end) run h = record { fields = refl; actions = h }

  organize_video-QuietStep :
      (w : Work String) (run : Run)
      → each is_quiet run.actions ≡ true
      → QuietStep (organize_video around context w run)
  unfolding organize_video
  organize_video-QuietStep (stopped end) run h = record { fields = refl; actions = h }
  organize_video-QuietStep (did path) run h =
      let seen = record run { video_path = some path } in
      elim (Bool-cases (around.is_organized path run.completed_path)) [
        | inl e ↦ rw e (record { fields = refl; actions = h })
        | inr e ↦ rw e (
            organized-QuietStep (around.organize path)
              (act (set_status organizing Step.organize) seen)
              (act-is_quiet (set_status organizing Step.organize) seen refl h))
      ]

  module _ (imports : (path : Option String) → fields_live (around.import path) ≡ true) where
    import_step-QuietStep :
        (run : Run) → each is_quiet run.actions ≡ true → QuietStep (import_step around context run)
    unfolding import_step
    import_step-QuietStep run h = elim (Bool-cases (is_other context.target)) [
      | inl e ↦ rw e (record { fields = refl; actions = h })
      | inr e ↦ elim (Bool-cases (needs_import context.import_status)) [
        | inr d ↦ rw (e, d) (record { fields = refl; actions = h })
        | inl d ↦
            rw (e, d)
              (record {
                fields = imports run.completed_path;
                actions = act-is_quiet (set_status importing Step.import) run refl h;
              })
      ]
    ]

    step_work-QuietStep :
        (step : Step) (run : Run)
        → each is_quiet run.actions ≡ true
        → QuietStep (step_work around context step run)
    unfolding step_work
    step_work-QuietStep Step.download run h = download_step-QuietStep around.download_done run h
    step_work-QuietStep Step.transcode run h = transcode_step-QuietStep run h
    step_work-QuietStep Step.organize run h =
        organize_video-QuietStep (video around context run.video_path) run h
    step_work-QuietStep Step.import run h = import_step-QuietStep run h

    clean-is_quiet :
        (step : Step) (fields : List Field) (run : Run)
        → each is_quiet run.actions ≡ true
        → each is_quiet (clean around context step fields run).actions ≡ true
    unfolding clean
    clean-is_quiet Step.organize (field ∷ fields) run h = act-is_quiet removed_job_dir run refl h
    clean-is_quiet Step.organize [] run h = h
    clean-is_quiet Step.download fields run h = h
    clean-is_quiet Step.transcode fields run h = h
    clean-is_quiet Step.import fields run h = h

    step_ended-is_quiet :
        (step : Step) (r : Work (List Field) × Run)
        → QuietStep r
        → each is_quiet (step_ended around context step r).1.actions ≡ true
    unfolding step_ended
    step_ended-is_quiet step (stopped end, run) q = q.actions
    step_ended-is_quiet step (did fields, run) q =
        clean-is_quiet step fields (act (checkpoint step fields) run)
          (act-is_quiet (checkpoint step fields) run q.fields q.actions)

    continued-is_quiet :
        (next : Option Stop × Run) (later : RunEnd × Run)
        → each is_quiet next.1.actions ≡ true
        → each is_quiet later.1.actions ≡ true
        → each is_quiet (continued around context next later).1.actions ≡ true
    unfolding continued
    continued-is_quiet (none, next) later h k = k
    continued-is_quiet (some end, next) later h k = h

    run_steps-is_quiet :
        (todo : List Step) (run : Run)
        → each is_quiet run.actions ≡ true
        → each is_quiet (run_steps around context todo run).1.actions ≡ true
    unfolding run_steps
    run_steps-is_quiet [] run h = h
    run_steps-is_quiet (step ∷ rest) run h = elim (Bool-cases (around.cancelled step)) [
      | inl e ↦ rw e h
      | inr e ↦
          let next = step_ended around context step (step_work around context step run) in
          let ended =
            step_ended-is_quiet step (step_work around context step run)
              (step_work-QuietStep step run h) in
          rw e (
            continued-is_quiet next (run_steps around context rest next.1) ended
              (run_steps-is_quiet rest next.1 ended))
    ]

    -- Whatever the run meets, if the import's own fields leave a running job running: each action does.
    pub execute-is_quiet :
        (completed_path : Option String)
        → each is_quiet (execute around context completed_path).1.actions ≡ true
    unfolding execute
    execute-is_quiet completed_path =
        run_steps-is_quiet (steps_after context.last_completed_step)
          (record { video_path = none; completed_path = completed_path; actions = [] }) refl
