-- ===== src/Jobs/Status.antt =====
-- backend/app/jobs/constants.py: the job lifecycle's words, and the tests on them.
use fetcharr.Base.{ℕ, Bool, true, false, List, [], ◌∷◌}

pub data JobStatus : Type 0 where
  queued starting downloading postprocessing transcoding organizing importing : JobStatus
  completed failed cancelled : JobStatus

pub data Step : Type 0 where
  download transcode organize import : Step

pub data ImportStatus : Type 0 where
  not_applicable pending imported not_imported error : ImportStatus

abbrev pub steps : List Step
steps = Step.download ∷ Step.transcode ∷ Step.organize ∷ Step.import ∷ []

-- `STEPS.index(step)`
abbrev pub step_index : Step → ℕ
step_index Step.download = 0
step_index Step.transcode = 1
step_index Step.organize = 2
step_index Step.import = 3

-- `status in ACTIVE_STATUSES`
abbrev pub is_active : JobStatus → Bool
is_active starting = true
is_active downloading = true
is_active postprocessing = true
is_active transcoding = true
is_active organizing = true
is_active importing = true
is_active _ = false

-- `status in CANCELLABLE_STATUSES`
abbrev pub is_cancellable : JobStatus → Bool
is_cancellable queued = true
is_cancellable starting = true
is_cancellable downloading = true
is_cancellable postprocessing = true
is_cancellable transcoding = true
is_cancellable _ = false

-- `status in TERMINAL_STATUSES`
abbrev pub is_terminal : JobStatus → Bool
is_terminal completed = true
is_terminal failed = true
is_terminal cancelled = true
is_terminal _ = false

abbrev pub is_queued : JobStatus → Bool
is_queued queued = true
is_queued _ = false

abbrev pub is_failed : JobStatus → Bool
is_failed failed = true
is_failed _ = false

abbrev pub is_completed : JobStatus → Bool
is_completed completed = true
is_completed _ = false

abbrev pub is_cancelled : JobStatus → Bool
is_cancelled cancelled = true
is_cancelled _ = false
