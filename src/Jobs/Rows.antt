-- ===== src/Jobs/Rows.antt =====
-- backend/app/jobs/models.py and requests/models.py: the rows that the jobs domain reads and writes.
-- A time is a number of microseconds, a date a number of days; rates and percentages, floats in the
-- source, are natural numbers (a percentage in tenths). Not kept: columns that no modelled operation
-- reads or writes (extractor, thumbnail, duration, probed, a log line's own id).
use fetcharr.Base.{ℕ, String, Bool, Option, some, List, [], ◌∷◌}
use fetcharr.Jobs.Status.{JobStatus, Step, ImportStatus}
use fetcharr.Ytdlp.Options.{DownloadOptions}

-- backend/app/library/organizer.py
pub data CollisionPolicy : Type 0 where
  ask replace keep_both : CollisionPolicy

pub data MediaType : Type 0 where
  other movie tv : MediaType

pub data Numbering : Type 0 where
  standard daily : Numbering

-- What the import step wrote down: the reasons and an explanation, or an error and a hint.
pub data ImportDetail : Type 0 where
  rejected : List String → Option String → ImportDetail
  errored : String → Option String → ImportDetail

pub record Request : Type 0 where
  pub id : String
  pub media_type : MediaType
  pub title : Option String
  pub year : Option ℕ
  pub numbering : Option Numbering
  pub radarr_movie_id : Option ℕ
  pub options : DownloadOptions
  pub created_at : ℕ

pub record Job : Type 0 where
  pub id : String
  pub request_id : String
  pub url : String
  pub video_id : Option String
  pub stream_type : Option String
  pub source_title : Option String
  pub status : JobStatus
  pub phase : Option Step
  pub last_completed_step : Option Step
  pub step_timings : List (Step × ℕ)
  pub cancel_requested : Bool
  pub attempt : ℕ
  pub progress_pct : Option ℕ
  pub downloaded_bytes : Option ℕ
  pub total_bytes : Option ℕ
  pub speed_bps : Option ℕ
  pub eta_s : Option ℕ
  pub job_dir : String
  pub completed_path : Option String
  pub sidecar_paths : List String
  pub file_size : Option ℕ
  pub collision_policy : CollisionPolicy
  pub site_key : Option String
  pub use_cookies : Bool
  pub transcode_fallback_used : Bool
  pub file_deleted_at : Option ℕ
  pub season : Option ℕ
  pub episode : Option ℕ
  pub sonarr_episode_id : Option ℕ
  pub episode_title : Option String
  pub air_date : Option ℕ
  pub import_status : ImportStatus
  pub import_command_id : Option String
  pub import_attempts : ℕ
  pub import_detail : Option ImportDetail
  pub imported_path : Option String
  pub imported_at : Option ℕ
  pub error_code : Option String
  pub error_message : Option String
  pub created_at : ℕ
  pub started_at : Option ℕ
  pub finished_at : Option ℕ

-- One column given anew: an entry of the `fields` of a checkpoint, or of the `values` of an update.
pub data Field : Type 0 where
  status : JobStatus → Field
  phase : Option Step → Field
  cancel_requested : Bool → Field
  attempt : ℕ → Field
  progress_pct downloaded_bytes total_bytes speed_bps eta_s finished_at imported_at :
      Option ℕ → Field
  error_code error_message import_command_id imported_path : Option String → Field
  completed_path : String → Field
  sidecar_paths : List String → Field
  file_size import_attempts : ℕ → Field
  transcode_fallback_used : Bool → Field
  import_status : ImportStatus → Field
  import_detail : Option ImportDetail → Field

-- `setattr(job, name, value)`
unfoldable pub set_field : Field → Job → Job
set_field (status v) j = record j { status = v }
set_field (phase v) j = record j { phase = v }
set_field (cancel_requested v) j = record j { cancel_requested = v }
set_field (attempt v) j = record j { attempt = v }
set_field (progress_pct v) j = record j { progress_pct = v }
set_field (downloaded_bytes v) j = record j { downloaded_bytes = v }
set_field (total_bytes v) j = record j { total_bytes = v }
set_field (speed_bps v) j = record j { speed_bps = v }
set_field (eta_s v) j = record j { eta_s = v }
set_field (finished_at v) j = record j { finished_at = v }
set_field (imported_at v) j = record j { imported_at = v }
set_field (error_code v) j = record j { error_code = v }
set_field (error_message v) j = record j { error_message = v }
set_field (import_command_id v) j = record j { import_command_id = v }
set_field (imported_path v) j = record j { imported_path = v }
set_field (completed_path v) j = record j { completed_path = some v }
set_field (sidecar_paths v) j = record j { sidecar_paths = v }
set_field (file_size v) j = record j { file_size = some v }
set_field (import_attempts v) j = record j { import_attempts = v }
set_field (transcode_fallback_used v) j = record j { transcode_fallback_used = v }
set_field (import_status v) j = record j { import_status = v }
set_field (import_detail v) j = record j { import_detail = v }

unfoldable pub set_fields : List Field → Job → Job
unfolding set_field
set_fields [] j = j
set_fields (f ∷ fs) j = set_fields fs (set_field f j)
