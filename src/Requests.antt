-- ===== src/Requests.antt =====
-- backend/app/requests/service.py: a request and its queued jobs, and the path that a preview names. A
-- body has passed the validators of schemas.py, so that its media block is the one of its type and it has
-- an item. Parameters: `uuid` (the n-th id that is drawn), the join of a folder and a name, and what
-- build_path takes. The columns that no row of the model keeps are left out (Jobs/Rows).
pub mod Preview
pub mod Named
pub mod Created
mod Tests
use fetcharr.Base.{
  ℕ, suc, ◌+◌, String, Bool, true, false, Option, none, some, or_else, List, [], ◌∷◌, ◌++◌, str_eq,
  if◌then◌else◌,
}
use fetcharr.Ytdlp.Options.{DownloadOptions}
use fetcharr.Jobs.Status.{queued, ImportStatus, not_applicable, pending}
use fetcharr.Jobs.Rows.{
  Request, Job, CollisionPolicy, MediaType, other, movie, tv, Numbering, standard, daily,
}
use fetcharr.Jobs.App.{App}
use fetcharr.Jobs.Manager.{
  Target, movie_target, episode_target, daily_target, other_target, or_text,
}

pub record MovieMedia : Type 0 where
  pub radarr_movie_id : Option ℕ
  pub title : String
  pub year : Option ℕ

pub record TvMedia : Type 0 where
  pub sonarr_series_id : Option ℕ
  pub title : String
  pub numbering : Numbering

-- The media block of a body, which says its type too.
pub data Media : Type 0 where
  of_other : Media
  of_movie : MovieMedia → Media
  of_tv : TvMedia → Media

pub record EpisodeRef : Type 0 where
  pub season : Option ℕ
  pub number : Option ℕ
  pub sonarr_episode_id : Option ℕ
  pub title : String
  pub air_date : Option ℕ

abbrev pub no_episode : EpisodeRef
no_episode = record {
  season = none;
  number = none;
  sonarr_episode_id = none;
  title = "";
  air_date = none;
}

pub record RequestItem : Type 0 where
  pub inspection_id : ℕ
  pub episode : Option EpisodeRef

pub record CreateRequest : Type 0 where
  pub media : Media
  pub first : RequestItem
  pub more : List RequestItem
  pub options : DownloadOptions
  pub collision_policy : CollisionPolicy
  pub use_cookies : Bool

-- What is read of an inspection; a height that is no number is none.
pub record Info : Type 0 where
  pub title : Option String
  pub id : Option String
  pub webpage_url : Option String
  pub stream_type : Option String
  pub release_year : Option ℕ
  pub video_heights : List (Option ℕ)

pub data RequestError : Type 0 where
  inspection_not_found : ℕ → RequestError
  request_not_found : String → RequestError
  unnameable : String → RequestError

pub data Result (A : Type 0) : Type 0 where
  ok : A → Result A
  err : RequestError → Result A

-- `_title`
unfoldable pub title_of : Info → String
title_of info = or_text info.title (or_text info.id "video")

-- `episode_target`
unfoldable pub episode_target_for : TvMedia → EpisodeRef → Result Target
episode_target_for series episode = elim series.numbering [
  | daily ↦ elim episode.air_date [
    | none ↦ err (unnameable "a daily episode needs an air date")
    | some day ↦ ok (daily_target series.title day episode.title episode.season)
  ]
  | standard ↦ elim episode.number [
    | none ↦ err (unnameable "a standard episode needs an episode number")
    | some number ↦ ok (episode_target series.title (or_else episode.season 0) number episode.title)
  ]
]

-- `target_for`
unfoldable pub target_for : Media → Info → Option EpisodeRef → Result Target
target_for (of_movie m) info episode = ok (movie_target m.title m.year)
target_for (of_tv series) info episode = episode_target_for series (or_else episode no_episode)
target_for of_other info episode = ok (other_target (title_of info) (or_text info.id ""))

-- An inspection's info, and its site.
abbrev pub Inspected : Type 0
Inspected = Info × Option String

module _ (inspection : ℕ → Option Inspected) where
  unfoldable pub inspect_all : List RequestItem → Result (List Inspected)
  inspect_all [] = ok []
  inspect_all (item ∷ items) =
      let later = inspect_all items in
      elim (inspection item.inspection_id) [
        | none ↦ err (inspection_not_found item.inspection_id)
        | some row ↦ elim later [ err e ↦ err e | ok rows ↦ ok (row ∷ rows) ]
      ]

unfoldable pub type_of : Media → MediaType
type_of of_other = other
type_of (of_movie m) = movie
type_of (of_tv series) = tv

-- The row of the request, with its first inspection.
unfoldable pub request_row : (now : ℕ) (id : String) → CreateRequest → Info → Request
request_row now id body info = record {
  id = id;
  media_type = type_of body.media;
  title = some (elim body.media [
    | of_other ↦ title_of info
    | of_movie m ↦ m.title
    | of_tv series ↦ series.title
  ]);
  year = elim body.media [ of_movie m ↦ m.year | _ ↦ info.release_year ];
  numbering = elim body.media [ of_tv series ↦ some series.numbering | _ ↦ none ];
  radarr_movie_id = elim body.media [ of_movie m ↦ m.radarr_movie_id | _ ↦ none ];
  options = body.options;
  created_at = now;
}

unfoldable pub first_import : Media → ImportStatus
first_import of_other = not_applicable
first_import _ = pending

-- The row of the job of one item.
unfoldable pub job_row :
    (now : ℕ) (request_id id job_dir : String) → CreateRequest → Inspected → RequestItem → Job
job_row now request_id id job_dir body (info, site_key) item =
    let episode = or_else item.episode no_episode in
    record {
      id = id;
      request_id = request_id;
      url = or_text info.webpage_url "";
      video_id = info.id;
      stream_type = info.stream_type;
      source_title = some (title_of info);
      status = queued;
      phase = none;
      last_completed_step = none;
      step_timings = [];
      cancel_requested = false;
      attempt = 0;
      progress_pct = none;
      downloaded_bytes = none;
      total_bytes = none;
      speed_bps = none;
      eta_s = none;
      job_dir = job_dir;
      completed_path = none;
      sidecar_paths = [];
      file_size = none;
      collision_policy = body.collision_policy;
      site_key = site_key;
      use_cookies = body.use_cookies;
      transcode_fallback_used = false;
      file_deleted_at = none;
      season = episode.season;
      episode = episode.number;
      sonarr_episode_id = episode.sonarr_episode_id;
      episode_title = if str_eq episode.title "" then none else some episode.title;
      air_date = episode.air_date;
      import_status = first_import body.media;
      import_command_id = none;
      import_attempts = 0;
      import_detail = none;
      imported_path = none;
      imported_at = none;
      error_code = none;
      error_message = none;
      created_at = now;
      started_at = none;
      finished_at = none;
    }

module _ (uuid : ℕ → String) (incomplete : String → String) where
  -- One row for each item, the ids drawn from that number on.
  unfoldable pub job_rows :
      (now : ℕ) (request_id : String) (n : ℕ)
      → CreateRequest
      → List Inspected
      → List RequestItem
      → List Job
  job_rows now request_id n body (row ∷ rows) (item ∷ items) =
      job_row now request_id (uuid n) (incomplete (uuid n)) body row item
      ∷ job_rows now request_id (suc n) body rows items
  job_rows now request_id n body _ _ = []

  unfoldable pub created : (now : ℕ) → CreateRequest → List Inspected → App → Result String × App
  created now body [] app = (ok (uuid 0), app)
  created now body (row ∷ rows) app = (
    ok (uuid 0),
    record app {
      requests = app.requests ++ request_row now (uuid 0) body row.0 ∷ [];
      jobs = app.jobs ++ job_rows now (uuid 0) 1 body (row ∷ rows) (body.first ∷ body.more);
      woken = true;
    },
  )

  module _ (inspection : ℕ → Option Inspected) where
    -- `create`: the answer is the request's id.
    unfoldable pub create : (now : ℕ) → CreateRequest → App → Result String × App
    unfolding created
    create now body app = elim (inspect_all inspection (body.first ∷ body.more)) [
      | err e ↦ (err e, app)
      | ok rows ↦ created now body rows app
    ]
