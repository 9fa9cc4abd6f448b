-- ===== src/Requests/Tests.antt =====
-- A request of two episodes on concrete rows.
use fetcharr.Base.{
  ℕ, ◌==◌, ◌≡◌, refl, String, true, false, Option, none, some, [], ◌∷◌, cat, show, if◌then◌else◌,
}
use fetcharr.Ytdlp.Tests.{plain}
use fetcharr.Ytdlp.Options.{p720}
use fetcharr.Library.Naming.{quality_label}
use fetcharr.Jobs.Rows.{CollisionPolicy, standard}
use fetcharr.Jobs.App.{App}
use fetcharr.Jobs.Manager.{episode_target}
use fetcharr.Requests.{
  CreateRequest, no_episode, of_tv, TvMedia, Info, Inspected, inspect_all, ok, err, unnameable,
  target_for, episode_target_for,
}
use fetcharr.Requests.Preview.{estimated_quality, ceiling}
use fetcharr.Requests.Created.{Outcome, create-Outcome}

abbrev info : Info
info = record {
  title = some "An upload";
  id = some "x1";
  webpage_url = some "https://example.org/v/x1";
  stream_type = some "dash";
  release_year = none;
  video_heights = some 1080 ∷ none ∷ some 480 ∷ [];
}

abbrev series : TvMedia
series = record { sonarr_series_id = some 4; title = "A series"; numbering = standard }

abbrev body : CreateRequest
body = record {
  media = of_tv series;
  first = record { inspection_id = 1; episode = some (record no_episode { number = some 3 }) };
  more = (record { inspection_id = 2; episode = none }) ∷ [];
  options = plain;
  collision_policy = CollisionPolicy.ask;
  use_cookies = true;
}

abbrev empty : App
empty = record {
  jobs = [];
  requests = [];
  logs = [];
  cancels = [];
  woken = false;
  events = [];
  effects = [];
}

abbrev uuid : ℕ → String
uuid n = cat ("id-" ∷ show n ∷ [])

abbrev incomplete : String → String
incomplete id = cat ("/media/incomplete/" ∷ id ∷ [])

abbrev inspected : ℕ → Option Inspected
inspected n = if n == 9 then none else some (info, some "example")

named :
    target_for (of_tv series) info (some (record no_episode { number = some 3 }))
    ≡ ok (episode_target "A series" 0 3 "")
unfolding target_for episode_target_for
named = refl

-- Without a number the preview is refused, though the request is created.
no_number :
    target_for (of_tv series) info none
    ≡ err (unnameable "a standard episode needs an episode number")
unfolding target_for episode_target_for
no_number = refl

below_the_ceiling : estimated_quality info p720 ≡ quality_label 480 480
unfolding estimated_quality ceiling
below_the_ceiling = refl

create-Outcome_example :
    Outcome uuid incomplete inspected 7 body empty (inspect_all inspected (body.first ∷ body.more))
create-Outcome_example = create-Outcome uuid incomplete inspected 7 body empty refl
