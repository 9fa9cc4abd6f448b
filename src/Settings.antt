-- ===== src/Settings.antt =====
-- backend/app/settings/service.py: what is stored, what an update may change, and what is in force. The
-- table's rows, at most one for each key, are the fields of a record. Parameters: `encrypt` (with its
-- random part) and `decrypt` of Fernet.
pub mod Values
pub mod Checks
pub mod Read
pub mod Readers
pub mod Sound
pub mod InForce
mod Tests
use fetcharr.Base.{
  ℕ, Bool, true, false, not, ◌&&◌, Option, none, some, or_else, List, [], ◌∷◌, any as any_of, map,
  Text, codes, if◌then◌else◌,
}
use fetcharr.Library.Naming.{ColonMode, smart}
use fetcharr.Library.Naming.Templates.{Templates, default_templates}
use fetcharr.Settings.Values.{
  Dict, get, merge, Secretive, Stored, ArrKey, Change, Result, then_valid, profiles,
  checked_quality, is_template_key, checked_templates, mode_name, mode_of, is_web, radarr_url,
  radarr_api_key, sonarr_url, sonarr_api_key, unset, arr, quality, templates, colon, no_url, valid,
  invalid,
}

-- The row of a key, put or dropped.
unfoldable pub set_arr : ArrKey → Option Secretive → Stored → Stored
set_arr radarr_url row s = record s { radarr_url = row }
set_arr radarr_api_key row s = record s { radarr_api_key = row }
set_arr sonarr_url row s = record s { sonarr_url = row }
set_arr sonarr_api_key row s = record s { sonarr_api_key = row }

-- `key in SECRETS`, `key in URLS`
unfoldable pub is_secret_key : ArrKey → Bool
is_secret_key radarr_api_key = true
is_secret_key sonarr_api_key = true
is_secret_key _ = false

unfoldable pub is_url_key : ArrKey → Bool
is_url_key radarr_url = true
is_url_key sonarr_url = true
is_url_key _ = false

pub record Env : Type 0 where
  pub env_url : Option Text
  pub env_api_key : Option Text

-- `self.settings.radarr_url or stored.get(RADARR_URL)`
unfoldable pub env_or : Option Text → Option Text → Option Text
env_or (some (c ∷ s)) stored = some (c ∷ s)
env_or _ stored = stored

-- `_connection`
unfoldable pub connection : Option Text → Option Text → Option (Text × Text)
connection (some (c ∷ url)) (some (d ∷ key)) = some (c ∷ url, d ∷ key)
connection _ _ = none

module _ (encrypt : ℕ → Text → Text) (decrypt : Text → Option Text) where
  unfoldable pub set_text : ℕ → ArrKey → Text → Stored → Result Stored
  set_text salt key [] s = valid (set_arr key none s)
  set_text salt key (c ∷ value) s =
      if is_url_key key && not (is_web (c ∷ value))
      then invalid (no_url (c ∷ value))
      else valid (
          set_arr key
            (some (record {
              value = if is_secret_key key then encrypt salt (c ∷ value) else c ∷ value;
              is_secret = is_secret_key key;
            }))
            s)

  -- The body of the loop of `update`.
  unfoldable pub change : ℕ → Change → Stored → Result Stored
  unfolding set_text
  change salt unset s = valid s
  change salt (arr key value) s = set_text salt key value s
  change salt (quality []) s = valid (record s { transcode_quality = none })
  change salt (quality (q ∷ qs)) s = then_valid (checked_quality (q ∷ qs)) (λ d.
      valid (record s { transcode_quality = some (merge (or_else s.transcode_quality []) d) }))
  change salt (templates []) s = valid (record s { naming_templates = none })
  change salt (templates (t ∷ ts)) s =
      then_valid (checked_templates (t ∷ ts)) (λ d.
        valid (record s { naming_templates = some (merge (or_else s.naming_templates []) d) }))
  change salt (colon mode) s = valid (record s { colon_mode = some (mode_name mode) })

  unfoldable pub changes : ℕ → List Change → Stored → Result Stored
  changes salt [] s = valid s
  changes salt (c ∷ cs) s = then_valid (change salt c s) (λ s'. changes salt cs s')

  -- The transaction of `update`, which an error rolls back; what `read` then answers is in Read.
  unfoldable pub update : ℕ → List Change → Stored → Result (Unit {0}) × Stored
  update salt cs s = elim (changes salt cs s) [
    | valid s' ↦ (valid tt, s')
    | invalid error ↦ (invalid error, s)
  ]

  -- `_stored`, for one key
  unfoldable pub stored_text : Option Secretive → Option Text
  stored_text none = none
  stored_text (some row) = elim (if row.is_secret then decrypt row.value else some row.value) [
    | none ↦ none
    | some [] ↦ none
    | some (c ∷ s) ↦ some (c ∷ s)
  ]

  -- `radarr` and `sonarr`
  unfoldable pub radarr : Env → Stored → Option (Text × Text)
  radarr env s =
      connection (env_or env.env_url (stored_text s.radarr_url))
        (env_or env.env_api_key (stored_text s.radarr_api_key))

  unfoldable pub sonarr : Env → Stored → Option (Text × Text)
  sonarr env s =
      connection (env_or env.env_url (stored_text s.sonarr_url))
        (env_or env.env_api_key (stored_text s.sonarr_api_key))

-- `transcode_quality`
unfoldable pub quality_in_force : Stored → List (Text × ℕ)
quality_in_force s =
    map (λ p. (p.0, or_else (get p.0 (or_else s.transcode_quality [])) p.1)) profiles

-- The templates, each given its key and its default.
unfoldable pub templates_from : (Text → Text → Text) → Templates
templates_from field = record {
  movie_folder = field (codes "movie_folder") default_templates.movie_folder;
  movie_file = field (codes "movie_file") default_templates.movie_file;
  series_folder = field (codes "series_folder") default_templates.series_folder;
  season_folder = field (codes "season_folder") default_templates.season_folder;
  specials_folder = field (codes "specials_folder") default_templates.specials_folder;
  standard_episode = field (codes "standard_episode") default_templates.standard_episode;
  daily_episode = field (codes "daily_episode") default_templates.daily_episode;
  other = field (codes "other") default_templates.other;
}

-- `Templates(**{**asdict(DEFAULT_TEMPLATES), **stored})`; none is the `TypeError` for another key
unfoldable pub templates_of : Dict Text → Option Templates
templates_of stored =
    if any_of (λ p. not (is_template_key p.0)) stored
    then none
    else some (templates_from (λ k default. or_else (get k stored) default))

unfoldable pub mode_in_force : Option Text → Option ColonMode
mode_in_force none = some smart
mode_in_force (some name) = mode_of name

-- `naming`; none is what it raises
unfoldable pub naming : Stored → Option (Templates × ColonMode)
unfolding mode_in_force
naming s = elim (templates_of (or_else s.naming_templates [])) [
  | none ↦ none
  | some chosen ↦ elim (mode_in_force s.colon_mode) [
    | none ↦ none
    | some mode ↦ some (chosen, mode)
  ]
]
