-- ===== src/Settings/Values.antt =====
-- The values that backend/app/settings/service.py stores, and its checks of them. A body has the types of
-- backend/app/settings/schemas.py, so that the tests of types in the checks always pass.
use fetcharr.Base.{
  ℕ, ◌==◌, leb, Bool, true, false, not, ◌&&◌, ◌||◌, Option, none, some, is_some, List, [], ◌∷◌,
  keep, any as any_of, Text, codes, text_eq, after_prefix, if◌then◌else◌,
}
use fetcharr.Auth.Service.{strip_space}
use fetcharr.Ytdlp.Options.{TranscodeProfile}
use fetcharr.Transcode.Profiles.{profile_name}
use fetcharr.Library.Naming.{ColonMode, smart, delete, dash, space_dash, space_dash_space}
use fetcharr.Library.Naming.Templates.{token_names, inside}

-- A JSON object, with each key once.
abbrev pub Dict : Type 0 → Type 0
Dict V = List (Text × V)

module _ {V : Type 0} where
  unfoldable pub get : Text → Dict V → Option V
  get k [] = none
  get k ((j, v) ∷ d) = let later = get k d in if text_eq j k then some v else later

  unfoldable pub put : Text → V → Dict V → Dict V
  put k v [] = (k, v) ∷ []
  put k v ((j, w) ∷ d) = let later = put k v d in if text_eq j k then (k, v) ∷ d else (j, w) ∷ later

  -- `{**old, **new}`
  unfoldable pub merge : Dict V → Dict V → Dict V
  merge old [] = old
  merge old ((k, v) ∷ new) = merge (put k v old) new

-- A whole number: `below n` is `-n`.
pub data Whole : Type 0 where
  above below : ℕ → Whole

-- A row's text, and whether it is encrypted.
pub record Secretive : Type 0 where
  pub value : Text
  pub is_secret : Bool

pub record Stored : Type 0 where
  pub radarr_url : Option Secretive
  pub radarr_api_key : Option Secretive
  pub sonarr_url : Option Secretive
  pub sonarr_api_key : Option Secretive
  pub transcode_quality : Option (Dict ℕ)
  pub naming_templates : Option (Dict Text)
  pub colon_mode : Option Text

-- The four settings of the arr apps, and a field of an update that was given, by its type: with None it
-- changes nothing.
pub data ArrKey : Type 0 where
  radarr_url radarr_api_key sonarr_url sonarr_api_key : ArrKey

pub data Change : Type 0 where
  unset : Change
  arr : ArrKey → Text → Change
  quality : Dict Whole → Change
  templates : Dict Text → Change
  colon : ColonMode → Change

-- What InvalidSetting tells of.
pub data SettingsError : Type 0 where
  no_profile out_of_range no_template empty_template unknown_token : Text → SettingsError
  no_url : Text → SettingsError

pub data Result (A : Type 0) : Type 0 where
  valid : A → Result A
  invalid : SettingsError → Result A

abbrev pub then_valid : {A B : Type 0} → Result A → (A → Result B) → Result B
then_valid (valid a) f = f a
then_valid (invalid e) f = invalid e

abbrev pub profiles : List (Text × ℕ)
profiles =
    (codes (profile_name TranscodeProfile.hevc_qsv), 24)
    ∷ (codes (profile_name TranscodeProfile.hevc_vaapi), 24)
    ∷ (codes (profile_name TranscodeProfile.x265_software), 23)
    ∷ []

unfoldable pub is_profile : Text → Bool
is_profile name = any_of (λ p. text_eq name p.0) profiles

abbrev pub quality_min : ℕ
quality_min = 1

abbrev pub quality_max : ℕ
quality_max = 51

unfoldable pub in_range : Whole → Option ℕ
in_range (above n) = if leb quality_min n && leb n quality_max then some n else none
in_range (below n) = none

-- `_checked_quality`
unfoldable pub checked_quality : Dict Whole → Result (Dict ℕ)
checked_quality [] = valid []
checked_quality ((name, value) ∷ rest) =
    let later = checked_quality rest in
    if is_profile name
    then elim (in_range value) [
      | none ↦ invalid (out_of_range name)
      | some n ↦ then_valid later (λ d. valid ((name, n) ∷ d))
    ]
    else invalid (no_profile name)

-- `TEMPLATE_KEYS`
abbrev pub template_keys : List Text
template_keys =
    codes "movie_folder"
    ∷ codes "movie_file"
    ∷ codes "series_folder"
    ∷ codes "season_folder"
    ∷ codes "specials_folder"
    ∷ codes "standard_episode"
    ∷ codes "daily_episode"
    ∷ codes "other"
    ∷ []

unfoldable pub is_template_key : Text → Bool
is_template_key key = any_of (λ k. text_eq key k) template_keys

unfoldable pub is_token : Text → Bool
unfolding token_names
is_token name = any_of (λ t. text_eq name t.0) token_names

-- `_ANY_TOKEN.finditer`: what stands between the braces
unfoldable pub any_tokens : Text → List Text
any_tokens [] = []
any_tokens (c ∷ s) =
    let later = any_tokens s in
    if c == b'{' then elim (inside b'{' b'}' s) [ none ↦ later | some t ↦ t ∷ later ] else later

-- `unknown_tokens` of backend/app/library/naming.py, each as often as it is there
unfoldable pub unknown_tokens : Text → List Text
unknown_tokens template = keep (λ t. not (is_token t)) (any_tokens template)

abbrev pub is_blank : Text → Bool
is_blank [] = true
is_blank (c ∷ s) = false

unfoldable pub checked_template : Text → Text → Result Text
checked_template key template =
    if not (is_template_key key)
    then invalid (no_template key)
    else if is_blank (strip_space template)
    then invalid (empty_template key)
    else elim (unknown_tokens template) [
      | [] ↦ valid (strip_space template)
      | t ∷ more ↦ invalid (unknown_token key)
    ]

-- `_checked_templates`
unfoldable pub checked_templates : Dict Text → Result (Dict Text)
unfolding checked_template
checked_templates [] = valid []
checked_templates ((key, template) ∷ rest) =
    let later = checked_templates rest in
    then_valid (checked_template key template) (λ t. then_valid later (λ d. valid ((key, t) ∷ d)))

-- `str(mode)`, and `ColonMode(value)`
unfoldable pub mode_name : ColonMode → Text
mode_name smart = codes "smart"
mode_name delete = codes "delete"
mode_name dash = codes "dash"
mode_name space_dash = codes "space_dash"
mode_name space_dash_space = codes "space_dash_space"

unfoldable pub mode_of : Text → Option ColonMode
unfolding mode_name
mode_of name =
    if text_eq name (mode_name smart)
    then some smart
    else if text_eq name (mode_name delete)
    then some delete
    else if text_eq name (mode_name dash)
    then some dash
    else if text_eq name (mode_name space_dash)
    then some space_dash
    else if text_eq name (mode_name space_dash_space)
    then some space_dash_space
    else none

unfoldable pub is_web : Text → Bool
is_web url =
    is_some (after_prefix (codes "http://") url) || is_some (after_prefix (codes "https://") url)
