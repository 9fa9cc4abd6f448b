-- ===== src/Settings/Sound.antt =====
-- What every update of the stored settings keeps: backend/app/settings/service.py.
use fetcharr.Base.{ℕ, ◌≡◌, true, ◌&&◌, Option, none, some, or_else, [], each, Text}
use fetcharr.Library.Naming.{ColonMode}
use fetcharr.Settings.{set_arr, mode_in_force}
use fetcharr.Settings.Values.{
  Dict, Secretive, Stored, ArrKey, radarr_url, radarr_api_key, sonarr_url, sonarr_api_key,
  is_template_key, is_web,
}
use fetcharr.Settings.Checks.{usable, fits}

module _ (encrypt : ℕ → Text → Text) where
  -- What a row of a secret holds, and one of a URL.
  abbrev pub Encrypted : Option Secretive → Type 0
  Encrypted none = Unit
  Encrypted (some row) =
      (salt : ℕ) × ((text : Text) × (row.value ≡ encrypt salt text) × (row.is_secret ≡ true))

  abbrev pub Web : Option Secretive → Type 0
  Web none = Unit
  Web (some row) = is_web row.value ≡ true

  pub record IsSound (s : Stored) : Type 0 where
    pub qualities : each (λ e. fits e.1) (or_else s.transcode_quality []) ≡ true
    pub all_usable :
        each (λ e. is_template_key e.0 && usable e.1) (or_else s.naming_templates []) ≡ true
    pub mode : (m : ColonMode) × (mode_in_force s.colon_mode ≡ some m)
    pub radarr_secret : Encrypted s.radarr_api_key
    pub sonarr_secret : Encrypted s.sonarr_api_key
    pub radarr_web : Web s.radarr_url
    pub sonarr_web : Web s.sonarr_url

  -- What a new row has to keep, by its key.
  abbrev pub SecretFor : ArrKey → Option Secretive → Type 0
  SecretFor radarr_api_key row = Encrypted row
  SecretFor sonarr_api_key row = Encrypted row
  SecretFor _ row = Unit {0}

  abbrev pub WebFor : ArrKey → Option Secretive → Type 0
  WebFor radarr_url row = Web row
  WebFor sonarr_url row = Web row
  WebFor _ row = Unit {0}

  pub SecretFor-none : (key : ArrKey) → SecretFor key none
  SecretFor-none radarr_url = tt
  SecretFor-none radarr_api_key = tt
  SecretFor-none sonarr_url = tt
  SecretFor-none sonarr_api_key = tt

  pub WebFor-none : (key : ArrKey) → WebFor key none
  WebFor-none radarr_url = tt
  WebFor-none radarr_api_key = tt
  WebFor-none sonarr_url = tt
  WebFor-none sonarr_api_key = tt

  pub set_arr-IsSound :
      (key : ArrKey) (row : Option Secretive) (s : Stored)
      → SecretFor key row
      → WebFor key row
      → IsSound s
      → IsSound (set_arr key row s)
  unfolding set_arr
  set_arr-IsSound radarr_url row s secret web sound = record {
    qualities = sound.qualities;
    all_usable = sound.all_usable;
    mode = sound.mode;
    radarr_secret = sound.radarr_secret;
    sonarr_secret = sound.sonarr_secret;
    radarr_web = web;
    sonarr_web = sound.sonarr_web;
  }
  set_arr-IsSound radarr_api_key row s secret web sound = record {
    qualities = sound.qualities;
    all_usable = sound.all_usable;
    mode = sound.mode;
    radarr_secret = secret;
    sonarr_secret = sound.sonarr_secret;
    radarr_web = sound.radarr_web;
    sonarr_web = sound.sonarr_web;
  }
  set_arr-IsSound sonarr_url row s secret web sound = record {
    qualities = sound.qualities;
    all_usable = sound.all_usable;
    mode = sound.mode;
    radarr_secret = sound.radarr_secret;
    sonarr_secret = sound.sonarr_secret;
    radarr_web = sound.radarr_web;
    sonarr_web = web;
  }
  set_arr-IsSound sonarr_api_key row s secret web sound = record {
    qualities = sound.qualities;
    all_usable = sound.all_usable;
    mode = sound.mode;
    radarr_secret = sound.radarr_secret;
    sonarr_secret = secret;
    radarr_web = sound.radarr_web;
    sonarr_web = sound.sonarr_web;
  }

  pub set_quality-IsSound :
      (row : Option (Dict ℕ)) (s : Stored)
      → each (λ e. fits e.1) (or_else row []) ≡ true
      → IsSound s
      → IsSound (record s { transcode_quality = row })
  set_quality-IsSound row s all_fit sound = record {
    qualities = all_fit;
    all_usable = sound.all_usable;
    mode = sound.mode;
    radarr_secret = sound.radarr_secret;
    sonarr_secret = sound.sonarr_secret;
    radarr_web = sound.radarr_web;
    sonarr_web = sound.sonarr_web;
  }

  pub set_templates-IsSound :
      (row : Option (Dict Text)) (s : Stored)
      → each (λ e. is_template_key e.0 && usable e.1) (or_else row []) ≡ true
      → IsSound s
      → IsSound (record s { naming_templates = row })
  set_templates-IsSound row s usable_all sound = record {
    qualities = sound.qualities;
    all_usable = usable_all;
    mode = sound.mode;
    radarr_secret = sound.radarr_secret;
    sonarr_secret = sound.sonarr_secret;
    radarr_web = sound.radarr_web;
    sonarr_web = sound.sonarr_web;
  }

  pub set_mode-IsSound :
      (row : Option Text) (s : Stored)
      → (m : ColonMode) × (mode_in_force row ≡ some m)
      → IsSound s
      → IsSound (record s { colon_mode = row })
  set_mode-IsSound row s known sound = record {
    qualities = sound.qualities;
    all_usable = sound.all_usable;
    mode = known;
    radarr_secret = sound.radarr_secret;
    sonarr_secret = sound.sonarr_secret;
    radarr_web = sound.radarr_web;
    sonarr_web = sound.sonarr_web;
  }
