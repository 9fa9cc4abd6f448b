-- ===== src/Settings/Read.antt =====
-- `read` of backend/app/settings/service.py, and the shape of backend/app/settings/schemas.py.
use fetcharr.Base.{ℕ, Bool, true, false, ◌||◌, Option, none, some, List, [], ◌∷◌, Text}
use fetcharr.Library.Naming.{ColonMode}
use fetcharr.Library.Naming.Templates.{Templates}
use fetcharr.Settings.{Env, env_or, stored_text, quality_in_force, naming}
use fetcharr.Settings.Values.{Stored}

pub record SettingsRead : Type 0 where
  pub radarr_url : Option Text
  pub radarr_api_key_set : Bool
  pub radarr_from_env : Bool
  pub sonarr_url : Option Text
  pub sonarr_api_key_set : Bool
  pub sonarr_from_env : Bool
  pub transcode_quality : List (Text × ℕ)
  pub naming_templates : Templates
  pub colon_mode : ColonMode

-- What Python takes as true of a text that may be missing.
unfoldable pub is_set : Option Text → Bool
is_set none = false
is_set (some []) = false
is_set (some (c ∷ s)) = true

module _ (encrypt : ℕ → Text → Text) (decrypt : Text → Option Text) where
  -- `read`; none is what `naming` raises. A key is told only as set or not.
  unfoldable pub read : (radarr_env sonarr_env : Env) → Stored → Option SettingsRead
  read radarr_env sonarr_env s = elim (naming s) [
    | none ↦ none
    | some (templates, mode) ↦ some (record {
      radarr_url = env_or radarr_env.env_url (stored_text encrypt decrypt s.radarr_url);
      radarr_api_key_set =
          is_set (env_or radarr_env.env_api_key (stored_text encrypt decrypt s.radarr_api_key));
      radarr_from_env = is_set radarr_env.env_url || is_set radarr_env.env_api_key;
      sonarr_url = env_or sonarr_env.env_url (stored_text encrypt decrypt s.sonarr_url);
      sonarr_api_key_set =
          is_set (env_or sonarr_env.env_api_key (stored_text encrypt decrypt s.sonarr_api_key));
      sonarr_from_env = is_set sonarr_env.env_url || is_set sonarr_env.env_api_key;
      transcode_quality = quality_in_force s;
      naming_templates = templates;
      colon_mode = mode;
    })
  ]
