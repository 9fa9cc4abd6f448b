-- ===== src/Settings/Tests.antt =====
-- Updates of the settings on concrete input, one of them refused.
use fetcharr.Base.{ℕ, ◌≡◌, refl, Option, none, some, List, [], ◌∷◌, Text, codes}
use fetcharr.Settings.{
  update, changes, change, set_text, set_arr, is_secret_key, is_url_key, radarr, connection, env_or,
  stored_text,
}
use fetcharr.Settings.Values.{
  radarr_url, radarr_api_key, Change, arr, quality, templates, above, is_web, invalid, out_of_range,
  checked_quality, is_profile, in_range, unknown_tokens, any_tokens, is_token,
}
use fetcharr.Settings.InForce.{nothing_stored, update_all, update_all-InForce, InForce}
use fetcharr.Library.Naming.Templates.{inside, token_names}

abbrev seal : ℕ → Text → Text
seal salt text = salt ∷ text

abbrev unseal : Text → Option Text
unseal [] = none
unseal (salt ∷ text) = some text

abbrev app_changes : List Change
app_changes = arr radarr_url (codes "http://radarr:7878") ∷ arr radarr_api_key (codes "abc") ∷ []

-- The URL and the key come back, unless the environment gives others.
connected :
    radarr seal unseal
      (record { env_url = none; env_api_key = some (codes "env") })
      (update seal unseal 9 app_changes nothing_stored).1
    ≡ some (codes "http://radarr:7878", codes "env")
unfolding radarr connection env_or stored_text update changes change set_text set_arr is_secret_key
    is_url_key is_web
connected = refl

refused_quality :
    (update seal unseal 9 (quality ((codes "x265-software", above 60) ∷ []) ∷ []) nothing_stored).0
    ≡ invalid (out_of_range (codes "x265-software"))
unfolding update changes change checked_quality is_profile in_range
refused_quality = refl

unknown : unknown_tokens (codes "{Title} {Titel} {{Id}") ≡ codes "Titel" ∷ []
unfolding unknown_tokens any_tokens is_token inside token_names
unknown = refl

abbrev updates : List (ℕ × List Change)
updates =
    (9, app_changes)
    ∷ (10, quality ((codes "x265-software", above 60) ∷ []) ∷ [])
    ∷ (11, templates ((codes "other", codes " {Title} ") ∷ []) ∷ [])
    ∷ []

update_all-InForce_example : InForce seal unseal (update_all seal unseal updates nothing_stored)
update_all-InForce_example = update_all-InForce seal unseal updates
