-- ===== src/Settings/InForce.antt =====
-- What the settings in force keep, whatever was stored: backend/app/settings/service.py.
use mathlib.Core.Path.{subst}
use fetcharr.Base.{
  ℕ, ◌≤◌, ◌≡◌, refl, sym, inl, inr, false, not, ◌&&◌, Option, none, some, or_else, List, [], ◌∷◌,
  All, Text, arith, Bool-cases, if◌then◌else◌,
}
use fetcharr.Library.Naming.{ColonMode, smart}
use fetcharr.Library.Naming.Templates.{Templates}
use fetcharr.Settings.{
  set_arr, is_secret_key, is_url_key, set_text, change, changes, update, quality_in_force,
  mode_in_force, naming,
}
use fetcharr.Settings.Values.{
  merge, Secretive, Stored, ArrKey, radarr_url, radarr_api_key, sonarr_url, sonarr_api_key, Change,
  unset, arr, quality, templates, colon, valid, checked_quality, is_template_key, checked_templates,
  mode_name, is_web,
}
use fetcharr.Settings.Checks.{
  Result-cases, each-merge, checked_quality-fits, checked_templates-usable, mode_of-mode_name,
  usable, fits,
}
use fetcharr.Settings.Readers.{
  AllUsable, quality_in_force-fits, templates_of-AllUsable, naming-some,
}
use fetcharr.Settings.Sound.{
  SecretFor, WebFor, SecretFor-none, WebFor-none, set_arr-IsSound, set_quality-IsSound,
  set_templates-IsSound, set_mode-IsSound, Encrypted, Web, IsSound,
}

abbrev pub nothing_stored : Stored
nothing_stored = record {
  radarr_url = none;
  radarr_api_key = none;
  sonarr_url = none;
  sonarr_api_key = none;
  transcode_quality = none;
  naming_templates = none;
  colon_mode = none;
}

module _ (encrypt : ℕ → Text → Text) (decrypt : Text → Option Text) where
  valid-injective : {A : Type 0} (a b : A) → valid a ≡ valid b → a ≡ b
  valid-injective a b h = cc

  -- The row that `update` stores for a text.
  abbrev row_of : ℕ → ArrKey → Text → Secretive
  row_of salt key value = record {
    value = if is_secret_key key then encrypt salt value else value;
    is_secret = is_secret_key key;
  }

  row_of-SecretFor :
      (salt : ℕ) (key : ArrKey) (value : Text)
      → SecretFor encrypt key (some (row_of salt key value))
  unfolding is_secret_key
  row_of-SecretFor salt radarr_url value = tt
  row_of-SecretFor salt radarr_api_key value = (salt, (value, refl, refl))
  row_of-SecretFor salt sonarr_url value = tt
  row_of-SecretFor salt sonarr_api_key value = (salt, (value, refl, refl))

  row_of-WebFor :
      (salt : ℕ) (key : ArrKey) (value : Text)
      → (is_url_key key && not (is_web value)) ≡ false
      → WebFor encrypt key (some (row_of salt key value))
  unfolding is_secret_key is_url_key
  row_of-WebFor salt radarr_url value h = ground (arith, h)
  row_of-WebFor salt radarr_api_key value h = tt
  row_of-WebFor salt sonarr_url value h = ground (arith, h)
  row_of-WebFor salt sonarr_api_key value h = tt

  change-IsSound :
      (salt : ℕ) (c : Change) (s s' : Stored)
      → change encrypt decrypt salt c s ≡ valid s'
      → IsSound encrypt s
      → IsSound encrypt s'
  unfolding change set_text mode_in_force
  change-IsSound salt unset s s' h sound = subst (IsSound encrypt) (valid-injective s s' h) sound
  change-IsSound salt (arr key []) s s' h sound =
      subst (IsSound encrypt) (valid-injective (set_arr key none s) s' h) (
        set_arr-IsSound encrypt key none s (SecretFor-none encrypt key) (WebFor-none encrypt key)
          sound)
  change-IsSound salt (arr key (c ∷ value)) s s' h sound =
      elim (Bool-cases (is_url_key key && not (is_web (c ∷ value)))) [
        | inl e ↦ absurd (ground (arith, h, e))
        | inr e ↦
            subst (IsSound encrypt)
              (valid-injective (set_arr key (some (row_of salt key (c ∷ value))) s) s'
                (ground (arith, h, e)))
              (set_arr-IsSound encrypt key (some (row_of salt key (c ∷ value))) s
                (row_of-SecretFor salt key (c ∷ value)) (row_of-WebFor salt key (c ∷ value) e)
                sound)
      ]
  change-IsSound salt (quality []) s s' h sound =
      subst (IsSound encrypt) (valid-injective (record s { transcode_quality = none }) s' h)
        (set_quality-IsSound encrypt none s refl sound)
  change-IsSound salt (quality (q ∷ qs)) s s' h sound =
      elim (Result-cases (checked_quality (q ∷ qs))) [
        | inr (error, bad) ↦ absurd (ground (arith, h, bad))
        | inl (d, good) ↦
            let row = some (merge (or_else s.transcode_quality []) d) in
            subst (IsSound encrypt)
              (valid-injective (record s { transcode_quality = row }) s' (ground (arith, h, good)))
              (set_quality-IsSound encrypt row s
                (each-merge (λ e. fits e.1) (or_else s.transcode_quality []) d sound.qualities
                  (checked_quality-fits (q ∷ qs) d good))
                sound)
      ]
  change-IsSound salt (templates []) s s' h sound =
      subst (IsSound encrypt) (valid-injective (record s { naming_templates = none }) s' h)
        (set_templates-IsSound encrypt none s refl sound)
  change-IsSound salt (templates (t ∷ ts)) s s' h sound =
      elim (Result-cases (checked_templates (t ∷ ts))) [
        | inr (error, bad) ↦ absurd (ground (arith, h, bad))
        | inl (d, good) ↦
            let row = some (merge (or_else s.naming_templates []) d) in
            subst (IsSound encrypt)
              (valid-injective (record s { naming_templates = row }) s' (ground (arith, h, good)))
              (set_templates-IsSound encrypt row s
                (each-merge (λ e. is_template_key e.0 && usable e.1) (or_else s.naming_templates [])
                  d sound.all_usable (checked_templates-usable (t ∷ ts) d good))
                sound)
      ]
  change-IsSound salt (colon mode) s s' h sound =
      subst (IsSound encrypt)
        (valid-injective (record s { colon_mode = some (mode_name mode) }) s' h)
        (set_mode-IsSound encrypt (some (mode_name mode)) s (mode, mode_of-mode_name mode) sound)

  changes-IsSound :
      (salt : ℕ) (cs : List Change) (s s' : Stored)
      → changes encrypt decrypt salt cs s ≡ valid s'
      → IsSound encrypt s
      → IsSound encrypt s'
  unfolding changes
  changes-IsSound salt [] s s' h sound = subst (IsSound encrypt) (valid-injective s s' h) sound
  changes-IsSound salt (c ∷ cs) s s' h sound =
      elim (Result-cases (change encrypt decrypt salt c s)) [
        | inr (error, bad) ↦ absurd (ground (arith, h, bad))
        | inl (s1, good) ↦
            changes-IsSound salt cs s1 s' (ground (arith, h, good))
              (change-IsSound salt c s s1 good sound)
      ]

  update-IsSound :
      (salt : ℕ) (cs : List Change) (s : Stored)
      → IsSound encrypt s
      → IsSound encrypt (update encrypt decrypt salt cs s).1
  unfolding update
  update-IsSound salt cs s sound = elim (Result-cases (changes encrypt decrypt salt cs s)) [
    | inr (error, bad) ↦
        let same : (update encrypt decrypt salt cs s).1 ≡ s = ground (arith, bad) in
        subst (IsSound encrypt) (sym same) sound
    | inl (s', good) ↦
        let same : (update encrypt decrypt salt cs s).1 ≡ s' = ground (arith, good) in
        subst (IsSound encrypt) (sym same) (changes-IsSound salt cs s s' good sound)
  ]

  pub update_all : List (ℕ × List Change) → Stored → Stored
  update_all [] s = s
  update_all ((salt, cs) ∷ rest) s = update_all rest (update encrypt decrypt salt cs s).1

  update_all-IsSound :
      (updates : List (ℕ × List Change)) (s : Stored)
      → IsSound encrypt s
      → IsSound encrypt (update_all updates s)
  unfolding update_all
  update_all-IsSound [] s sound = sound
  update_all-IsSound ((salt, cs) ∷ rest) s sound =
      update_all-IsSound rest (update encrypt decrypt salt cs s).1 (update-IsSound salt cs s sound)

  -- What the readers of the settings are given, and how secrets and URLs are stored.
  abbrev pub InForce : Stored → Type 0
  InForce s =
      All (λ e. (1 ≤ e.1) × (e.1 ≤ 51)) (quality_in_force s)
      × ((t : Templates) × ((m : ColonMode) × (naming s ≡ some (t, m)) × AllUsable t))
      × Encrypted encrypt s.radarr_api_key
      × Encrypted encrypt s.sonarr_api_key
      × Web encrypt s.radarr_url
      × Web encrypt s.sonarr_url

  IsSound-InForce : (s : Stored) → IsSound encrypt s → InForce s
  IsSound-InForce s sound =
      let (t, same, all) =
        templates_of-AllUsable (or_else s.naming_templates []) sound.all_usable in
      (
        quality_in_force-fits s sound.qualities,
        (t, (sound.mode.0, naming-some s t sound.mode.0 same sound.mode.1, all)),
        sound.radarr_secret,
        sound.sonarr_secret,
        sound.radarr_web,
        sound.sonarr_web,
      )

  -- Whatever updates are made of settings that nothing is stored of, those refused included: every
  -- quality in force is from 1 to 51; the naming can be read, and each of its templates is not blank and
  -- has no braces but those of a token; a stored API key is encrypted, and marked so; a stored URL begins
  -- with http:// or https://.
  pub update_all-InForce :
      (updates : List (ℕ × List Change)) → InForce (update_all updates nothing_stored)
  unfolding mode_in_force
  update_all-InForce updates = IsSound-InForce (update_all updates nothing_stored) (
      update_all-IsSound updates nothing_stored (record {
        qualities = refl;
        all_usable = refl;
        mode = (smart, refl);
        radarr_secret = tt;
        sonarr_secret = tt;
        radarr_web = tt;
        sonarr_web = tt;
      }))
