-- ===== src/Jobs/Run/Quality.antt =====
-- The qualities that the transcode of a run may use: backend/app/jobs/manager.py, `_transcode_quality`,
-- over the settings in force.
use mathlib.Core.Path.{subst}
use fetcharr.Base.{
  ◌⊎◌, ℕ, ◌≤◌, ◌≡◌, refl, true, inl, inr, Option, none, some, List, [], ◌∷◌, All, Text, codes,
  text_eq, text_eq_iff, arith, Bool-cases, Option-cases, if◌then◌else◌, ◌∙◌,
}
use fetcharr.Ytdlp.Options.{DownloadOptions, is_transcoded}
use fetcharr.Transcode.Profiles.{profile_name}
use fetcharr.Settings.{quality_in_force}
use fetcharr.Settings.Values.{Dict, get, put, Change, Stored}
use fetcharr.Settings.InForce.{nothing_stored, update_all, update_all-InForce}
use fetcharr.Jobs.Run.{quality_for}

abbrev pub InRange : ℕ → Type 0
InRange n = (1 ≤ n) × (n ≤ 51)

-- A quality that comes from the settings: from 1 to 51. The request's own is for the profile that it asks
-- for, and no other.
abbrev pub Granted : DownloadOptions → Text × ℕ → Type 0
Granted options (name, n) =
    InRange n
    ⊎ ((name ≡ codes (profile_name options.transcode)) × (options.transcode_quality ≡ some n))

get-put :
    (j k : Text) (v : ℕ) (d : Dict ℕ)
    → get j (put k v d) ≡ (if text_eq k j then some v else get j d)
unfolding get put
get-put j k v [] = ground arith
get-put j k v ((i, w) ∷ d) =
    ground (arith, get-put j k v d, text_eq_iff i k, text_eq_iff i j, text_eq_iff k j)

All-put :
    (P : Text × ℕ → Type 0) (k : Text) (n : ℕ) (d : Dict ℕ) → P (k, n) → All P d → All P (put k n d)
unfolding put
All-put P k n [] one rest = (one, tt)
All-put P k n ((j, m) ∷ d) one (first, rest) = elim (Bool-cases (text_eq j k)) [
  | inl e ↦ rw e (one, rest)
  | inr e ↦ rw e (first, All-put P k n d one rest)
]

All-Granted :
    (options : DownloadOptions) (d : Dict ℕ) → All (λ e. InRange e.1) d → All (Granted options) d
All-Granted options [] all = tt
All-Granted options ((name, n) ∷ d) (one, all) = (inl one, All-Granted options d all)

-- What a run has for a profile: the request's own quality for the profile that it asks for, and what is
-- in force for any other.
abbrev pub chosen : DownloadOptions → Stored → Text → Option ℕ
chosen options s name = elim options.transcode_quality [
  | none ↦ get name (quality_in_force s)
  | some n ↦
      if text_eq (codes (profile_name options.transcode)) name
      then some n
      else get name (quality_in_force s)
]

quality_for-none :
    (options : DownloadOptions) (s : Stored)
    → is_transcoded options.transcode ≡ true
    → options.transcode_quality ≡ none
    → (quality_in_force s ≡ quality_for options s)
      × ((name : Text) → get name (quality_in_force s) ≡ chosen options s name)
unfolding quality_for
quality_for-none options s on e = (ground (arith, on, e), λ name. ground (arith, e))

quality_for-some :
    (options : DownloadOptions) (s : Stored) (n : ℕ)
    → is_transcoded options.transcode ≡ true
    → options.transcode_quality ≡ some n
    → let d = put (codes (profile_name options.transcode)) n (quality_in_force s) in
      (d ≡ quality_for options s) × ((name : Text) → get name d ≡ chosen options s name)
unfolding quality_for
quality_for-some options s n on e = (
  ground (arith, on, e),
  λ name.
      (get-put name (codes (profile_name options.transcode)) n (quality_in_force s)
        ∙ ground (arith, e)),
)

module _ (encrypt : ℕ → Text → Text) (decrypt : Text → Option Text) where
  -- Whatever updates were made of the settings: a run that transcodes has for the profile that is asked
  -- for the request's own quality, if there is one, and for any other what is in force. So each of its
  -- qualities is from 1 to 51, unless it is the request's own, for the profile of the request.
  pub quality_for-Granted :
      (updates : List (ℕ × List Change)) (options : DownloadOptions)
      → is_transcoded options.transcode ≡ true
      → let s = update_all encrypt decrypt updates nothing_stored in
        ((name : Text) → get name (quality_for options s) ≡ chosen options s name)
        × All (Granted options) (quality_for options s)
  quality_for-Granted updates options on =
      let s = update_all encrypt decrypt updates nothing_stored in
      let in_force = All-Granted options _ (update_all-InForce encrypt decrypt updates).0 in
      elim (Option-cases options.transcode_quality) [
        | inl e ↦
            let (same, names) = quality_for-none options s on e in
            subst
              (λ d. ((name : Text) → get name d ≡ chosen options s name) × All (Granted options) d)
              same (names, in_force)
        | inr (n, e) ↦
            let (same, names) = quality_for-some options s n on e in
            let own = All-put (Granted options) _ n (quality_in_force s) (inr (refl, e)) in_force in
            subst
              (λ d. ((name : Text) → get name d ≡ chosen options s name) × All (Granted options) d)
              same (names, own)
      ]
