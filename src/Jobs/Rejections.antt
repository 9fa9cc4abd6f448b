-- ===== src/Jobs/Rejections.antt =====
-- backend/app/jobs/utils.py, `explain_rejection`, and `_explain` of backend/app/jobs/pipeline.py: a
-- sentence for the app's one-word verdict. A length is in whole seconds, as `_clock` rounds it.
use fetcharr.Base.{
  ℕ, zero, suc, ◌/◌, ◌%◌, ◌==◌, ltb, String, not, Option, none, some, List, [], ◌∷◌, cat, show,
  str_eq, if◌then◌else◌,
}
use fetcharr.Jobs.Manager.{or_text}

pub record Rejection : Type 0 where
  pub reason : String
  pub runtime_minutes : Option ℕ
  pub title : Option String

-- backend/app/jobs/utils.py, `_clock` and `explain_rejection`
padded : ℕ → String
padded n = if ltb n 10 then cat ("0" ∷ show n ∷ []) else show n

clock : ℕ → String
unfolding padded
clock total =
    let hours = total / 3600 in
    let minutes = (total % 3600) / 60 in
    let seconds = (total % 3600) % 60 in
    if hours == 0
    then cat (show minutes ∷ ":" ∷ padded seconds ∷ [])
    else cat (show hours ∷ ":" ∷ padded minutes ∷ ":" ∷ padded seconds ∷ [])

-- A number that is there and is not 0.
abbrev truthy : Option ℕ → Option ℕ
truthy none = none
truthy (some zero) = none
truthy (some (suc n)) = some (suc n)

unfoldable pub explain_rejection : Rejection → String → Option ℕ → Option String
unfolding clock
explain_rejection rejection app file_seconds =
    let what : String = if str_eq app "Sonarr" then "episode" else "movie" in
    let advice : String = "Pick the full-length video, or download clips and trailers as Other." in
    let short : String = cat (
      app ∷ " takes the file for a sample: it is far shorter than the " ∷ what ∷ ". " ∷ advice
      ∷ []) in
    if not (str_eq rejection.reason "Sample") then none else elim (truthy file_seconds) [
      | none ↦ some short
      | some seconds ↦ elim (truthy rejection.runtime_minutes) [
        | none ↦ some short
        | some minutes ↦
            let subject = or_text rejection.title (cat ("the " ∷ what ∷ [])) in
            some (
              cat (
                "the file is "
                ∷ clock seconds
                ∷ " long but "
                ∷ subject
                ∷ " runs "
                ∷ show minutes
                ∷ " min, so "
                ∷ app
                ∷ " takes it for a sample or trailer, not the "
                ∷ what
                ∷ " itself. "
                ∷ advice
                ∷ []))
      ]
    ]

first_sample : List Rejection → Option Rejection
first_sample [] = none
first_sample (r ∷ rest) =
    let later = first_sample rest in if str_eq r.reason "Sample" then some r else later

-- `_explain`
unfoldable pub explain : String → Option ℕ → List Rejection → Option String
unfolding first_sample
explain app measured rejections = elim (first_sample rejections) [
  | none ↦ none
  | some sample ↦ explain_rejection sample app measured
]
