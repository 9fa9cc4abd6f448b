-- ===== src/Requests/Preview.antt =====
-- The preview of backend/app/requests/service.py, and the estimated quality of requests/utils.py.
use fetcharr.Base.{
  ℕ, ◌==◌, ltb, leb, Bool, Option, none, some, List, [], ◌∷◌, keep, Text, codes, if◌then◌else◌,
}
use fetcharr.Ytdlp.Options.{
  DownloadOptions, Quality, p144, p240, p360, p480, p720, p1080, p1440, p2160, four_k, best,
  container_name,
}
use fetcharr.Library.Naming.{ColonMode, quality_label}
use fetcharr.Library.Naming.Templates.{Templates, build_path}
use fetcharr.Requests.{
  Media, EpisodeRef, Info, Inspected, inspection_not_found, unnameable, Result, ok, err, target_for,
}

-- backend/app/requests/utils.py, `_ceiling`
unfoldable pub ceiling : Quality → Option ℕ
ceiling best = none
ceiling four_k = some 2160
ceiling p144 = some 144
ceiling p240 = some 240
ceiling p360 = some 360
ceiling p480 = some 480
ceiling p720 = some 720
ceiling p1080 = some 1080
ceiling p1440 = some 1440
ceiling p2160 = some 2160

-- `_heights`
heights : List (Option ℕ) → List ℕ
heights [] = []
heights (none ∷ values) = heights values
heights (some h ∷ values) = let rest = heights values in if h == 0 then rest else h ∷ rest

-- The last of the sorted heights, or that number when there are none.
highest_or : ℕ → List ℕ → ℕ
highest_or default [] = default
highest_or default (h ∷ []) = h
highest_or default (h ∷ k ∷ rest) = highest_or default ((if ltb h k then k else h) ∷ rest)

ceiled : Option ℕ → List ℕ → ℕ
unfolding highest_or
ceiled none found = highest_or 0 found
ceiled (some top) found = highest_or top (keep (λ h. leb h top) found)

-- `estimated_quality`
unfoldable pub estimated_quality : Info → Quality → Text
unfolding heights ceiled
estimated_quality info quality =
    let found = heights info.video_heights in
    let height = ceiled (ceiling quality) found in
    if height == 0 then [] else quality_label height height

module _ (normalize : Text → Text) (year_of : ℕ → ℕ) (isoformat : ℕ → Text)
    (naming : Templates × ColonMode) where
  -- `_path_for`, below the completed folder
  unfoldable pub path_for : Info → DownloadOptions → Media → Option EpisodeRef → Result (List Text)
  path_for info options media episode = elim (target_for media info episode) [
    | err e ↦ err e
    | ok target ↦
        elim (build_path normalize year_of isoformat target (estimated_quality info options.quality)
          (b'.' ∷ codes (container_name options.container)) naming.0 naming.1) [
            | none ↦ err (unnameable "the name is empty")
            | some path ↦ ok path
          ]
  ]

  -- `preview`: the path, and whether there is a file already.
  unfoldable pub preview :
      (is_file : List Text → Bool) (inspection : ℕ → Option Inspected) (inspection_id : ℕ)
      → DownloadOptions
      → Media
      → Option EpisodeRef
      → Result (List Text × Bool)
  preview is_file inspection inspection_id options media episode = elim (inspection inspection_id) [
    | none ↦ err (inspection_not_found inspection_id)
    | some row ↦ elim (path_for row.0 options media episode) [
      | err e ↦ err e
      | ok path ↦ ok (path, is_file path)
    ]
  ]
