-- ===== src/Library/Organizer/Place.antt =====
-- Where the files go: backend/app/library/organizer.py, the marker, `_guard` and `_resolve_collision`.
use fetcharr.Base.{
  ℕ, zero, suc, Bool, true, false, ◌&&◌, Option, none, some, is_some, List, [], ◌∷◌, ◌++◌, map,
  length, Text, codes, text_eq, after_prefix, digits, if◌then◌else◌,
}
use fetcharr.Jobs.Rows.{CollisionPolicy, ask, replace, keep_both}
use fetcharr.Library.Naming.{stem, suffix}
use fetcharr.Library.Disk.{
  FilePath, Disk, same_folder, path_of, universal_newlines, path_text, content, exists, Effect,
  renamed,
}
use fetcharr.Library.Organizer.{
  escaped, collided, Outcome, returned, raised, Steps, with_name, copy, move_all,
}

-- `_read_marker` and `_write_marker`; `write_text` leaves line ends as they are, `read_text` does not.
abbrev pub marker_of : List Text → FilePath
marker_of job_dir = record { folder = job_dir; name = codes "organize_target" }

abbrev pub marker_tmp : List Text → FilePath
marker_tmp job_dir = record { folder = job_dir; name = codes "organize_target.tmp" }

unfoldable pub read_marker : List Text → Disk → Option FilePath
read_marker job_dir disk = elim (content (marker_of job_dir) disk) [
  | none ↦ none
  | some text ↦ some (path_of (universal_newlines text))
]

unfoldable pub write_marker : List Text → FilePath → List Effect
write_marker job_dir destination =
    copy (path_text destination) (marker_tmp job_dir)
    ++ renamed (marker_tmp job_dir) (marker_of job_dir) ∷ []

-- `is_relative_to`
unfoldable pub is_relative_to : List Text → List Text → Bool
is_relative_to path [] = true
is_relative_to [] (part ∷ root) = false
is_relative_to (p ∷ path) (part ∷ root) = text_eq p part && is_relative_to path root

-- `_guard`
unfoldable pub guard : (List Text → List Text) → FilePath → List Text → Outcome FilePath
guard resolve destination completed_dir =
    let parent = resolve destination.folder in
    if is_relative_to parent (resolve completed_dir)
    then returned (record destination { folder = parent })
    else raised (escaped destination)

-- `_numbered`
unfoldable pub numbered : FilePath → ℕ → FilePath
numbered destination number =
    with_name destination
      (stem destination.name ++ codes " (" ++ digits number ++ codes ")" ++ suffix destination.name)

-- The loop for a free number, on fuel: a disk has a free one among as many numbers as it has files,
-- and one more.
unfoldable pub free_number : ℕ → FilePath → ℕ → Disk → Option ℕ
free_number zero destination number disk = none
free_number (suc fuel) destination number disk =
    let later = free_number fuel destination (suc number) disk in
    if exists (numbered destination number) disk then later else some number

-- `parent.iterdir()` and the test for the stem: the files that stand with the destination
unfoldable pub siblings : FilePath → Disk → List FilePath
siblings destination [] = []
siblings destination ((path, c) ∷ disk) =
    let rest = siblings destination disk in
    if same_folder path.folder destination.folder
      && is_some (after_prefix (stem destination.name ++ codes ".") path.name)
    then path ∷ rest
    else rest

last_part : List Text → Text
last_part [] = []
last_part (part ∷ []) = part
last_part (part ∷ next ∷ parts) = last_part (next ∷ parts)

-- Where `existing` goes when it is replaced.
unfoldable pub aside : List Text → List Text → FilePath → FilePath × FilePath
unfolding last_part
aside incomplete_dir job_dir existing = (
  existing,
  record {
    folder = incomplete_dir ++ codes "_replaced" ∷ last_part job_dir ∷ [];
    name = existing.name;
  },
)

module _ (one_device : List Text → List Text → Bool) where
  returning : FilePath → Steps (List FilePath) → Steps FilePath
  returning destination (raised error, effects) = (raised error, effects)
  returning destination (returned paths, effects) = (returned destination, effects)

  -- `_resolve_collision`
  unfoldable pub resolve_collision :
      FilePath → CollisionPolicy → List Text → List Text → Disk → Steps FilePath
  unfolding returning
  resolve_collision destination ask job_dir incomplete_dir disk =
      (raised (collided destination), [])
  resolve_collision destination replace job_dir incomplete_dir disk =
      returning destination
        (move_all one_device (map (aside incomplete_dir job_dir) (siblings destination disk)) disk)
  resolve_collision destination keep_both job_dir incomplete_dir disk =
      elim (free_number (suc (length disk)) destination 1 disk) [
        | none ↦ (raised (collided destination), [])
        | some number ↦ (returned (numbered destination number), [])
      ]

  -- the test in front of it
  unfoldable pub settle_on :
      Bool → FilePath → CollisionPolicy → List Text → List Text → Disk → Steps FilePath
  settle_on first_run destination policy job_dir incomplete_dir disk =
      if first_run && exists destination disk
      then resolve_collision destination policy job_dir incomplete_dir disk
      else (returned destination, [])
