-- ===== src/Library/Organizer.antt =====
-- backend/app/library/organizer.py: from a job's folder into the library. An operation answers with its
-- outcome and with the changes that it makes to the disk, in order. Parameters: `normalize` (see Naming),
-- `resolve` (`Path.resolve` of a folder), and `one_device`, whether a rename from one folder to another
-- stays on a device (else `os.rename` fails with EXDEV). Folders are made as they are needed.
pub mod Move
pub mod Place
pub mod Files
pub mod Moves
pub mod Again
pub mod Apart
pub mod Sequence
pub mod Resume
pub mod Settling
pub mod Cut
pub mod Rerun
pub mod Collision
use fetcharr.Base.{
  ◌==◌, Bool, Option, none, some, List, [], ◌∷◌, ◌++◌, map, length, Text, codes, if◌then◌else◌,
}
use fetcharr.Library.Disk.{
  FilePath, Content, Disk, content, Effect, unlinked, renamed, opened, wrote, run,
}

pub data OrganizeError : Type 0 where
  invalid_media : Text → OrganizeError
  unnamed : Text → OrganizeError
  escaped : FilePath → OrganizeError
  collided : FilePath → OrganizeError
  nothing_to_move : FilePath → OrganizeError

pub data Outcome (A : Type 0) : Type 0 where
  returned : A → Outcome A
  raised : OrganizeError → Outcome A

abbrev pub Steps : Type 0 → Type 0
Steps A = Outcome A × List Effect

-- What follows works on the disk that the changes so far have left.
unfoldable pub and_then : {A B : Type 0} → Disk → Steps A → (A → Disk → Steps B) → Steps B
and_then disk (raised error, effects) next = (raised error, effects)
and_then disk (returned a, effects) next =
    let (outcome, more) = next a (run effects disk) in (outcome, effects ++ more)

abbrev pub with_name : FilePath → Text → FilePath
with_name path name = record path { name = name }

unfoldable pub partial_of : FilePath → FilePath
partial_of destination =
    with_name destination (b'.' ∷ destination.name ++ codes ".fetcharr-partial")

-- `_copy`: a byte at a time, so that a crash may leave any part of the copy.
unfoldable pub copy : Content → FilePath → List Effect
copy c partial = opened partial ∷ map (wrote partial) c

module _ (one_device : List Text → List Text → Bool) where
  -- the rename, or the copy where it fails with EXDEV
  unfoldable pub moved : FilePath → FilePath → Content → List Effect
  moved source destination c =
      let partial = partial_of destination in
      if one_device source.folder destination.folder
      then renamed source destination ∷ []
      else copy c partial ++ renamed partial destination ∷ unlinked source ∷ []

  -- `_move` from the test for the source on
  unfoldable pub move_from : FilePath → FilePath → Option Content → Option Content → Steps FilePath
  unfolding moved
  move_from source destination none none = (raised (nothing_to_move source), [])
  move_from source destination none (some old) = (returned destination, [])
  move_from source destination (some c) none = (returned destination, moved source destination c)
  move_from source destination (some c) (some old) = (
    returned destination,
    (if length old == length c then unlinked source ∷ [] else moved source destination c),
  )

  -- `_move`
  unfoldable pub move : FilePath → FilePath → Disk → Steps FilePath
  unfolding move_from
  move source destination disk =
      let partial = partial_of destination in
      and_then disk (returned partial, unlinked partial ∷ [])
        (λ _ d. move_from source destination (content source d) (content destination d))

  unfoldable pub push : FilePath → Steps (List FilePath) → Steps (List FilePath)
  push path (raised error, effects) = (raised error, effects)
  push path (returned paths, effects) = (returned (path ∷ paths), effects)

  -- the moves of `_organize_files`, in order, or of the files that are replaced
  unfoldable pub move_all : List (FilePath × FilePath) → Disk → Steps (List FilePath)
  unfolding push
  move_all [] disk = (returned [], [])
  move_all ((source, destination) ∷ rest) disk =
      and_then disk (move source destination disk) (λ path d. push path (move_all rest d))
