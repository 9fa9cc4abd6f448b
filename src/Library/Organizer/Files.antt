-- ===== src/Library/Organizer/Files.antt =====
-- All of a job's files: backend/app/library/organizer.py, `_organize_files` and `organize`.
use fetcharr.Base.{
  ℕ, ◌==◌, Bool, true, false, not, ◌&&◌, ◌||◌, Option, none, some, List, [], ◌∷◌, take, length,
  Text, if◌then◌else◌,
}
use fetcharr.Jobs.Rows.{CollisionPolicy, keep_both}
use fetcharr.Jobs.Manager.{Target, other_target}
use fetcharr.Library.Naming.Templates.{Templates, build_path}
use fetcharr.Library.Naming.{ColonMode, quality_label, suffix, sidecar_name}
use fetcharr.Library.Disk.{
  FilePath, Content, Disk, path_of, join_parts, slashed, content, exists, run,
}
use fetcharr.Library.Organizer.{
  invalid_media, unnamed, Outcome, returned, raised, Steps, and_then, with_name, move_all,
}
use fetcharr.Library.Organizer.Place.{read_marker, write_marker, guard, settle_on}

pub data Sidecar : Type 0 where
  sidecar : (path : FilePath) → (lang : Text) → Sidecar

pub record Organized : Type 0 where
  pub video : FilePath
  pub sidecars : List FilePath
  pub size : ℕ

-- What ffprobe tells of a file; the duration is in microseconds, as it prints it.
pub record Media : Type 0 where
  pub has_video : Bool
  pub duration : ℕ
  pub width : ℕ
  pub height : ℕ

module _ (normalize : Text → Text) where
  -- Sidecars first, the video last.
  unfoldable pub files_of : List Sidecar → FilePath → FilePath → List (FilePath × FilePath)
  files_of [] video destination = (video, destination) ∷ []
  files_of (sidecar path lang ∷ rest) video destination =
      (
        path,
        with_name destination (sidecar_name normalize destination.name lang (suffix path.name)),
      )
      ∷ files_of rest video destination

-- A title typed by hand never stops at a collision.
unfoldable pub policy_for : Target → CollisionPolicy → CollisionPolicy
policy_for (other_target title id) policy = keep_both
policy_for _ policy = policy

or_marker : List Text → Option FilePath → Disk → Option FilePath
or_marker job_dir none disk = read_marker job_dir disk
or_marker job_dir (some path) disk = some path

-- `is_organized`
unfoldable pub is_organized : List Text → FilePath → Option FilePath → Disk → Bool
unfolding or_marker
is_organized job_dir video completed_path disk = elim (or_marker job_dir completed_path disk) [
  | none ↦ false
  | some destination ↦ exists destination disk && not (exists video disk)
]

module _ (normalize : Text → Text) (resolve : List Text → List Text)
    (one_device : List Text → List Text → Bool) (job_dir : List Text) (video : FilePath)
    (sidecars : List Sidecar) (completed_dir incomplete_dir : List Text) where
  unfoldable pub size_of : Option Content → ℕ
  size_of none = 0
  size_of (some c) = length c

  -- `_organize_files` once the moves are done: the sidecars' paths are all but the last.
  unfoldable pub organized : FilePath → Disk → Steps (List FilePath) → Steps Organized
  unfolding size_of
  organized destination disk (raised error, effects) = (raised error, effects)
  organized destination disk (returned paths, effects) = (
    returned (record {
      video = destination;
      sidecars = take (length sidecars) paths;
      size = size_of (content destination (run effects disk));
    }),
    effects,
  )

  -- from the destination that it has settled on
  unfoldable pub place : FilePath → Disk → Steps Organized
  unfolding organized
  place destination disk =
      and_then disk (returned destination, write_marker job_dir destination)
        (λ _ d.
          organized destination d
            (move_all one_device (files_of normalize sidecars video destination) d))

  unfoldable pub after_guard : Outcome FilePath → Bool → CollisionPolicy → Disk → Steps Organized
  after_guard (raised error) first_run policy disk = (raised error, [])
  after_guard (returned destination) first_run policy disk =
      and_then disk (settle_on one_device first_run destination policy job_dir incomplete_dir disk)
        place

  -- `_organize_files`
  unfoldable pub organize_files : FilePath → Bool → CollisionPolicy → Disk → Steps Organized
  unfolding after_guard
  organize_files destination first_run policy disk =
      after_guard (guard resolve destination completed_dir) first_run policy disk

  -- The name of a first run, from what ffprobe tells of the video.
  unfoldable pub destination_from :
      Option Media → (Text → Text → Option (List Text)) → Outcome FilePath
  destination_from none build = raised (invalid_media video.name)
  destination_from (some media) build =
      if not media.has_video || media.duration == 0
      then raised (invalid_media video.name)
      else elim (build (quality_label media.width media.height) (suffix video.name)) [
        | none ↦ raised (unnamed video.name)
        | some parts ↦ returned (path_of (join_parts (slashed completed_dir) parts))
      ]

  unfoldable pub begun :
      Option FilePath → Outcome FilePath → CollisionPolicy → Disk → Steps Organized
  begun (some destination) planned policy disk = organize_files destination false policy disk
  begun none (raised error) policy disk = (raised error, [])
  begun none (returned destination) policy disk = organize_files destination true policy disk

  -- where a first run wants the video; `media` is the answer of `probe`, none where it raised
  unfoldable pub first_destination :
      (year_of : ℕ → ℕ)
      → (isoformat : ℕ → Text) → Option Media
      → Target
      → Templates
      → ColonMode
      → Outcome FilePath
  unfolding destination_from
  first_destination year_of isoformat media target templates colon =
      let build : Text → Text → Option (List Text) =
        λ quality ext. build_path normalize year_of isoformat target quality ext templates colon in
      destination_from media build

  -- `organize`
  unfoldable pub organize :
      (year_of : ℕ → ℕ)
      → (isoformat : ℕ → Text) → Option Media
      → Target
      → CollisionPolicy
      → Templates
      → ColonMode
      → Disk
      → Steps Organized
  unfolding begun
  organize year_of isoformat media target policy templates colon disk =
      begun (read_marker job_dir disk)
        (first_destination year_of isoformat media target templates colon)
        (policy_for target policy) disk
