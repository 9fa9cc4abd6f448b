-- ===== src/Library/Tests.antt =====
-- One job on a small disk, and the properties of the library's parts there.
use fetcharr.Base.{
  ℕ, suc, ◌<◌, ◌≤◌, ◌≡◌, refl, Bool, true, false, Option, none, some, List, [], ◌∷◌, ◌++◌, Text,
  codes, ltb, each, arith, digits,
}
use fetcharr.Jobs.Rows.{ask, keep_both}
use fetcharr.Jobs.Manager.{Target, movie_target, episode_target}
use fetcharr.Library.Disk.{
  FilePath, Disk, same_path, from_parts, is_void, join_part, join_parts, path_of, slashed,
  split_parts, content, run, crashed,
}
use fetcharr.Library.Disk.Paths.{is_plain}
use fetcharr.Library.Naming.{
  smart, sanitize, size, replace_colons, replace_colon, replace_colon_space, colon_replacement,
  is_illegal, is_space, squeeze, strip, trim_left, trim_right, push_trimmed, is_trimmed, width, fit,
  quality_label, suffix, stem, sidecar_name,
}
use fetcharr.Library.Naming.Sanitize.{IsPart, sanitize-IsPart}
use fetcharr.Library.Naming.Shorten.{name_of-ends, name_of-Fits}
use fetcharr.Library.Naming.Templates.{
  Token, default_templates, values_of, build_path, render, token_at, token_names, name_of, shorten,
  cut_name, cleaned, is_empty, episode_title,
}
use fetcharr.Library.Organizer.{returned, partial_of, Steps}
use fetcharr.Library.Organizer.Place.{
  settle_on, guard, is_relative_to, read_marker, write_marker, numbered, resolve_collision,
}
use fetcharr.Library.Organizer.Collision.{resolve_collision-keep_both}
use fetcharr.Library.Organizer.Rerun.{organize-again}
use fetcharr.Library.Organizer.Resume.{is_apart, read_marker-write_marker}
use fetcharr.Library.Organizer.Files.{
  Sidecar, sidecar, policy_for, Organized, Media, organize, first_destination, destination_from,
  files_of,
}

abbrev plain_text : Text → Text
plain_text s = s

abbrev as_it_is : List Text → List Text
as_it_is folder = folder

-- Every move is a copy.
abbrev apart_devices : List Text → List Text → Bool
apart_devices from to = false

abbrev job_dir : List Text
job_dir = codes "jobs" ∷ codes "1" ∷ []

abbrev completed_dir : List Text
completed_dir = codes "done" ∷ []

abbrev incomplete_dir : List Text
incomplete_dir = codes "jobs" ∷ []

abbrev video : FilePath
video = record { folder = job_dir; name = codes "v.mkv" }

abbrev subtitles : FilePath
subtitles = record { folder = job_dir; name = codes "v.en.srt" }

abbrev disk : Disk
disk = (video, 1 ∷ 2 ∷ 3 ∷ []) ∷ (subtitles, 4 ∷ []) ∷ []

abbrev destination : FilePath
destination = record {
  folder = codes "done" ∷ codes "movies" ∷ codes "Heat (1995)" ∷ [];
  name = codes "Heat (1995) WEBDL-1080p.mkv";
}

abbrev no_date : ℕ → Text
no_date day = []

abbrev media : Option Media
media = some (record { has_video = true; duration = 60; width = 1920; height = 1080 })

planned_at :
    first_destination plain_text as_it_is apart_devices job_dir video
      (sidecar subtitles (codes "en") ∷ [])
      completed_dir
      incomplete_dir
      (λ day. day)
      no_date
      media
      (movie_target "Heat" (some 1995))
      default_templates
      smart
    ≡ returned destination
unfolding first_destination destination_from path_of join_parts join_part split_parts from_parts
    is_void slashed build_path name_of shorten cut_name cleaned render token_at token_names
    values_of sanitize size replace_colons replace_colon replace_colon_space colon_replacement
    is_illegal is_space squeeze strip trim_left trim_right push_trimmed is_trimmed width fit
    quality_label suffix digits
planned_at = refl

abbrev files : List Sidecar
files = sidecar subtitles (codes "en") ∷ []

abbrev organizing : Disk → Steps Organized
organizing =
    organize plain_text as_it_is apart_devices job_dir video files completed_dir incomplete_dir
      (λ day. day) no_date media (movie_target "Heat" (some 1995)) ask default_templates smart

guarded_at : guard as_it_is destination completed_dir ≡ returned destination
unfolding guard is_relative_to
guarded_at = refl

settled_at :
    settle_on apart_devices true destination
      (policy_for (movie_target "Heat" (some 1995)) ask)
      job_dir
      incomplete_dir
      disk
    ≡ (returned destination, [])
unfolding policy_for settle_on content same_path
settled_at = refl

unmarked : read_marker job_dir disk ≡ none
unfolding read_marker content same_path
unmarked = refl

apart :
    is_apart plain_text as_it_is apart_devices job_dir video files completed_dir incomplete_dir
      destination
    ≡ true
unfolding same_path partial_of files_of stem suffix sidecar_name sanitize replace_colons
    replace_colon replace_colon_space colon_replacement is_illegal is_space squeeze strip trim_left
    trim_right push_trimmed is_trimmed
apart = refl

plain_destination : each is_plain (destination.folder ++ destination.name ∷ []) ≡ true
unfolding is_void
plain_destination = refl

-- A crash in the middle of the second copy.
organize-again_example :
    ((organizing (crashed 75 (organizing disk).1 disk)).0 ≡ (organizing disk).0)
    × (content destination (
          run
            (organizing (crashed 75 (organizing disk).1 disk)).1
            (crashed 75 (organizing disk).1 disk))
        ≡ content destination (run (organizing disk).1 disk))
unfolding policy_for
organize-again_example =
    organize-again plain_text as_it_is apart_devices job_dir video files completed_dir
      incomplete_dir (λ folder. refl) (λ day. day) no_date media (movie_target "Heat" (some 1995))
      ask default_templates smart destination destination destination disk 75 destination planned_at
      guarded_at settled_at refl unmarked refl plain_destination apart

resolve_collision-keep_both_example :
    (n : ℕ) × (resolve_collision apart_devices video keep_both job_dir incomplete_dir disk
      ≡ (returned (numbered video n), []))
    × (content (numbered video n) disk ≡ none)
resolve_collision-keep_both_example =
    resolve_collision-keep_both apart_devices video job_dir incomplete_dir disk

read_marker-write_marker_example :
    read_marker job_dir (run (write_marker job_dir destination) disk) ≡ some destination
read_marker-write_marker_example =
    read_marker-write_marker job_dir destination disk plain_destination

sanitize-IsPart_example : IsPart (sanitize plain_text (codes "../a: b?") smart)
sanitize-IsPart_example = sanitize-IsPart plain_text (codes "../a: b?") smart

-- An episode with a title that is too long for the limit.
abbrev talk : Target
talk = episode_target "Talks" 1 2 "A very long title"

abbrev talk_values : Token → Text
talk_values = values_of (λ day. day) no_date talk (codes "WEBDL-720p")

is_ascii : ℕ → Bool
is_ascii c = ltb c 128

ascii_below : (c : ℕ) → c < 128 → is_ascii c ≡ true
unfolding is_ascii
ascii_below c h = ground (arith, h)

ascii_title : each is_ascii (talk_values episode_title) ≡ true
unfolding is_ascii values_of
ascii_title = refl

name_of-ends_example :
    (name : Text) × (shorten plain_text
        (suc (suc (size (cleaned plain_text smart talk_values episode_title))))
        default_templates.standard_episode
        (cleaned plain_text smart talk_values)
        smart
        40
      ≡ some name)
    × (name_of plain_text default_templates.standard_episode talk_values smart 40
        ≡ cut_name plain_text name 40)
name_of-ends_example =
    name_of-ends plain_text is_ascii (λ s h. refl) ascii_below default_templates.standard_episode
      talk_values smart 40 ascii_title

short_name : Text
short_name = codes "Talks - S01E02 - A very long WEBDL-720p"

named_short :
    name_of plain_text default_templates.standard_episode talk_values smart 40 ≡ some short_name
unfolding short_name build_path name_of shorten cut_name cleaned render token_at token_names
    values_of sanitize size replace_colons replace_colon replace_colon_space colon_replacement
    is_illegal is_space squeeze strip trim_left trim_right push_trimmed is_trimmed width fit
    quality_label suffix digits
named_short = refl

name_of-Fits_example : (size short_name ≤ 40) × (is_empty short_name ≡ false)
name_of-Fits_example =
    name_of-Fits plain_text default_templates.standard_episode talk_values smart 40 short_name
      named_short
