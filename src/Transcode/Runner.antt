-- ===== src/Transcode/Runner.antt =====
-- backend/app/transcode/runner.py: one ffmpeg run, the fallback to x265 and the swap of the file.
-- The process is the parameter `ffmpeg`: what a run with some arguments does; what the swap meets is
-- `Swapping`. A shutdown comes while ffmpeg runs or the file is swapped, and the removal of leftovers
-- does not fail. Progress lines, signals and the wait for the process are not modelled.
pub mod Atomic
use mathlib.Core.List.{reverse}
use fetcharr.Base.{
  ℕ, zero, String, Bool, true, false, Option, none, some, List, [], ◌∷◌, ◌++◌, cat, join, str_eq,
  ◌||◌, if◌then◌else◌,
}
use fetcharr.Ytdlp.Options.{TranscodeProfile, x265_software}
use fetcharr.Transcode.Profiles.{profile_name, is_hardware, quality_for, temp_output, build_argv}

-- A returncode: an exit status, or the signal that ended the process.
pub data ExitCode : Type 0 where
  exited signalled : ℕ → ExitCode

abbrev pub is_zero : ExitCode → Bool
is_zero (exited zero) = true
is_zero _ = false

-- What one run did: its exit, the lines it logged (none empty, and without the white space at their ends), what
-- it left at the output path, whether the cancel event is set when it has ended, and whether the task was
-- cancelled, by a shutdown, while it ran.
pub record Process (C : Type 0) : Type 0 where
  pub code : ExitCode
  pub tail : List String
  pub written : Option C
  pub cancelled : Bool
  pub shut_down : Bool

-- What the swap meets: the exception of the rename, if it fails; that of the marker's write, if it fails, with whether the file is there
-- then; and whether a shutdown cancels the task while the thread of the swap works, which it does to its
-- end.
pub record Swapping : Type 0 where
  pub unmoved : Option String
  pub unmarked : Option (Bool × String)
  pub cut_off : Bool

-- The job's folder: the `transcoded.tmp.*` files by name, the source, the done marker, and the
-- lines that went to the log.
pub record JobDir (C : Type 0) : Type 0 where
  pub temps : List (String × C)
  pub source : C
  pub done : Bool
  pub log : List String

pub data Ended : Type 0 where
  finished : Ended
  failed : ExitCode → String → Ended
  cancelled : Ended
  invalid : Ended
  shut_down : Ended
  crashed : String → Ended

-- `_reason`: the last line of the tail
unfoldable pub reason : List String → String
reason tail = elim (reverse tail) [ [] ↦ "ffmpeg failed with no output" | line ∷ _ ↦ line ]

module _ {C : Type 0} where
  abbrev pub without : String → List (String × C) → List (String × C)
  without name [] = []
  without name ((key, value) ∷ rest) =
      let later = without name rest in if str_eq key name then later else (key, value) ∷ later

  abbrev pub find : String → List (String × C) → Option C
  find name [] = none
  find name ((key, value) ∷ rest) =
      let later = find name rest in if str_eq key name then some value else later

  -- An overwritten file; a run that wrote nothing leaves what was there.
  abbrev pub write : String → Option C → List (String × C) → List (String × C)
  write name none temps = temps
  write name (some value) temps = (name, value) ∷ without name temps

  abbrev pub say : String → JobDir C → JobDir C
  say line d = record d { log = d.log ++ line ∷ [] }

  -- the end of `run_once`: the task's own cancellation, the cancel event, then the exit code
  unfoldable pub run_ended : Process C → Ended
  run_ended p =
      if p.shut_down
      then shut_down
      else if p.cancelled
      then cancelled
      else if is_zero p.code
      then finished
      else failed p.code (reason p.tail)

  module _ (ffmpeg : List String → Process C) (swapping : Swapping) where
    -- `encode`
    unfoldable pub encode :
        TranscodeProfile → String → String → List (String × ℕ) → JobDir C → Ended × JobDir C
    encode chosen source container configured d = elim (quality_for chosen configured) [
      | none ↦ (invalid, d)
      | some quality ↦ elim (build_argv chosen source (temp_output container) container quality) [
        | none ↦ (invalid, d)
        | some argv ↦
            let p = ffmpeg argv in
            let line =
              cat ("transcoding with " ∷ profile_name chosen ∷ ": " ∷ join " " argv ∷ []) in
            (
              run_ended p,
              record d {
                temps = write (temp_output container) p.written d.temps;
                log = d.log ++ line ∷ p.tail;
              },
            )
      ]
    ]

    -- `marker(job_dir).write_text`
    write_done : JobDir C → Ended × JobDir C
    write_done d = elim swapping.unmarked [
      | none ↦ (finished, record d { done = true })
      | some (there, error) ↦ (crashed error, record d { done = d.done || there })
    ]

    -- `_replace_source`: one rename, then the marker; the rename raises where there is no output
    unfoldable pub replace_source : String → JobDir C → Ended × JobDir C
    unfolding write_done
    replace_source name d = elim (find name d.temps) [
      | none ↦ (crashed "FileNotFoundError", d)
      | some output ↦ elim swapping.unmoved [
        | some error ↦ (crashed error, d)
        | none ↦ write_done (record d { source = output; temps = without name d.temps })
      ]
    ]

    -- The wait for the thread of the swap.
    unfoldable pub await_swap : Ended × JobDir C → Ended × JobDir C
    await_swap (ended, d) = if swapping.cut_off then (shut_down, d) else (ended, d)

    -- What follows a run that succeeded; the answer is whether the profile fell back.
    unfoldable pub conclude : String → String → Bool → JobDir C → (Ended × Bool) × JobDir C
    conclude source container fell_back d =
        let (ended, d') = await_swap (replace_source (temp_output container) d) in
        elim ended [
          | finished ↦ ((finished, fell_back), say (cat ("transcoded " ∷ source ∷ [])) d')
          | other ↦ ((other, fell_back), d')
        ]

    -- The `except TranscodeFailed` branch.
    unfoldable pub fall_back :
        TranscodeProfile
        → String
        → String
        → List (String × ℕ)
        → String
        → JobDir C
        → (Ended × Bool) × JobDir C
    fall_back profile source container configured message d =
        let line = cat (
          profile_name profile ∷ " failed (" ∷ message ∷ "); falling back to x265-software" ∷ []) in
        let cleared = record (say line d) { temps = without (temp_output container) d.temps } in
        let (ended, d') = encode x265_software source container configured cleared in
        elim ended [ finished ↦ conclude source container true d' | other ↦ ((other, false), d') ]

    -- `transcode`: the stale `transcoded.tmp.*` go first.
    unfoldable pub transcode :
        TranscodeProfile
        → String
        → String
        → List (String × ℕ)
        → JobDir C
        → (Ended × Bool) × JobDir C
    transcode profile source container configured d =
        let (ended, d') = encode profile source container configured (record d { temps = [] }) in
        elim ended [
          | finished ↦ conclude source container false d'
          | failed code message ↦
              if is_hardware profile
              then fall_back profile source container configured message d'
              else ((failed code message, false), d')
          | other ↦ ((other, false), d')
        ]
