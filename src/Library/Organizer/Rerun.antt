-- ===== src/Library/Organizer/Rerun.antt =====
-- `organize` of backend/app/library/organizer.py, run again after a crash.
use mathlib.Core.Path.{subst}
use fetcharr.Base.{
  ℕ, ◌≡◌, refl, sym, ap, ◌∙◌, Bool, true, false, ◌&&◌, inl, inr, Option, none, some, List, [], ◌∷◌,
  ◌++◌, each, Text, arith, if◌then◌else◌, Bool-cases,
}
use fetcharr.Jobs.Rows.{CollisionPolicy}
use fetcharr.Jobs.Manager.{Target}
use fetcharr.Library.Naming.{ColonMode}
use fetcharr.Library.Naming.Templates.{Templates}
use fetcharr.Library.Disk.{
  FilePath, Disk, same_path, same_folder, content, exists, run, crashed, path_text,
}
use fetcharr.Library.Disk.Paths.{is_plain, path_of-universal_newlines}
use fetcharr.Library.Organizer.{Outcome, returned, Steps, and_then}
use fetcharr.Library.Organizer.Place.{
  marker_of, marker_tmp, read_marker, write_marker, is_relative_to, guard, numbered, settle_on,
}
use fetcharr.Library.Organizer.Files.{
  Sidecar, Organized, Media, policy_for, first_destination, organize, place, organize_files,
  after_guard, begun,
}
use fetcharr.Library.Organizer.Again.{Repeats, Again}
use fetcharr.Library.Organizer.Resume.{moves, is_apart, place-Again, all_avoid-moves}
use fetcharr.Library.Organizer.Settling.{is_replace, settling-same, numbered-folder}
use fetcharr.Library.Organizer.Cut.{Cut, Cut-more}

module _ (normalize : Text → Text) (resolve : List Text → List Text)
    (one_device : List Text → List Text → Bool) (job_dir : List Text) (video : FilePath)
    (sidecars : List Sidecar) (completed_dir incomplete_dir : List Text)
    (idem : (folder : List Text) → resolve (resolve folder) ≡ resolve folder) where
  abbrev placing : FilePath → Disk → Steps Organized
  placing = place normalize resolve one_device job_dir video sidecars completed_dir incomplete_dir

  abbrev beginning : Option FilePath → Outcome FilePath → CollisionPolicy → Disk → Steps Organized
  beginning = begun normalize resolve one_device job_dir video sidecars completed_dir incomplete_dir

  abbrev guarding : Outcome FilePath → Bool → CollisionPolicy → Disk → Steps Organized
  guarding =
      after_guard normalize resolve one_device job_dir video sidecars completed_dir incomplete_dir

  then_placing :
      (destination : FilePath) (d : Disk)
      → and_then d (returned destination, []) placing ≡ placing destination d
  unfolding and_then run
  then_placing destination d = refl

  -- A run that its marker or its collision test sends to a destination places the files there.
  beginning-first :
      (planned guarded destination : FilePath) (policy : CollisionPolicy) (d : Disk)
      → guard resolve planned completed_dir ≡ returned guarded
      → settle_on one_device true guarded policy job_dir incomplete_dir d
        ≡ (returned destination, [])
      → beginning none (returned planned) policy d ≡ placing destination d
  unfolding begun organize_files after_guard
  beginning-first planned guarded destination policy d hg hs =
      ap (λ o. guarding o true policy d) hg
      ∙ ap (λ settled. and_then d settled placing) hs
      ∙ then_placing destination d

  beginning-marked :
      (planned : Outcome FilePath) (destination : FilePath) (policy : CollisionPolicy) (d : Disk)
      → guard resolve destination completed_dir ≡ returned destination
      → beginning (some destination) planned policy d ≡ placing destination d
  unfolding begun organize_files after_guard settle_on
  beginning-marked planned destination policy d hg =
      ap (λ o. guarding o false policy d) hg ∙ then_placing destination d

  -- A destination beside a guarded one is guarded as it is.
  guard_idem :
      (planned guarded destination : FilePath)
      → guard resolve planned completed_dir ≡ returned guarded
      → destination.folder ≡ guarded.folder
      → guard resolve destination completed_dir ≡ returned destination
  unfolding guard
  guard_idem planned guarded destination hg beside =
      elim (Bool-cases (is_relative_to (resolve planned.folder) (resolve completed_dir))) [
        | inl e ↦
            let at : destination.folder ≡ resolve planned.folder = beside ∙ ground (arith, hg, e) in
            let still : resolve destination.folder ≡ destination.folder =
              ap resolve at ∙ idem planned.folder ∙ sym at in
            let relative : is_relative_to (resolve destination.folder) (resolve completed_dir)
                ≡ true =
              ap (λ folder. is_relative_to folder (resolve completed_dir)) (still ∙ at) ∙ e in
            ground (arith, relative, still)
        | inr e ↦ absurd (ground (arith, hg, e))
      ]

  read_marker-some :
      (destination : FilePath) (d : Disk)
      → each is_plain (destination.folder ++ destination.name ∷ []) ≡ true
      → content (marker_of job_dir) d ≡ some (path_text destination)
      → read_marker job_dir d ≡ some destination
  unfolding read_marker
  read_marker-some destination d plain h =
      ground (arith, h, path_of-universal_newlines destination plain)

  read_marker-none :
      (d d' : Disk)
      → read_marker job_dir d ≡ none
      → content (marker_of job_dir) d' ≡ content (marker_of job_dir) d
      → read_marker job_dir d' ≡ none
  unfolding read_marker
  read_marker-none d d' h same = ground (arith, h, same)

  place-effects :
      (destination : FilePath) (d : Disk)
      → (placing destination d).1
        ≡ write_marker job_dir destination
          ++ (moves normalize resolve one_device job_dir video sidecars completed_dir incomplete_dir
              destination
              (run (write_marker job_dir destination) d)).1
  unfolding place moves and_then
  place-effects destination d = refl

  abbrev apart : FilePath → Bool
  apart = is_apart normalize resolve one_device job_dir video sidecars completed_dir incomplete_dir

  same_folder_off :
      (q path : FilePath) → same_folder path.folder q.folder ≡ false → same_path path q ≡ false
  unfolding same_path
  same_folder_off q path h = ground (arith, h)

  tmp_marker : same_path (marker_tmp job_dir) (marker_of job_dir) ≡ false
  unfolding same_path
  tmp_marker = refl

  module _ (planned guarded destination : FilePath) (policy : CollisionPolicy) (d now : Disk)
      (hg : guard resolve planned completed_dir ≡ returned guarded)
      (hs : settle_on one_device true guarded policy job_dir incomplete_dir d
        ≡ (returned destination, []))
      (safe : (is_replace policy && exists guarded d) ≡ false) where
    beside : destination.folder ≡ guarded.folder
    beside =
        (settling-same one_device guarded destination job_dir incomplete_dir d d refl (λ n. refl)
          policy safe hs).1

    -- The crash came before the marker: the run settles on the same destination again.
    again-before :
        ((q : FilePath)
          → (if same_path (marker_tmp job_dir) q then none else content q now)
            ≡ (if same_path (marker_tmp job_dir) q then none else content q d))
        → read_marker job_dir d ≡ none
        → same_folder job_dir guarded.folder ≡ false
        → beginning (read_marker job_dir now) (returned planned) policy now
          ≡ placing destination now
    again-before same unmarked off =
        ap (λ m. beginning m (returned planned) policy now)
          (read_marker-none d now unmarked (ground (arith, same (marker_of job_dir), tmp_marker)))
        ∙ beginning-first planned guarded destination policy now hg
            (settling-same one_device guarded destination job_dir incomplete_dir d now
              (ground (arith, same guarded, same_folder_off guarded (marker_tmp job_dir) off))
              (λ n. ground (arith, same (numbered guarded n), beyond n)) policy safe hs).0
      where
        beyond : (n : ℕ) → same_path (marker_tmp job_dir) (numbered guarded n) ≡ false
        beyond n = same_folder_off (numbered guarded n) (marker_tmp job_dir) (
            ap (same_folder job_dir) (
              numbered-folder one_device guarded destination job_dir incomplete_dir d d refl
                (λ m. refl) n)
            ∙ off)

    -- The crash came after it: the marker tells the destination.
    again-after :
        content (marker_of job_dir) now ≡ some (path_text destination)
        → each is_plain (destination.folder ++ destination.name ∷ []) ≡ true
        → beginning (read_marker job_dir now) (returned planned) policy now
          ≡ placing destination now
    again-after marked plain =
        ap (λ m. beginning m (returned planned) policy now)
          (read_marker-some destination now plain marked)
        ∙ beginning-marked (returned planned) destination policy now
            (guard_idem planned guarded destination hg beside)

  -- Begun again after a crash at any point, the work ends with the same answer and the same files.
  begun-Again :
      (planned guarded destination : FilePath) (policy : CollisionPolicy) (d : Disk) (k : ℕ)
      → guard resolve planned completed_dir ≡ returned guarded
      → settle_on one_device true guarded policy job_dir incomplete_dir d
        ≡ (returned destination, [])
      → (is_replace policy && exists guarded d) ≡ false
      → read_marker job_dir d ≡ none
      → same_folder job_dir guarded.folder ≡ false
      → each is_plain (destination.folder ++ destination.name ∷ []) ≡ true
      → apart destination ≡ true
      → Again (λ disk. beginning (read_marker job_dir disk) (returned planned) policy disk) d k
  begun-Again planned guarded destination policy d k hg hs safe unmarked off plain separate =
      subst (λ (r : Steps Organized). Repeats running r d (crashed k r.1 d)) (sym first_run)
        (record {
          reply = ap (λ r. r.0) then_run ∙ again.reply;
          disk = λ q. ap (λ r. content q (run r.1 now)) then_run ∙ again.disk q;
        })
    where
      running : Disk → Steps Organized
      running disk = beginning (read_marker job_dir disk) (returned planned) policy disk

      now : Disk
      now = crashed k (placing destination d).1 d

      again : Again (placing destination) d k
      again =
          place-Again normalize resolve one_device job_dir video sidecars completed_dir
            incomplete_dir destination d k separate

      first_run : running d ≡ placing destination d
      first_run =
          ap (λ m. beginning m (returned planned) policy d) unmarked
          ∙ beginning-first planned guarded destination policy d hg hs

      cut : Cut job_dir destination d now
      cut =
          subst (λ effects. Cut job_dir destination d (crashed k effects d))
            (sym (place-effects destination d))
            (Cut-more job_dir destination d k _ (
              all_avoid-moves normalize resolve one_device job_dir video sidecars completed_dir
                incomplete_dir (marker_of job_dir) destination
                (run (write_marker job_dir destination) d) (ground (arith, separate))))

      by_cut : Cut job_dir destination d now → running now ≡ placing destination now
      by_cut (inl before) =
          again-before planned guarded destination policy d now hg hs safe before unmarked off
      by_cut (inr after) =
          again-after planned guarded destination policy d now hg hs safe after plain

      then_run : running now ≡ placing destination now
      then_run = by_cut cut

  -- Run again after a crash at any point, `organize` ends with the same answer and the same files: for
  -- a job without a marker and a destination that is settled without setting files aside or replacing
  -- one, outside of the job's folder, whose path a text file can hold, with paths that differ from one
  -- another and from the marker's.
  pub organize-again :
      (year_of : ℕ → ℕ) (isoformat : ℕ → Text) (media : Option Media) (target : Target)
      → (policy : CollisionPolicy) → (templates : Templates) → (colon : ColonMode)
      → (planned guarded destination : FilePath) → (d : Disk) → (k : ℕ) → (q : FilePath)
      → first_destination normalize resolve one_device job_dir video sidecars completed_dir
          incomplete_dir year_of isoformat media target templates colon
        ≡ returned planned
      → guard resolve planned completed_dir ≡ returned guarded
      → settle_on one_device true guarded (policy_for target policy) job_dir incomplete_dir d
        ≡ (returned destination, [])
      → (is_replace (policy_for target policy) && exists guarded d) ≡ false
      → read_marker job_dir d ≡ none
      → same_folder job_dir guarded.folder ≡ false
      → each is_plain (destination.folder ++ destination.name ∷ []) ≡ true
      → apart destination ≡ true
      → let run_now : Disk → Steps Organized =
          organize normalize resolve one_device job_dir video sidecars completed_dir incomplete_dir
            year_of isoformat media target policy templates colon in
        let now : Disk = crashed k (run_now d).1 d in
        ((run_now now).0 ≡ (run_now d).0)
        × (content q (run (run_now now).1 now) ≡ content q (run (run_now d).1 d))
  unfolding organize
  organize-again year_of isoformat media target policy templates colon planned guarded destination d
        k q hp hg hs safe unmarked off plain separate =
      subst
        (λ (f : Disk → Steps Organized).
          ((f (crashed k (f d).1 d)).0 ≡ (f d).0)
          × (content q (run (f (crashed k (f d).1 d)).1 (crashed k (f d).1 d))
              ≡ content q (run (f d).1 d)))
        (sym same) (x.reply, x.disk q)
    where
      x :
          Again
            (λ disk.
              beginning
                (read_marker job_dir disk)
                (returned planned)
                (policy_for target policy)
                disk)
            d
            k
      x =
          begun-Again planned guarded destination (policy_for target policy) d k hg hs safe unmarked
            off plain separate

      same :
          organize normalize resolve one_device job_dir video sidecars completed_dir incomplete_dir
            year_of isoformat media target policy templates colon
          ≡ (λ (disk : Disk).
              beginning
                (read_marker job_dir disk)
                (returned planned)
                (policy_for target policy)
                disk)
      same =
          ap
            (λ o. λ (disk : Disk).
              beginning (read_marker job_dir disk) o (policy_for target policy) disk)
            hp
