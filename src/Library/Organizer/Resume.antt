-- ===== src/Library/Organizer/Resume.antt =====
-- `_organize_files` of backend/app/library/organizer.py from its marker on, begun again after a crash.
use mathlib.Core.Path.{subst}
use fetcharr.Base.{
  ℕ, ◌≡◌, refl, sym, ap, ◌∙◌, Bool, true, not, ◌&&◌, Option, none, some, List, [], ◌∷◌, ◌++◌, each,
  map, take, length, Text, arith, if◌then◌else◌, append_nil, append_assoc, Bool-cases, inl, inr,
}
use fetcharr.Library.Disk.{
  FilePath, Content, Disk, same_path, content, Effect, renamed, opened, wrote, apply, run, crashed,
  path_text,
}
use fetcharr.Library.Disk.Laws.{
  same_path_iff, content-save, content-wrote, content-renamed, run-append, avoids, all_avoid,
  content-crashed,
}
use fetcharr.Library.Disk.Paths.{is_plain, path_of-universal_newlines}
use fetcharr.Library.Disk.Again.{Same-run}
use fetcharr.Library.Organizer.{Outcome, returned, raised, Steps, copy, move_all}
use fetcharr.Library.Organizer.Place.{marker_of, marker_tmp, read_marker, write_marker}
use fetcharr.Library.Organizer.Files.{Sidecar, Organized, files_of, size_of, organized, place}
use fetcharr.Library.Organizer.Again.{Repeats, Again, Respects, Idle, Again-then}
use fetcharr.Library.Organizer.Apart.{
  is_clear, is_separate, all_avoid-append, all_avoid-copy, all_avoid-move_all,
}
use fetcharr.Library.Organizer.Sequence.{move_all-Again, move_all-Respects}

content-wrote_all :
    (q p : FilePath) (left so_far : Content) (d : Disk)
    → content p d ≡ some so_far
    → content q (run (map (wrote p) left) d)
      ≡ (if same_path p q then some (so_far ++ left) else content q d)
unfolding run
content-wrote_all q p [] so_far d h = ground (arith, h, same_path_iff p q, append_nil so_far)
content-wrote_all q p (byte ∷ left) so_far d h = ground (
  arith,
  content-wrote_all q p left (so_far ++ byte ∷ []) (apply (wrote p byte) d),
  content-wrote q p byte so_far d h,
  content-wrote p p byte so_far d h,
  same_path_iff p p,
  append_assoc so_far (byte ∷ []) left,
)

pub content-copy :
    (q p : FilePath) (c : Content) (d : Disk)
    → content q (run (copy c p) d) ≡ (if same_path p q then some c else content q d)
unfolding run copy apply
content-copy q p c d =
    ground (arith, content-wrote_all q p c [] (apply (opened p) d) opening, content-save q p [] d)
  where
    opening : content p (apply (opened p) d) ≡ some []
    opening = ground (arith, content-save p p [] d, same_path_iff p p)

module _ (job_dir : List Text) where
  abbrev marker : FilePath
  marker = marker_of job_dir

  abbrev tmp : FilePath
  tmp = marker_tmp job_dir

  pub content-write_marker :
      (q destination : FilePath) (d : Disk)
      → content q (run (write_marker job_dir destination) d) ≡ (
          if same_path marker q
          then some (path_text destination)
          else if same_path tmp q
          then none
          else content q d)
  unfolding write_marker run
  content-write_marker q destination d = ground (
    arith,
    run-append (copy (path_text destination) tmp) (renamed tmp marker ∷ []) d,
    content-renamed q tmp marker (path_text destination) (run (copy (path_text destination) tmp) d)
        copied,
    content-copy q tmp (path_text destination) d,
  )
    where
      copied : content tmp (run (copy (path_text destination) tmp) d) ≡ some (path_text destination)
      copied = ground (arith, content-copy tmp tmp (path_text destination) d, same_path_iff tmp tmp)

  -- The marker that is written is read as the destination it was written for, where each part of the
  -- destination's path is one that a text file can hold: without a separator, a carriage return or a
  -- surrogate, and none that pathlib leaves out.
  pub read_marker-write_marker :
      (destination : FilePath) (d : Disk)
      → each is_plain (destination.folder ++ destination.name ∷ []) ≡ true
      → read_marker job_dir (run (write_marker job_dir destination) d) ≡ some destination
  unfolding read_marker
  read_marker-write_marker destination d plain = ground (
    arith,
    content-write_marker marker destination d,
    same_path_iff marker marker,
    path_of-universal_newlines destination plain,
  )

  -- A path that writing the marker has nothing to do with.
  abbrev pub off_marker : FilePath → Bool
  off_marker q = not (same_path marker q) && not (same_path tmp q)

  pub all_avoid-write_marker :
      (q destination : FilePath)
      → off_marker q ≡ true
      → all_avoid q (write_marker job_dir destination) ≡ true
  unfolding write_marker avoids
  all_avoid-write_marker q destination h =
      all_avoid-append q (copy (path_text destination) tmp) (renamed tmp marker ∷ [])
        (all_avoid-copy q tmp (path_text destination) (ground (arith, h))) (ground (arith, h))

  first : FilePath → Disk → Steps FilePath
  first destination d = (returned destination, write_marker job_dir destination)

  first-Again : (destination : FilePath) (d : Disk) (k : ℕ) → Again (first destination) d k
  unfolding first
  first-Again destination d k =
      let now : Disk = crashed k (write_marker job_dir destination) d in
      record {
        reply = refl;
        disk = λ q. ground (
          arith,
          content-write_marker q destination now,
          content-write_marker q destination d,
          same q,
        );
      }
    where
      same :
          (q : FilePath)
          → (if off_marker q
              then content q (crashed k (write_marker job_dir destination) d)
              else none)
            ≡ (if off_marker q then content q d else none)
      same q = elim (Bool-cases (off_marker q)) [
        | inl e ↦ rw e (content-crashed q k _ d (all_avoid-write_marker q destination e))
        | inr e ↦ rw e refl
      ]

  first-Idle :
      (destination : FilePath) (d : Disk) (effects : List Effect) (j : ℕ)
      → all_avoid marker effects ≡ true
      → all_avoid tmp effects ≡ true
      → Idle
          (first destination)
          destination
          (crashed j effects (run (write_marker job_dir destination) d))
  unfolding first
  first-Idle destination d effects j hm ht =
      let d1 : Disk = run (write_marker job_dir destination) d in
      let now : Disk = crashed j effects d1 in
      (
        refl,
        λ q. ground (
          arith,
          content-write_marker q destination now,
          content-crashed marker j effects d1 hm,
          content-crashed tmp j effects d1 ht,
          content-write_marker marker destination d,
          content-write_marker tmp destination d,
          same_path_iff marker q,
          same_path_iff tmp q,
          same_path_iff marker marker,
          same_path_iff tmp tmp,
          same_path_iff marker tmp,
        ),
      )

module _ (normalize : Text → Text) (resolve : List Text → List Text)
    (one_device : List Text → List Text → Bool) (job_dir : List Text) (video : FilePath)
    (sidecars : List Sidecar) (completed_dir incomplete_dir : List Text) where
  abbrev pub files : FilePath → List (FilePath × FilePath)
  files destination = files_of normalize sidecars video destination

  abbrev pub placing : FilePath → Disk → Steps Organized
  placing = place normalize resolve one_device job_dir video sidecars completed_dir incomplete_dir

  abbrev pub finishing : FilePath → Disk → Steps (List FilePath) → Steps Organized
  finishing =
      organized normalize resolve one_device job_dir video sidecars completed_dir incomplete_dir

  -- All paths of the moves are different from one another and from the marker's.
  abbrev pub is_apart : FilePath → Bool
  is_apart destination =
      is_separate (files destination)
      && (is_clear (marker_of job_dir) (files destination)
          && is_clear (marker_tmp job_dir) (files destination))

  report : FilePath → Outcome (List FilePath) → Option Content → Outcome Organized
  report destination (raised error) c = raised error
  report destination (returned paths) c = returned (record {
    video = destination;
    sidecars = take (length sidecars) paths;
    size =
        size_of normalize resolve one_device job_dir video sidecars completed_dir incomplete_dir c;
  })

  finishing-parts :
      (destination : FilePath) (d : Disk) (x : Steps (List FilePath))
      → finishing destination d x ≡ (report destination x.0 (content destination (run x.1 d)), x.1)
  unfolding organized report
  finishing-parts destination d (raised error, effects) = refl
  finishing-parts destination d (returned paths, effects) = refl

  unfoldable pub moves : FilePath → Disk → Steps Organized
  moves destination d = finishing destination d (move_all one_device (files destination) d)

  moves-Respects : (destination : FilePath) → Respects (moves destination)
  unfolding moves
  moves-Respects destination d d' same =
      let x = move_all one_device (files destination) d in
      finishing-parts destination d x
      ∙ ap (λ c. (report destination x.0 c, x.1)) (Same-run x.1 d d' same destination)
      ∙ sym (finishing-parts destination d' x)
      ∙ ap (finishing destination d') (move_all-Respects one_device (files destination) d d' same)

  moves-Again :
      (destination : FilePath) (d : Disk) (k : ℕ)
      → is_separate (files destination) ≡ true
      → Again (moves destination) d k
  unfolding moves
  moves-Again destination d k separate =
      let x = move_all one_device (files destination) d in
      let y = move_all-Again one_device (files destination) d k separate in
      let now : Disk = crashed k x.1 d in
      let x' = move_all one_device (files destination) now in
      subst (λ r. Repeats (moves destination) r d (crashed k r.1 d))
        (sym (finishing-parts destination d x))
        (record {
          reply =
              ap (λ r. r.0) (finishing-parts destination now x')
              ∙ ap (λ o. report destination o (content destination (run x'.1 now))) y.reply
              ∙ ap (report destination x.0) (y.disk destination);
          disk = λ q.
              ap (λ r. content q (run r.1 now)) (finishing-parts destination now x') ∙ y.disk q;
        })

  pub all_avoid-moves :
      (q destination : FilePath) (d : Disk)
      → is_clear q (files destination) ≡ true
      → all_avoid q (moves destination d).1 ≡ true
  unfolding moves
  all_avoid-moves q destination d clear =
      let x = move_all one_device (files destination) d in
      subst (λ effects. all_avoid q effects ≡ true)
        (ap (λ r. r.1) (sym (finishing-parts destination d x)))
        (all_avoid-move_all one_device q (files destination) d clear)

  -- From the marker on, what a crash cut off ends as if there had been no crash.
  pub place-Again :
      (destination : FilePath) (d : Disk) (k : ℕ)
      → is_apart destination ≡ true
      → Again (placing destination) d k
  unfolding place first moves
  place-Again destination d k apart =
      Again-then (λ _. moves destination) (first job_dir destination) d k
        (first-Again job_dir destination d) (λ _. moves-Respects destination)
        (λ _ j returns. moves-Again destination _ j (ground (arith, apart)))
        (λ a j returns. (
          returns,
          (first-Idle job_dir destination d
              (moves destination (run (write_marker job_dir destination) d)).1 j
              (all_avoid-moves (marker_of job_dir) destination _ (ground (arith, apart)))
              (all_avoid-moves (marker_tmp job_dir) destination _ (ground (arith, apart)))).1,
        ))
