-- ===== src/Library/Organizer/Cut.antt =====
-- Where a crash cuts off `_organize_files` of backend/app/library/organizer.py.
use mathlib.Core.Path.{subst}
use fetcharr.Base.{
  ℕ, zero, suc, ◌≡◌, refl, sym, ◌∙◌, true, ◌⊎◌, inl, inr, none, some, List, [], ◌∷◌, ◌++◌, take,
  Text, arith, if◌then◌else◌, Bool-cases,
}
use fetcharr.Library.Disk.{
  FilePath, Disk, same_path, content, Effect, renamed, apply, run, crashed, path_text,
}
use fetcharr.Library.Disk.Laws.{
  same_path_iff, content-renamed, run-append, all_avoid, content-crashed,
}
use fetcharr.Library.Disk.Again.{take-append}
use fetcharr.Library.Organizer.{copy}
use fetcharr.Library.Organizer.Place.{marker_of, marker_tmp, write_marker}
use fetcharr.Library.Organizer.Resume.{content-write_marker, content-copy}
use fetcharr.Library.Organizer.Apart.{all_avoid-copy}

-- Where a crash cuts off what begins with the marker: before the marker has changed, or after it has.
module _ (job_dir : List Text) (destination : FilePath) where
  abbrev pub Cut : Disk → Disk → Type 0
  Cut d now =
      ((q : FilePath)
        → (if same_path (marker_tmp job_dir) q then none else content q now)
          ≡ (if same_path (marker_tmp job_dir) q then none else content q d))
      ⊎ (content (marker_of job_dir) now ≡ some (path_text destination))

  copying : List Effect
  copying = copy (path_text destination) (marker_tmp job_dir)

  Cut-copying : (d : Disk) (k : ℕ) → Cut d (crashed k copying d)
  unfolding copying
  Cut-copying d k = inl (λ q. elim (Bool-cases (same_path (marker_tmp job_dir) q)) [
    | inl e ↦ rw e refl
    | inr e ↦
        rw e (
          content-crashed q k _ d (all_avoid-copy q (marker_tmp job_dir) (path_text destination) e))
  ])

  renaming :
      (d : Disk)
      → content
          (marker_of job_dir)
          (apply (renamed (marker_tmp job_dir) (marker_of job_dir)) (run copying d))
        ≡ some (path_text destination)
  unfolding copying
  renaming d = ground (
    arith,
    content-renamed (marker_of job_dir) (marker_tmp job_dir) (marker_of job_dir)
        (path_text destination) (run copying d) copied,
    same_path_iff (marker_of job_dir) (marker_of job_dir),
  )
    where
      copied : content (marker_tmp job_dir) (run copying d) ≡ some (path_text destination)
      copied = ground (
        arith,
        content-copy (marker_tmp job_dir) (marker_tmp job_dir) (path_text destination) d,
        same_path_iff (marker_tmp job_dir) (marker_tmp job_dir),
      )

  Cut-copied :
      (d : Disk) (j : ℕ)
      → Cut d (crashed j (renamed (marker_tmp job_dir) (marker_of job_dir) ∷ []) (run copying d))
  unfolding copying crashed run
  Cut-copied d zero =
      inl (λ q. ground (arith, content-copy q (marker_tmp job_dir) (path_text destination) d))
  Cut-copied d (suc zero) = inr (renaming d)
  Cut-copied d (suc (suc j)) = inr (renaming d)

  Cut-write_marker : (d : Disk) (k : ℕ) → Cut d (crashed k (write_marker job_dir destination) d)
  unfolding write_marker copying crashed
  Cut-write_marker d k =
      elim (take-append k copying (renamed (marker_tmp job_dir) (marker_of job_dir) ∷ [])) [
        | inl cut ↦ subst (λ l. Cut d (run l d)) (sym cut) (Cut-copying d k)
        | inr (j, cut) ↦
            subst (λ l. Cut d (run l d)) (sym cut)
              (subst (Cut d)
                (sym (
                  run-append copying
                    (take j (renamed (marker_tmp job_dir) (marker_of job_dir) ∷ [])) d))
                (Cut-copied d j))
      ]

  pub Cut-more :
      (d : Disk) (k : ℕ) (more : List Effect)
      → all_avoid (marker_of job_dir) more ≡ true
      → Cut d (crashed k (write_marker job_dir destination ++ more) d)
  unfolding crashed
  Cut-more d k more avoiding = elim (take-append k (write_marker job_dir destination) more) [
    | inl cut ↦ subst (λ l. Cut d (run l d)) (sym cut) (Cut-write_marker d k)
    | inr (j, cut) ↦
        subst (λ l. Cut d (run l d)) (sym cut)
          (subst (Cut d) (sym (run-append (write_marker job_dir destination) (take j more) d)) (
            inr (
              content-crashed (marker_of job_dir) j more (run (write_marker job_dir destination) d)
                avoiding
              ∙ content-write_marker job_dir (marker_of job_dir) destination d
              ∙ ground (arith, same_path_iff (marker_of job_dir) (marker_of job_dir)))))
  ]
