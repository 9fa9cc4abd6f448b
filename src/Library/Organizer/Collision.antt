-- ===== src/Library/Organizer/Collision.antt =====
-- Keeping both files: the loop for a free number of backend/app/library/organizer.py,
-- `_resolve_collision`, finds one.
use mathlib.Core.List.{append_cancel_left, append_cancel_right}
use fetcharr.Base.{
  ℕ, zero, suc, ◌<◌, ◌≤◌, ◌≡◌, refl, sym, ◌∙◌, ap, Bool, none, some, List, [], ◌++◌, length, arith,
  Text, codes, digits, digits-injective, Option-cases, inl, inr,
}
use fetcharr.Jobs.Rows.{keep_both}
use fetcharr.Library.Naming.{stem, suffix}
use fetcharr.Library.Disk.{FilePath, Content, Disk, content, without}
use fetcharr.Library.Disk.Laws.{same_path_iff, content-without, length-without}
use fetcharr.Library.Organizer.{returned}
use fetcharr.Library.Organizer.Place.{numbered, free_number, resolve_collision}

numbered-injective : (place : FilePath) (a b : ℕ) → numbered place a ≡ numbered place b → a ≡ b
unfolding numbered
numbered-injective place a b h =
    let front = stem place.name ++ codes " (" in
    digits-injective a b (
      append_cancel_left front (digits a) (digits b) (
        append_cancel_right (front ++ digits a) (front ++ digits b) (codes ")") (
          append_cancel_right (front ++ digits a ++ codes ")") (front ++ digits b ++ codes ")")
            (suffix place.name) (ap (λ path. path.name) h))))

-- The search looks at the numbers from its first one on.
free_number-same :
    (fuel : ℕ) (place : FilePath) (number : ℕ) (d d' : Disk)
    → ((n : ℕ) → number ≤ n → content (numbered place n) d ≡ content (numbered place n) d')
    → free_number fuel place number d ≡ free_number fuel place number d'
unfolding free_number
free_number-same zero place number d d' h = refl
free_number-same (suc fuel) place number d d' h =
    rw
      (
        h number (omega arith),
        free_number-same fuel place (suc number) d d' (λ n le. h n (omega arith)),
      )
      refl

-- The search from a number on answers with a free one.
abbrev pub Found : ℕ → FilePath → ℕ → Disk → Type 0
Found fuel place number d =
    (n : ℕ) × (number ≤ n)
    × (free_number fuel place number d ≡ some n)
    × (content (numbered place n) d ≡ none)

pub free_number-Found :
    (fuel : ℕ) (place : FilePath) (number : ℕ) (d : Disk)
    → length d < fuel
    → Found fuel place number d
free_number-Found zero place number d h = absurd (omega arith)
free_number-Found (suc fuel) place number d h =
    elim (Option-cases (content (numbered place number) d)) [
      | inl e ↦ (number, omega arith, unfold free_number in rw e refl, e)
      | inr (c, e) ↦ found_later c e (
          free_number-Found fuel place (suc number) d'
            (omega (arith, h, length-without (numbered place number) c d e)))
    ]
  where
    d' : Disk
    d' = without (numbered place number) d

    same : (n : ℕ) → suc number ≤ n → content (numbered place n) d' ≡ content (numbered place n) d
    same n le = ground (
      arith,
      content-without (numbered place n) (numbered place number) d,
      same_path_iff (numbered place number) (numbered place n),
      numbered-injective place number n,
    )

    found_later :
        (c : Content)
        → content (numbered place number) d ≡ some c
        → Found fuel place (suc number) d'
        → Found (suc fuel) place number d
    found_later c e (n, le, found, free) = (
      n,
      omega (arith, le),
      unfold free_number in rw e (sym (free_number-same fuel place (suc number) d' d same) ∙ found),
      sym (same n le) ∙ free,
    )

-- Keeping both never ends in a name that is taken, and changes nothing on the disk.
pub resolve_collision-keep_both :
    (one_device : List Text → List Text → Bool)
    → (destination : FilePath) → (job_dir incomplete_dir : List Text) → (disk : Disk)
    → (n : ℕ) × (resolve_collision one_device destination keep_both job_dir incomplete_dir disk
        ≡ (returned (numbered destination n), []))
      × (content (numbered destination n) disk ≡ none)
unfolding resolve_collision
resolve_collision-keep_both one_device destination job_dir incomplete_dir disk =
    answer (free_number-Found (suc (length disk)) destination 1 disk (omega arith))
  where
    answer :
        Found (suc (length disk)) destination 1 disk
        → (n : ℕ) × (resolve_collision one_device destination keep_both job_dir incomplete_dir disk
            ≡ (returned (numbered destination n), []))
          × (content (numbered destination n) disk ≡ none)
    answer (n, le, found, free) = (n, ground (arith, found), free)

-- The search answers with the same number on disks that have the same of the numbered files.
pub free_number_unique :
    (fuel fuel' : ℕ) (place : FilePath) (number n n' : ℕ) (d d' : Disk)
    → ((m : ℕ) → content (numbered place m) d ≡ content (numbered place m) d')
    → free_number fuel place number d ≡ some n
    → free_number fuel' place number d' ≡ some n'
    → n ≡ n'
unfolding free_number
free_number_unique zero fuel' place number n n' d d' same h h' = absurd (ground (arith, h))
free_number_unique (suc fuel) zero place number n n' d d' same h h' = absurd (ground (arith, h'))
free_number_unique (suc fuel) (suc fuel') place number n n' d d' same h h' =
    ground
      (arith, h, h', same number, free_number_unique fuel fuel' place (suc number) n n' d d' same)
