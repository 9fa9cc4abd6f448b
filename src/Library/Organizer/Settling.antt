-- ===== src/Library/Organizer/Settling.antt =====
-- The destination that a second run settles on: backend/app/library/organizer.py, `_resolve_collision`.
use fetcharr.Base.{
  ℕ, suc, ◌≡◌, refl, sym, ap, ◌∙◌, Bool, true, false, ◌&&◌, inl, inr, some, List, [], length, Text,
  arith, Bool-cases,
}
use fetcharr.Jobs.Rows.{CollisionPolicy, ask, replace, keep_both}
use fetcharr.Library.Disk.{FilePath, Disk, content, exists, Effect}
use fetcharr.Library.Organizer.{returned, Steps}
use fetcharr.Library.Organizer.Place.{numbered, free_number, resolve_collision, settle_on}
use fetcharr.Library.Organizer.Collision.{free_number-Found, free_number_unique}

abbrev pub is_replace : CollisionPolicy → Bool
is_replace replace = true
is_replace _ = false

-- `settle_on` on a disk where the numbered files, and the one it is for, are as they were.
module _ (one_device : List Text → List Text → Bool) (guarded destination : FilePath)
    (job_dir incomplete_dir : List Text) (d d' : Disk)
    (same : content guarded d' ≡ content guarded d)
    (numbers : (n : ℕ) → content (numbered guarded n) d ≡ content (numbered guarded n) d') where
  abbrev pub settling : CollisionPolicy → Disk → Steps FilePath
  settling policy disk = settle_on one_device true guarded policy job_dir incomplete_dir disk

  settling-found :
      (disk : Disk) (n : ℕ)
      → exists guarded disk ≡ true
      → free_number (suc (length disk)) guarded 1 disk ≡ some n
      → settling keep_both disk ≡ (returned (numbered guarded n), [])
  unfolding settle_on resolve_collision
  settling-found disk n h found = ground (arith, h, found)

  settling-free :
      (policy : CollisionPolicy) (disk : Disk)
      → exists guarded disk ≡ false
      → settling policy disk ≡ (returned guarded, [])
  unfolding settle_on
  settling-free policy disk h = ground (arith, h)

  returned-injective :
      (p q : FilePath) (xs ys : List Effect)
      → ◌≡◌ {A = Steps FilePath} (returned p, xs) (returned q, ys)
      → p ≡ q
  returned-injective p q xs ys h = ground (arith, h)

  pub numbered-folder : (n : ℕ) → (numbered guarded n).folder ≡ guarded.folder
  unfolding numbered
  numbered-folder n = refl

  settling-keep_both :
      (n n' : ℕ)
      → exists guarded d ≡ true
      → free_number (suc (length d)) guarded 1 d ≡ some n
      → free_number (suc (length d')) guarded 1 d' ≡ some n'
      → settling keep_both d ≡ (returned destination, [])
      → (settling keep_both d' ≡ (returned destination, [])) × (destination.folder ≡ guarded.folder)
  settling-keep_both n n' there found found' h =
      let at : numbered guarded n ≡ destination =
        returned-injective _ _ [] [] (sym (settling-found d n there found) ∙ h) in
      let one : n ≡ n' =
        free_number_unique (suc (length d)) (suc (length d')) guarded 1 n n' d d' numbers found
          found' in
      (
        settling-found d' n' (ground (arith, there, same)) found'
            ∙ ap (λ m. (returned (numbered guarded m), [])) (sym one)
            ∙ ap (λ path. (returned path, [])) at,
        ap (λ path. path.folder) (sym at) ∙ numbered-folder n,
      )

  settling-there :
      (policy : CollisionPolicy)
      → exists guarded d ≡ true
      → (is_replace policy && exists guarded d) ≡ false
      → settling policy d ≡ (returned destination, [])
      → (settling policy d' ≡ (returned destination, [])) × (destination.folder ≡ guarded.folder)
  unfolding settle_on resolve_collision
  settling-there ask there safe h = absurd (ground (arith, h, there))
  settling-there replace there safe h = absurd (ground (arith, there, safe))
  settling-there keep_both there safe h =
      let (n, le, found, free) = free_number-Found (suc (length d)) guarded 1 d (omega arith) in
      let (n', le', found', free') =
        free_number-Found (suc (length d')) guarded 1 d' (omega arith) in
      settling-keep_both n n' there found found' h

  pub settling-same :
      (policy : CollisionPolicy)
      → (is_replace policy && exists guarded d) ≡ false
      → settling policy d ≡ (returned destination, [])
      → (settling policy d' ≡ (returned destination, [])) × (destination.folder ≡ guarded.folder)
  settling-same policy safe h = elim (Bool-cases (exists guarded d)) [
    | inl there ↦ settling-there policy there safe h
    | inr free ↦
        let at : guarded ≡ destination =
          returned-injective _ _ [] [] (sym (settling-free policy d free) ∙ h) in
        (
          settling-free policy d' (ground (arith, free, same))
              ∙ ap (λ path. (returned path, [])) at,
          ap (λ path. path.folder) (sym at),
        )
  ]
