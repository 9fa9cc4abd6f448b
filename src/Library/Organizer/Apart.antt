-- ===== src/Library/Organizer/Apart.antt =====
-- What the moves of backend/app/library/organizer.py leave alone.
use fetcharr.Base.{
  ◌≡◌, refl, Bool, true, false, not, ◌&&◌, Option, none, some, List, [], ◌∷◌, ◌++◌, map, Text,
  arith,
}
use fetcharr.Library.Disk.{
  FilePath, Content, Disk, same_path, content, without, Effect, unlinked, renamed, wrote, apply,
  run,
}
use fetcharr.Library.Disk.Laws.{avoids, all_avoid}
use fetcharr.Library.Organizer.{
  returned, raised, Steps, and_then, partial_of, copy, moved, move_from, move, push, move_all,
}

pub all_avoid-append :
    (q : FilePath) (xs ys : List Effect)
    → all_avoid q xs ≡ true
    → all_avoid q ys ≡ true
    → all_avoid q (xs ++ ys) ≡ true
all_avoid-append q [] ys hx hy = hy
all_avoid-append q (e ∷ xs) ys hx hy = ground (arith, all_avoid-append q xs ys)

all_avoid-wrote :
    (q p : FilePath) (c : Content) → same_path p q ≡ false → all_avoid q (map (wrote p) c) ≡ true
unfolding avoids
all_avoid-wrote q p [] h = refl
all_avoid-wrote q p (byte ∷ c) h = ground (arith, all_avoid-wrote q p c h)

pub all_avoid-copy :
    (q p : FilePath) (c : Content) → same_path p q ≡ false → all_avoid q (copy c p) ≡ true
unfolding copy avoids
all_avoid-copy q p c h = ground (arith, all_avoid-wrote q p c h)

-- A path that a move has nothing to do with.
abbrev pub is_off : FilePath → FilePath → FilePath → Bool
is_off q s t = not (same_path s q) && (not (same_path t q) && not (same_path (partial_of t) q))

abbrev pub is_clear : FilePath → List (FilePath × FilePath) → Bool
is_clear q [] = true
is_clear q ((s, t) ∷ rest) = is_off q s t && is_clear q rest

-- The paths of some moves are all different, the partial files' as well.
abbrev pub is_separate : List (FilePath × FilePath) → Bool
is_separate [] = true
is_separate ((s, t) ∷ rest) =
    (not (same_path s t) && (not (same_path (partial_of t) s) && not (same_path (partial_of t) t)))
    && ((is_clear s rest && (is_clear t rest && is_clear (partial_of t) rest)) && is_separate rest)

module _ (one_device : List Text → List Text → Bool) where
  all_avoid-moved :
      (q s t : FilePath) (c : Content)
      → is_off q s t ≡ true
      → all_avoid q (moved one_device s t c) ≡ true
  unfolding moved avoids
  all_avoid-moved q s t c h = ground (
    arith,
    all_avoid-copy q (partial_of t) c,
    all_avoid-append q (copy c (partial_of t)) (renamed (partial_of t) t ∷ unlinked s ∷ []),
  )

  all_avoid-move_from :
      (q s t : FilePath) (source old : Option Content)
      → is_off q s t ≡ true
      → all_avoid q (move_from one_device s t source old).1 ≡ true
  unfolding move_from avoids
  all_avoid-move_from q s t none none h = refl
  all_avoid-move_from q s t none (some old) h = refl
  all_avoid-move_from q s t (some c) none h = all_avoid-moved q s t c h
  all_avoid-move_from q s t (some c) (some old) h = ground (arith, all_avoid-moved q s t c h)

  all_avoid-move :
      (q s t : FilePath) (d : Disk)
      → is_off q s t ≡ true
      → all_avoid q (move one_device s t d).1 ≡ true
  unfolding move and_then run apply avoids
  all_avoid-move q s t d h = ground (
    arith,
    all_avoid-move_from q s t (content s (without (partial_of t) d))
        (content t (without (partial_of t) d)) h,
  )

  pub all_avoid-push :
      (q path : FilePath) (steps : Steps (List FilePath))
      → all_avoid q steps.1 ≡ true
      → all_avoid q (push one_device path steps).1 ≡ true
  unfolding push
  all_avoid-push q path (raised e, effects) h = h
  all_avoid-push q path (returned paths, effects) h = h

  all_avoid-then :
      {A B : Type 0} (q : FilePath) (d : Disk) (first : Steps A) (next : A → Disk → Steps B)
      → all_avoid q first.1 ≡ true
      → ((a : A) → (e : Disk) → all_avoid q (next a e).1 ≡ true)
      → all_avoid q (and_then d first next).1 ≡ true
  unfolding and_then
  all_avoid-then q d (raised e, effects) next h hs = h
  all_avoid-then q d (returned a, effects) next h hs =
      all_avoid-append q effects (next a (run effects d)).1 h (hs a (run effects d))

  -- Moves leave alone what they have nothing to do with.
  pub all_avoid-move_all :
      (q : FilePath) (pairs : List (FilePath × FilePath)) (d : Disk)
      → is_clear q pairs ≡ true
      → all_avoid q (move_all one_device pairs d).1 ≡ true
  unfolding move_all
  all_avoid-move_all q [] d h = refl
  all_avoid-move_all q ((s, t) ∷ rest) d h =
      all_avoid-then q d (move one_device s t d) _ (all_avoid-move q s t d (ground (arith, h)))
        (λ path e.
          all_avoid-push q path (move_all one_device rest e)
            (all_avoid-move_all q rest e (ground (arith, h))))
