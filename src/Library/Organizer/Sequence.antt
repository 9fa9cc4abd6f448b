-- ===== src/Library/Organizer/Sequence.antt =====
-- The moves of backend/app/library/organizer.py, `_organize_files`, in sequence, begun again after a crash.
use mathlib.Core.Path.{subst}
use fetcharr.Base.{
  ℕ, ◌==◌, ◌≡◌, refl, sym, ap, ◌∙◌, Bool, true, false, Option, none, some, List, [], ◌∷◌, length,
  Text, arith, Bool-cases, inl, inr,
}
use fetcharr.Library.Disk.{
  FilePath, Content, Disk, same_path, content, without, Effect, unlinked, apply, run, crashed,
}
use fetcharr.Library.Disk.Laws.{same_path_iff, all_avoid, content-crashed}
use fetcharr.Library.Disk.Again.{Same-without}
use fetcharr.Library.Organizer.{
  Outcome, returned, raised, Steps, and_then, partial_of, move_from, move, push, move_all,
}
use fetcharr.Library.Organizer.Move.{landed, final}
use fetcharr.Library.Organizer.Moves.{move-final, move-reply, reply, move-again}
use fetcharr.Library.Organizer.Again.{Repeats, Again, Respects, Idle, Again-then, Respects-then}
use fetcharr.Library.Organizer.Apart.{is_clear, is_separate, all_avoid-push, all_avoid-move_all}

module _ (one_device : List Text → List Text → Bool) where
  move_steps : FilePath → FilePath → Option Content → Option Content → Steps FilePath
  move_steps s t source old =
      let rest = move_from one_device s t source old in (rest.0, unlinked (partial_of t) ∷ rest.1)

  move-steps :
      (s t : FilePath) (d : Disk)
      → move one_device s t d
        ≡ move_steps s t
            (content s (without (partial_of t) d))
            (content t (without (partial_of t) d))
  unfolding move and_then run apply move_steps
  move-steps s t d = refl

  move-Respects : (s t : FilePath) → Respects (move one_device s t)
  move-Respects s t d d' same =
      let clear = Same-without (partial_of t) d d' same in
      move-steps s t d
      ∙ ap (λ x. move_steps s t x (content t (without (partial_of t) d))) (clear s)
      ∙ ap (λ x. move_steps s t (content s (without (partial_of t) d')) x) (clear t)
      ∙ sym (move-steps s t d')

  module _ (s t : FilePath) (rest : List (FilePath × FilePath))
      (separate : is_separate ((s, t) ∷ rest) ≡ true) where
    st : same_path s t ≡ false
    st = ground (arith, separate)

    ps : same_path (partial_of t) s ≡ false
    ps = ground (arith, separate)

    pt : same_path (partial_of t) t ≡ false
    pt = ground (arith, separate)

    move-Again : (d : Disk) (k : ℕ) → Again (move one_device s t) d k
    move-Again d k = record {
      reply = (move-again one_device s t st ps pt k d t).0;
      disk = λ q. (move-again one_device s t st ps pt k d q).1;
    }

    reply-returned :
        (source old : Option Content) (a : FilePath)
        → reply one_device s t st ps pt source old ≡ returned a
        → (a ≡ t) × ((c : Content) × (landed source old ≡ some c))
    unfolding reply landed
    reply-returned none none a h = absurd (ground (arith, h))
    reply-returned none (some o) a h = (ground (arith, h), (o, refl))
    reply-returned (some c) none a h = (ground (arith, h), (c, refl))
    reply-returned (some c) (some o) a h = elim (Bool-cases (length o == length c)) [
      | inl e ↦ (ground (arith, h), (o, rw e refl))
      | inr e ↦ (ground (arith, h), (c, rw e refl))
    ]

    -- A move that has ended has nothing left to do, whatever happens to other files.
    move-Idle :
        (d : Disk) (a : FilePath) (effects : List Effect) (j : ℕ)
        → (move one_device s t d).0 ≡ returned a
        → all_avoid s effects ≡ true
        → all_avoid t effects ≡ true
        → all_avoid (partial_of t) effects ≡ true
        → Idle (move one_device s t) a (crashed j effects (run (move one_device s t d).1 d))
    unfolding final landed reply
    move-Idle d a effects j h hs ht hp =
        let d1 : Disk = run (move one_device s t d).1 d in
        let d' : Disk = crashed j effects d1 in
        let (at_t, (c, lands)) =
          reply-returned (content s d) (content t d) a
            (sym (move-reply one_device s t st ps pt d) ∙ h) in
        let source : content s d' ≡ none =
          content-crashed s j effects d1 hs
          ∙ move-final one_device s t st ps pt s d
          ∙ ground (arith, ps, same_path_iff s s) in
        let old : content t d' ≡ some c =
          content-crashed t j effects d1 ht
          ∙ move-final one_device s t st ps pt t d
          ∙ ground (arith, pt, st, same_path_iff t t, lands) in
        let partial : content (partial_of t) d' ≡ none =
          content-crashed (partial_of t) j effects d1 hp
          ∙ move-final one_device s t st ps pt (partial_of t) d
          ∙ ground (arith, same_path_iff (partial_of t) (partial_of t)) in
        (
          move-reply one_device s t st ps pt d' ∙ ground (arith, source, old, at_t),
          λ q.
              move-final one_device s t st ps pt q d'
              ∙ ground (
                arith,
                source,
                old,
                partial,
                same_path_iff (partial_of t) q,
                same_path_iff s q,
                same_path_iff t q,
              ),
        )

  pub move_all-Respects :
      (pairs : List (FilePath × FilePath)) → Respects (move_all one_device pairs)
  unfolding move_all
  move_all-Respects [] d d' same = refl
  move_all-Respects ((s, t) ∷ rest) d d' same =
      Respects-then (λ path e. push one_device path (move_all one_device rest e))
        (move one_device s t) (move-Respects s t)
        (λ path e e' x. ap (push one_device path) (move_all-Respects rest e e' x)) d d' same

  push_effects : (path : FilePath) (x : Steps (List FilePath)) → (push one_device path x).1 ≡ x.1
  unfolding push
  push_effects path (raised e, effects) = refl
  push_effects path (returned paths, effects) = refl

  pushed : FilePath → Outcome (List FilePath) → Outcome (List FilePath)
  pushed path (raised e) = raised e
  pushed path (returned paths) = returned (path ∷ paths)

  push-pushed :
      (path : FilePath) (x : Steps (List FilePath)) → (push one_device path x).0 ≡ pushed path x.0
  unfolding push pushed
  push-pushed path (raised e, effects) = refl
  push-pushed path (returned paths, effects) = refl

  push-Again :
      (path : FilePath) (steps : Disk → Steps (List FilePath)) (d : Disk) (k : ℕ)
      → Again steps d k
      → Again (λ e. push one_device path (steps e)) d k
  push-Again path steps d k x =
      subst
        (λ effects.
          Repeats (λ e. push one_device path (steps e)) (push one_device path (steps d)) d
            (crashed k effects d))
        (sym (push_effects path (steps d)))
        (let now : Disk = crashed k (steps d).1 d in
          record {
            reply =
                push-pushed path (steps now)
                ∙ ap (pushed path) x.reply
                ∙ sym (push-pushed path (steps d));
            disk = λ q.
                ap (λ effects. content q (run effects now)) (push_effects path (steps now))
                ∙ x.disk q
                ∙ ap (λ effects. content q (run effects d)) (sym (push_effects path (steps d)));
          })

  -- Moves that a crash cut off end, begun again, as if there had been no crash.
  pub move_all-Again :
      (pairs : List (FilePath × FilePath)) (d : Disk) (k : ℕ)
      → is_separate pairs ≡ true
      → Again (move_all one_device pairs) d k
  unfolding move_all run
  move_all-Again [] d k h = record { reply = refl; disk = λ q. content-crashed q k [] d refl }
  move_all-Again ((s, t) ∷ rest) d k h =
      Again-then (λ path e. push one_device path (move_all one_device rest e)) (move one_device s t)
        d k (move-Again s t rest h d)
        (λ path e e' x. ap (push one_device path) (move_all-Respects rest e e' x))
        (λ path j returns.
          push-Again path (move_all one_device rest) _ j
            (move_all-Again rest _ j (ground (arith, h))))
        (λ path j returns.
          move-Idle s t rest h d path _ j returns (others path s (ground (arith, h)))
            (others path t (ground (arith, h))) (others path (partial_of t) (ground (arith, h))))
    where
      others :
          (path q : FilePath)
          → is_clear q rest ≡ true
          → all_avoid q
              (push one_device path (move_all one_device rest (run (move one_device s t d).1 d))).1
            ≡ true
      others path q clear =
          all_avoid-push one_device q path _ (all_avoid-move_all one_device q rest _ clear)
