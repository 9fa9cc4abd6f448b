-- ===== src/Library/Organizer/Moves.antt =====
-- A move that is begun again after a crash: backend/app/library/organizer.py, `_move`.
use mathlib.Core.Path.{subst}
use fetcharr.Base.{
  ℕ, zero, suc, ◌==◌, ◌≡◌, refl, sym, ◌∙◌, Bool, true, false, Option, none, some, List, [], take,
  length, arith, Text, Bool-cases, inl, inr,
}
use fetcharr.Library.Disk.{
  FilePath, Content, Disk, same_path, content, without, unlinked, apply, run, crashed,
}
use fetcharr.Library.Disk.Laws.{same_path_iff, content-without}
use fetcharr.Library.Organizer.{
  Outcome, returned, raised, nothing_to_move, and_then, partial_of, move_from, move,
}
use fetcharr.Library.Organizer.Move.{
  Halfway, landed, final, Course, Done, final-Course, moved-Course, moved-Done,
}

crashed_nil : (k : ℕ) (d : Disk) → run (take k []) d ≡ d
unfolding run
crashed_nil zero d = refl
crashed_nil (suc k) d = refl

module _ (one_device : List Text → List Text → Bool) (s t : FilePath)
    (apart_st : same_path s t ≡ false) (apart_ps : same_path (partial_of t) s ≡ false)
    (apart_pt : same_path (partial_of t) t ≡ false) where
  abbrev p : FilePath
  p = partial_of t

  abbrev Courses : Disk → Disk → Type 0
  Courses = Course one_device s t apart_st apart_ps apart_pt

  abbrev Ends : Disk → Disk → Type 0
  Ends = Done one_device s t apart_st apart_ps apart_pt

  Courses-same : (d : Disk) → Courses d d
  Courses-same d = record { course = inl (refl, refl); others = λ q. refl }

  Courses-without : (d d' : Disk) → Courses (without p d) d' → Courses d d'
  Courses-without d d' x = record {
    course =
        subst (λ source. Halfway source (content t d) (content s d') (content t d'))
          (ground (arith, content-without s p d))
          (subst (λ old. Halfway (content s (without p d)) old (content s d') (content t d'))
            (ground (arith, content-without t p d)) x.course);
    others = λ q. ground (arith, x.others q, content-without q p d);
  }

  -- an earlier run got as far as the destination: the source goes
  Ends-unlinked :
      (c old : Content) (d : Disk)
      → content s d ≡ some c
      → content t d ≡ some old
      → (length old == length c) ≡ true
      → content p d ≡ none
      → Ends d (apply (unlinked s) d)
  unfolding apply landed
  Ends-unlinked c old d hs ht same clean = record {
    course = record {
      course = inr (
          inr (
            ground (arith, content-without s s d, same_path_iff s s),
            ground (arith, content-without t s d),
          ));
      others = λ q. ground (arith, content-without q s d);
    };
    source = ground (arith, content-without s s d, same_path_iff s s);
    partial = ground (arith, content-without p s d);
  }

  move_from-Courses :
      (k : ℕ) (source old : Option Content) (d : Disk)
      → content s d ≡ source
      → content t d ≡ old
      → content p d ≡ none
      → Courses d (run (take k (move_from one_device s t source old).1) d)
  unfolding move_from run landed
  move_from-Courses zero source old d hs ht clean = Courses-same d
  move_from-Courses (suc k) none none d hs ht clean = Courses-same d
  move_from-Courses (suc k) none (some old) d hs ht clean = Courses-same d
  move_from-Courses (suc k) (some c) none d hs ht clean =
      moved-Course one_device s t apart_st apart_ps apart_pt c d hs (rw (hs, ht) refl) (suc k) clean
  move_from-Courses (suc k) (some c) (some old) d hs ht clean =
      elim (Bool-cases (length old == length c)) [
        | inl e ↦ rw e (
            subst (Courses d) (sym (crashed_nil k (apply (unlinked s) d)))
              (Ends-unlinked c old d hs ht e clean).course)
        | inr e ↦ rw e (
            moved-Course one_device s t apart_st apart_ps apart_pt c d hs (ground arith) (suc k)
              clean)
      ]

  move_from-Ends :
      (source old : Option Content) (c : Content) (d : Disk)
      → content s d ≡ source
      → content t d ≡ old
      → content p d ≡ none
      → source ≡ some c
      → Ends d (run (move_from one_device s t source old).1 d)
  unfolding move_from run landed
  move_from-Ends none old c d hs ht clean h = absurd (ground arith)
  move_from-Ends (some c) none c' d hs ht clean h =
      moved-Done one_device s t apart_st apart_ps apart_pt c d hs (rw (hs, ht) refl) clean
  move_from-Ends (some c) (some old) c' d hs ht clean h =
      elim (Bool-cases (length old == length c)) [
        | inl e ↦ rw e (Ends-unlinked c old d hs ht e clean)
        | inr e ↦
            rw e (moved-Done one_device s t apart_st apart_ps apart_pt c d hs (ground arith) clean)
      ]

  -- The whole move: where it stops, and what it leaves.
  move-Courses : (k : ℕ) (d : Disk) → Courses d (crashed k (move one_device s t d).1 d)
  unfolding move and_then crashed run apply
  move-Courses zero d = Courses-same d
  move-Courses (suc k) d =
      let clear = without p d in
      Courses-without d _ (
        move_from-Courses k (content s clear) (content t clear) clear refl refl
          (ground (arith, content-without p p d, same_path_iff p p)))

  Ends-final : (q : FilePath) (d d' : Disk) → Ends d d' → content q d' ≡ final s t q d'
  unfolding final landed
  Ends-final q d d' x =
      ground (arith, x.source, x.partial, same_path_iff p q, same_path_iff s q, same_path_iff t q)

  final-without : (q : FilePath) (d : Disk) → final s t q (without p d) ≡ final s t q d
  final-without q d =
      final-Course one_device s t apart_st apart_ps apart_pt q d (without p d)
        (Courses-without d (without p d) (Courses-same (without p d)))

  move_from-final :
      (q : FilePath) (source old : Option Content) (d : Disk)
      → content s d ≡ source
      → content t d ≡ old
      → content p d ≡ none
      → content q (run (move_from one_device s t source old).1 d) ≡ final s t q d
  unfolding move_from run
  move_from-final q none none d hs ht clean =
      Ends-final q d d (record { course = Courses-same d; source = hs; partial = clean })
  move_from-final q none (some old) d hs ht clean =
      Ends-final q d d (record { course = Courses-same d; source = hs; partial = clean })
  move_from-final q (some c) old d hs ht clean =
      let x = move_from-Ends (some c) old c d hs ht clean refl in
      Ends-final q d _ x ∙ final-Course one_device s t apart_st apart_ps apart_pt q d _ x.course

  pub move-final :
      (q : FilePath) (d : Disk) → content q (run (move one_device s t d).1 d) ≡ final s t q d
  unfolding move and_then run apply
  move-final q d =
      let clear = without p d in
      move_from-final q (content s clear) (content t clear) clear refl refl
        (ground (arith, content-without p p d, same_path_iff p p))
      ∙ final-without q d

  unfoldable pub reply : Option Content → Option Content → Outcome FilePath
  reply none none = raised (nothing_to_move s)
  reply _ _ = returned t

  move_from-reply :
      (source old : Option Content) → (move_from one_device s t source old).0 ≡ reply source old
  unfolding move_from reply
  move_from-reply none none = refl
  move_from-reply none (some old) = refl
  move_from-reply (some c) none = refl
  move_from-reply (some c) (some old) = refl

  pub move-reply : (d : Disk) → (move one_device s t d).0 ≡ reply (content s d) (content t d)
  unfolding move and_then run apply
  move-reply d = ground (
    arith,
    move_from-reply (content s (without p d)) (content t (without p d)),
    content-without s p d,
    content-without t p d,
  )

  reply-Halfway :
      (source old source' old' : Option Content)
      → Halfway source old source' old'
      → reply source' old' ≡ reply source old
  unfolding reply landed
  reply-Halfway source old source' old' (inl (hs, ht)) = rw (hs, ht) refl
  reply-Halfway source old source' old' (inr (inl (c, hs, ht, h))) = ground (arith, hs, ht, h)
  reply-Halfway none none source' old' (inr (inr (hs, ht))) = rw (hs, ht) refl
  reply-Halfway none (some o) source' old' (inr (inr (hs, ht))) = rw (hs, ht) refl
  reply-Halfway (some c) none source' old' (inr (inr (hs, ht))) = rw (hs, ht) refl
  reply-Halfway (some c) (some o) source' old' (inr (inr (hs, ht))) =
      ground (arith, hs, ht, Bool-cases (length o == length c))

  -- A move that is begun again where a crash stopped it ends as if there had been no crash.
  pub move-again :
      (k : ℕ) (d : Disk) (q : FilePath)
      → let d' = crashed k (move one_device s t d).1 d in
        ((move one_device s t d').0 ≡ (move one_device s t d).0)
        × (content q (run (move one_device s t d').1 d')
            ≡ content q (run (move one_device s t d).1 d))
  move-again k d q =
      let d' = crashed k (move one_device s t d).1 d in
      let x = move-Courses k d in
      (
        move-reply d' ∙ reply-Halfway _ _ _ _ x.course ∙ sym (move-reply d),
        move-final q d'
            ∙ final-Course one_device s t apart_st apart_ps apart_pt q d d' x
            ∙ sym (move-final q d),
      )
