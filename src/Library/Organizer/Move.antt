-- ===== src/Library/Organizer/Move.antt =====
-- One move and its crashes: backend/app/library/organizer.py, `_move`.
use mathlib.Core.Path.{subst}
use fetcharr.Base.{
  ℕ, zero, suc, ◌==◌, ◌≡◌, refl, sym, ◌∙◌, Bool, false, Option, none, some, List, [], ◌∷◌, ◌++◌,
  map, take, length, arith, Text, if◌then◌else◌, Bool-cases, inl, inr, ◌⊎◌, append_assoc,
  append_nil,
}
use fetcharr.Library.Disk.{
  FilePath, Content, Disk, same_path, content, unlinked, renamed, opened, wrote, apply, run,
}
use fetcharr.Library.Disk.Laws.{
  same_path_iff, content-without, content-save, content-renamed, content-wrote,
}
use fetcharr.Library.Organizer.{partial_of, copy, moved}

-- What is at the destination in the end: the source's content, but an earlier content of its size stays.
unfoldable pub landed : Option Content → Option Content → Option Content
landed none old = old
landed (some c) none = some c
landed (some c) (some old) = if length old == length c then some old else some c

-- The disk where the move has ended.
unfoldable pub final : FilePath → FilePath → FilePath → Disk → Option Content
final source destination q disk =
    if same_path (partial_of destination) q
    then none
    else if same_path source q
    then none
    else if same_path destination q
    then landed (content source disk) (content destination disk)
    else content q disk

-- The source and the destination in the course of a move: as before, both there, or the source gone.
abbrev pub Halfway : (s t s' t' : Option Content) → Type 0
Halfway s t s' t' =
    ((s' ≡ s) × (t' ≡ t))
    ⊎ (((c : Content) × (s' ≡ some c) × (t' ≡ some c) × (landed s t ≡ some c))
        ⊎ ((s' ≡ none) × (t' ≡ landed s t)))

pub landed-Halfway : (s t s' t' : Option Content) → Halfway s t s' t' → landed s' t' ≡ landed s t
unfolding landed
landed-Halfway s t s' t' (inl (hs, ht)) = rw (hs, ht) refl
landed-Halfway s t s' t' (inr (inl (c, hs, ht, h))) = ground (arith, hs, ht, h)
landed-Halfway s t s' t' (inr (inr (hs, ht))) = rw (hs, ht) refl

module _ (one_device : List Text → List Text → Bool) (s t : FilePath)
    (apart_st : same_path s t ≡ false) (apart_ps : same_path (partial_of t) s ≡ false)
    (apart_pt : same_path (partial_of t) t ≡ false) where
  abbrev pub p : FilePath
  p = partial_of t

  -- Off the two paths and the partial one, a disk is as another.
  abbrev pub mask : FilePath → Option Content → Option Content
  mask q x =
      if same_path p q
      then none
      else if same_path s q
      then none
      else if same_path t q
      then none
      else x

  pub record Course (d d' : Disk) : Type 0 where
    pub course : Halfway (content s d) (content t d) (content s d') (content t d')
    pub others : (q : FilePath) → mask q (content q d') ≡ mask q (content q d)

  pub final-Course : (q : FilePath) (d d' : Disk) → Course d d' → final s t q d' ≡ final s t q d
  unfolding final
  final-Course q d d' x = ground (
    arith,
    x.others q,
    same_path_iff p q,
    landed-Halfway (content s d) (content t d) (content s d') (content t d') x.course,
  )

  -- The move has ended.
  pub record Done (d d' : Disk) : Type 0 where
    pub course : Course d d'
    pub source : content s d' ≡ none
    pub partial : content p d' ≡ none

  -- the copy has not ended: so far, the partial file alone has changed
  record Copying (d d' : Disk) (so_far : Content) : Type 0 where
    pub partial : content p d' ≡ some so_far
    pub source : content s d' ≡ content s d
    pub destination : content t d' ≡ content t d
    pub rest : (q : FilePath) → mask q (content q d') ≡ mask q (content q d)

  Copying-opened : (d : Disk) → Copying d (apply (opened p) d) []
  unfolding apply
  Copying-opened d = record {
    partial = ground (arith, content-save p p [] d, same_path_iff p p);
    source = ground (arith, content-save s p [] d);
    destination = ground (arith, content-save t p [] d);
    rest = λ q. ground (arith, content-save q p [] d);
  }

  Copying-wrote :
      (byte : ℕ) (so_far : Content) (d d' : Disk)
      → Copying d d' so_far
      → Copying d (apply (wrote p byte) d') (so_far ++ byte ∷ [])
  Copying-wrote byte so_far d d' x = record {
    partial = ground (arith, content-wrote p p byte so_far d' x.partial, same_path_iff p p);
    source = ground (arith, content-wrote s p byte so_far d' x.partial, x.source);
    destination = ground (arith, content-wrote t p byte so_far d' x.partial, x.destination);
    rest = λ q. ground (arith, content-wrote q p byte so_far d' x.partial, x.rest q);
  }

  Course-Copying : (so_far : Content) (d d' : Disk) → Copying d d' so_far → Course d d'
  Course-Copying so_far d d' x = record { course = inl (x.source, x.destination); others = x.rest }

  module _ (c : Content) (d : Disk) (at_source : content s d ≡ some c)
      (lands : landed (content s d) (content t d) ≡ some c) where
    -- both changes after the copy, from a disk with the whole copy
    Course-renamed : (d' : Disk) → Copying d d' c → Course d (apply (renamed p t) d')
    Course-renamed d' x = record {
      course = inr (
          inl (
            c,
            ground (
              arith,
              content-renamed s p t c d' x.partial,
              x.source,
              same_path_iff t s,
              same_path_iff s s,
            ),
            ground (arith, content-renamed t p t c d' x.partial, same_path_iff t t),
            lands,
          ));
      others = λ q. ground (arith, content-renamed q p t c d' x.partial, x.rest q);
    }

    Done-unlinked :
        (d' : Disk) → Copying d d' c → Done d (apply (unlinked s) (apply (renamed p t) d'))
    unfolding apply
    Done-unlinked d' x = record {
      course = record {
        course = inr (
            inr (
              ground (arith, content-without s s d'', same_path_iff s s),
              ground (
                arith,
                content-without t s d'',
                content-renamed t p t c d' x.partial,
                same_path_iff t t,
                lands,
              ),
            ));
        others = λ q.
            ground (arith, content-without q s d'', content-renamed q p t c d' x.partial, x.rest q);
      };
      source = ground (arith, content-without s s d'', same_path_iff s s);
      partial = ground (
        arith,
        content-without p s d'',
        content-renamed p p t c d' x.partial,
        same_path_iff p p,
        same_path_iff s p,
        same_path_iff p s,
        same_path_iff t p,
        same_path_iff p t,
      );
    }
      where
        d'' : Disk
        d'' = apply (renamed p t) d'

    -- the rest of the copy, from a disk with a part of it
    Course-copy :
        (left so_far : Content) (k : ℕ) (d' : Disk)
        → so_far ++ left ≡ c
        → Copying d d' so_far
        → Course d (run (take k (map (wrote p) left ++ renamed p t ∷ unlinked s ∷ [])) d')
    unfolding run
    Course-copy left so_far zero d' whole x = Course-Copying so_far d d' x
    Course-copy [] so_far (suc zero) d' whole x =
        Course-renamed d' (subst (Copying d d') (sym (append_nil so_far) ∙ whole) x)
    Course-copy [] so_far (suc (suc zero)) d' whole x =
        (Done-unlinked d' (subst (Copying d d') (sym (append_nil so_far) ∙ whole) x)).course
    Course-copy [] so_far (suc (suc (suc k))) d' whole x =
        (Done-unlinked d' (subst (Copying d d') (sym (append_nil so_far) ∙ whole) x)).course
    Course-copy (byte ∷ left) so_far (suc k) d' whole x =
        Course-copy left (so_far ++ byte ∷ []) k (apply (wrote p byte) d')
          (append_assoc so_far (byte ∷ []) left ∙ whole) (Copying-wrote byte so_far d d' x)

    Done-copy :
        (left so_far : Content) (d' : Disk)
        → so_far ++ left ≡ c
        → Copying d d' so_far
        → Done d (run (map (wrote p) left ++ renamed p t ∷ unlinked s ∷ []) d')
    unfolding run
    Done-copy [] so_far d' whole x =
        Done-unlinked d' (subst (Copying d d') (sym (append_nil so_far) ∙ whole) x)
    Done-copy (byte ∷ left) so_far d' whole x =
        Done-copy left (so_far ++ byte ∷ []) (apply (wrote p byte) d')
          (append_assoc so_far (byte ∷ []) left ∙ whole) (Copying-wrote byte so_far d d' x)

    Course-refl : Course d d
    Course-refl = record { course = inl (refl, refl); others = λ q. refl }

    Done-rename : content p d ≡ none → Done d (apply (renamed s t) d)
    Done-rename clean = record {
      course = record {
        course = inr (
            inr (
              ground (
                arith,
                content-renamed s s t c d at_source,
                same_path_iff s s,
                same_path_iff t s,
                same_path_iff s t,
              ),
              ground (arith, content-renamed t s t c d at_source, same_path_iff t t, lands),
            ));
        others = λ q. ground (arith, content-renamed q s t c d at_source);
      };
      source = ground (
        arith,
        content-renamed s s t c d at_source,
        same_path_iff s s,
        same_path_iff t s,
        same_path_iff s t,
      );
      partial = ground (
        arith,
        content-renamed p s t c d at_source,
        clean,
        same_path_iff s p,
        same_path_iff p s,
        same_path_iff t p,
        same_path_iff p t,
      );
    }

    Course-renaming : (k : ℕ) → content p d ≡ none → Course d (run (take k (renamed s t ∷ [])) d)
    unfolding run
    Course-renaming zero clean = Course-refl
    Course-renaming (suc zero) clean = (Done-rename clean).course
    Course-renaming (suc (suc k)) clean = (Done-rename clean).course

    Course-copying : (k : ℕ) → Course d (run (take k (copy c p ++ renamed p t ∷ unlinked s ∷ [])) d)
    unfolding copy run
    Course-copying zero = Course-refl
    Course-copying (suc k) = Course-copy c [] k (apply (opened p) d) refl (Copying-opened d)

    pub moved-Course :
        (k : ℕ) → content p d ≡ none → Course d (run (take k (moved one_device s t c)) d)
    unfolding moved
    moved-Course k clean = elim (Bool-cases (one_device s.folder t.folder)) [
      | inl e ↦ rw e (Course-renaming k clean)
      | inr e ↦ rw e (Course-copying k)
    ]

    pub moved-Done : content p d ≡ none → Done d (run (moved one_device s t c) d)
    unfolding moved copy run
    moved-Done clean = elim (Bool-cases (one_device s.folder t.folder)) [
      | inl e ↦ rw e (Done-rename clean)
      | inr e ↦ rw e (Done-copy c [] (apply (opened p) d) refl (Copying-opened d))
    ]
