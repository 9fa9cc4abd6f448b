-- ===== src/Library/Organizer/Again.antt =====
-- Steps of backend/app/library/organizer.py in sequence, begun again after a crash.
use mathlib.Core.Path.{subst}
use fetcharr.Base.{ℕ, ◌≡◌, refl, sym, ap, ◌∙◌, List, ◌++◌, take, ◌⊎◌, inl, inr}
use fetcharr.Library.Disk.{Disk, content, Effect, run, crashed}
use fetcharr.Library.Disk.Laws.{run-append}
use fetcharr.Library.Disk.Again.{Same, Same-run, take-append}
use fetcharr.Library.Organizer.{OrganizeError, Outcome, returned, raised, Steps, and_then}

-- Begun on the disk `now`, steps reply as they did, and leave the disk that they would have left.
pub record Repeats {A : Type 0} (steps : Disk → Steps A) (did : Steps A) (before now : Disk)
    : Type 0 where
  pub reply : (steps now).0 ≡ did.0
  pub disk : Same (run (steps now).1 now) (run did.1 before)

abbrev pub Again : {A : Type 0} → (Disk → Steps A) → Disk → ℕ → Type 0
Again steps disk k = Repeats steps (steps disk) disk (crashed k (steps disk).1 disk)

-- Steps see the files alone.
abbrev pub Respects : {A : Type 0} → (Disk → Steps A) → Type 0
Respects steps = (d d' : Disk) → Same d d' → steps d ≡ steps d'

-- Where steps have nothing left to do.
abbrev pub Idle : {A : Type 0} → (Disk → Steps A) → A → Disk → Type 0
Idle steps a d = ((steps d).0 ≡ returned a) × Same (run (steps d).1 d) d

Outcome-cases :
    {A : Type 0} (o : Outcome A)
    → ((a : A) × (o ≡ returned a)) ⊎ ((e : OrganizeError) × (o ≡ raised e))
Outcome-cases (returned a) = inl (a, refl)
Outcome-cases (raised e) = inr (e, refl)

module _ {A B : Type 0} (next : A → Disk → Steps B) where
  then_raised :
      (d : Disk) (first : Steps A) (e : OrganizeError)
      → first.0 ≡ raised e
      → and_then d first next ≡ (raised e, first.1)
  then_raised d (o, effects) e h =
      subst (λ o'. and_then d (o', effects) next ≡ (raised e, effects)) (sym h)
        (unfold and_then in refl)

  then_returned :
      (d : Disk) (first : Steps A) (a : A)
      → first.0 ≡ returned a
      → and_then d first next ≡ ((next a (run first.1 d)).0, first.1 ++ (next a (run first.1 d)).1)
  then_returned d (o, effects) a h =
      subst
        (λ o'.
          and_then d (o', effects) next
          ≡ ((next a (run effects d)).0, effects ++ (next a (run effects d)).1))
        (sym h) (unfold and_then in refl)

  module _ (first : Disk → Steps A) where
    abbrev whole : Disk → Steps B
    whole d = and_then d (first d) next

    pub Respects-then : Respects first → ((a : A) → Respects (next a)) → Respects whole
    Respects-then hf hn d d' same =
        let eq = hf d d' same in ap (λ r. and_then d r next) eq ∙ by_reply d d' (first d') same
      where
        by_reply : (d d' : Disk) (r : Steps A) → Same d d' → and_then d r next ≡ and_then d' r next
        by_reply d d' r same = elim (Outcome-cases r.0) [
          | inl (a, h) ↦
              let eq = hn a (run r.1 d) (run r.1 d') (Same-run r.1 d d' same) in
              then_returned d r a h
              ∙ ap (λ (n : Steps B). (n.0, r.1 ++ n.1)) eq
              ∙ sym (then_returned d' r a h)
          | inr (e, h) ↦ then_raised d r e h ∙ sym (then_raised d' r e h)
        ]

    -- The first part replies on `now`, and what follows works on the disk that it leaves.
    Repeats-then :
        (d now : Disk) (a : A) (did : Steps B)
        → Respects (next a)
        → (first now).0 ≡ returned a
        → (d2 : Disk) → Same (run (first now).1 now) d2
        → (next a d2).0 ≡ did.0
        → Same (run (next a d2).1 d2) (run did.1 d)
        → Repeats whole did d now
    Repeats-then d now a did respects h d2 same reply disk =
        let d1 : Disk = run (first now).1 now in
        let eq = then_returned now (first now) a h in
        let eq2 : next a d1 ≡ next a d2 = respects d1 d2 same in
        record {
          reply = ap (λ r. r.0) eq ∙ ap (λ r. r.0) eq2 ∙ reply;
          disk = λ q.
              ap (λ r. content q (run r.1 now)) eq
              ∙ ap (content q) (run-append (first now).1 (next a d1).1 now)
              ∙ Same-run (next a d1).1 d1 d2 same q
              ∙ ap (λ r. content q (run r.1 d2)) eq2
              ∙ disk q;
        }

    Again-returned :
        (d : Disk) (k : ℕ) (a : A)
        → (first d).0 ≡ returned a
        → ((j : ℕ) → Again first d j)
        → Respects (next a)
        → ((j : ℕ) → Again (next a) (run (first d).1 d) j)
        → ((j : ℕ) → Idle first a (crashed j (next a (run (first d).1 d)).1 (run (first d).1 d)))
        → let did : Steps B =
            ((next a (run (first d).1 d)).0, (first d).1 ++ (next a (run (first d).1 d)).1) in
          Repeats whole did d (crashed k did.1 d)
    unfolding crashed
    Again-returned d k a h again respects next_again idle =
        let effects : List Effect = (first d).1 in
        let d1 : Disk = run effects d in
        let more : List Effect = (next a d1).1 in
        let did : Steps B = ((next a d1).0, effects ++ more) in
        elim (take-append k effects more) [
          | inl cut ↦
              subst (λ l. Repeats whole did d (run l d)) (sym cut)
                (Repeats-then d (run (take k effects) d) a did respects ((again k).reply ∙ h) d1
                  (again k).disk refl (λ q. ap (content q) (sym (run-append effects more d))))
          | inr (j, cut) ↦
              subst (λ l. Repeats whole did d (run l d)) (sym cut)
                (subst (λ now. Repeats whole did d now) (sym (run-append effects (take j more) d))
                  (let now : Disk = run (take j more) d1 in
                    Repeats-then d now a did respects (idle j).0 now (idle j).1 (next_again j).reply
                      (λ q.
                        (next_again j).disk q ∙ ap (content q) (sym (run-append effects more d)))))
        ]

    pub Again-then :
        (d : Disk) (k : ℕ)
        → ((j : ℕ) → Again first d j)
        → ((a : A) → Respects (next a))
        → ((a : A) → (j : ℕ) → (first d).0 ≡ returned a → Again (next a) (run (first d).1 d) j)
        → ((a : A)
            → (j : ℕ) → (first d).0 ≡ returned a
            → Idle first a (crashed j (next a (run (first d).1 d)).1 (run (first d).1 d)))
        → Again whole d k
    Again-then d k again respects next_again idle = elim (Outcome-cases (first d).0) [
      | inr (e, h) ↦
          let x = again k in
          subst (λ (r : Steps B). Repeats whole r d (crashed k r.1 d))
            (sym (then_raised d (first d) e h))
            (let eq =
                then_raised (crashed k (first d).1 d) (first (crashed k (first d).1 d)) e
                  (x.reply ∙ h) in
              record {
                reply = ap (λ r. r.0) eq;
                disk = λ q. ap (λ r. content q (run r.1 (crashed k (first d).1 d))) eq ∙ x.disk q;
              })
      | inl (a, h) ↦
          subst (λ (r : Steps B). Repeats whole r d (crashed k r.1 d))
            (sym (then_returned d (first d) a h))
            (Again-returned d k a h again (respects a) (λ j. next_again a j h) (λ j. idle a j h))
    ]
