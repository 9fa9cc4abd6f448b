-- ===== src/Library/Disk/Again.antt =====
-- Running again after a crash: when a sequence of changes may be begun anew where it was cut off.
use fetcharr.Base.{
  ℕ, zero, suc, ◌≡◌, refl, sym, ap, ◌∙◌, List, [], ◌∷◌, ◌++◌, take, arith, Option-cases, inl, inr,
  ◌⊎◌,
}
use fetcharr.Library.Disk.{
  FilePath, Content, Disk, content, without, save, Effect, unlinked, renamed, opened, wrote, apply,
  renamed_to, appended, run,
}
use fetcharr.Library.Disk.Laws.{content-without, content-save, content-renamed}

-- Two disks with the same files.
abbrev pub Same : Disk → Disk → Type 0
Same d d' = (q : FilePath) → content q d ≡ content q d'

pub Same-trans : (d d' d'' : Disk) → Same d d' → Same d' d'' → Same d d''
Same-trans d d' d'' x y q = x q ∙ y q

pub Same-without : (p : FilePath) (d d' : Disk) → Same d d' → Same (without p d) (without p d')
Same-without p d d' x q = ground (arith, content-without q p d, content-without q p d', x q)

Same-save : (p : FilePath) (c : Content) (d d' : Disk) → Same d d' → Same (save p c d) (save p c d')
Same-save p c d d' x q = ground (arith, content-save q p c d, content-save q p c d', x q)

Same-apply : (e : Effect) (d d' : Disk) → Same d d' → Same (apply e d) (apply e d')
unfolding apply renamed_to appended
Same-apply (unlinked p) d d' x = Same-without p d d' x
Same-apply (renamed p r) d d' x = elim (Option-cases (content p d)) [
  | inl e ↦ rw (e, sym (x p) ∙ e) x
  | inr (c, e) ↦ λ q.
      ground (arith, content-renamed q p r c d e, content-renamed q p r c d' (sym (x p) ∙ e), x q)
]
Same-apply (opened p) d d' x = Same-save p [] d d' x
Same-apply (wrote p byte) d d' x = elim (Option-cases (content p d)) [
  | inl e ↦ rw (e, sym (x p) ∙ e) (Same-save p (byte ∷ []) d d' x)
  | inr (c, e) ↦ rw (e, sym (x p) ∙ e) (Same-save p (c ++ byte ∷ []) d d' x)
]

pub Same-run :
    (effects : List Effect) (d d' : Disk) → Same d d' → Same (run effects d) (run effects d')
unfolding run
Same-run [] d d' x = x
Same-run (e ∷ effects) d d' x = Same-run effects (apply e d) (apply e d') (Same-apply e d d' x)

-- Where changes in two parts are cut off: in the first part, or after it.
pub take-append :
    (k : ℕ) (first next : List Effect)
    → (take k (first ++ next) ≡ take k first)
      ⊎ ((j : ℕ) × (take k (first ++ next) ≡ first ++ take j next))
take-append k [] next = inr (k, refl)
take-append zero (e ∷ first) next = inl refl
take-append (suc k) (e ∷ first) next = elim (take-append k first next) [
  | inl h ↦ inl (ap (λ l. e ∷ l) h)
  | inr (j, h) ↦ inr (j, ap (λ l. e ∷ l) h)
]
