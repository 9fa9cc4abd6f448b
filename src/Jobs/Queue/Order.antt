-- ===== src/Jobs/Queue/Order.antt =====
-- The order of the claim, column by column: backend/app/jobs/manager.py, the `order_by` of `_claim`.
use Prim.Native.Nat.{Ordering, compare}
use Prim.Native.String.{compare as compare_text, then}
use Prim.Native.String.compare.{nil-cons, cons-nil, cons-cons}
use Prim.Native.Char.{Char, code}
use text.Mathlib.TextPositions.{compare_refl, compare_self}
use fetcharr.Base.{ℕ, String, ◌≡◌, refl, ◌∙◌, true, false, Option, none, some, arith}
use fetcharr.Jobs.Rows.{Job, Request}
use fetcharr.Jobs.Queue.{compare_option, then_by, claim_order, is_before}

-- What two comparisons that follow one another say of the third.
abbrev pub Chain : Ordering → Ordering → Ordering → Type 0
Chain Ordering.lt Ordering.lt c = c ≡ Ordering.lt
Chain Ordering.lt Ordering.eq c = c ≡ Ordering.lt
Chain Ordering.eq Ordering.lt c = c ≡ Ordering.lt
Chain Ordering.eq Ordering.eq c = c ≡ Ordering.eq
Chain _ _ c = Unit

Chain-intro :
    (a b c : Ordering)
    → (a ≡ Ordering.lt → b ≡ Ordering.lt → c ≡ Ordering.lt)
    → (a ≡ Ordering.lt → b ≡ Ordering.eq → c ≡ Ordering.lt)
    → (a ≡ Ordering.eq → b ≡ Ordering.lt → c ≡ Ordering.lt)
    → (a ≡ Ordering.eq → b ≡ Ordering.eq → c ≡ Ordering.eq)
    → Chain a b c
Chain-intro Ordering.lt Ordering.lt c p q r s = p refl refl
Chain-intro Ordering.lt Ordering.eq c p q r s = q refl refl
Chain-intro Ordering.eq Ordering.lt c p q r s = r refl refl
Chain-intro Ordering.eq Ordering.eq c p q r s = s refl refl
Chain-intro Ordering.lt Ordering.gt c p q r s = tt
Chain-intro Ordering.eq Ordering.gt c p q r s = tt
Chain-intro Ordering.gt b c p q r s = tt

Chain-elim :
    (a b c : Ordering)
    → Chain a b c
    → ((a ≡ Ordering.lt → b ≡ Ordering.lt → c ≡ Ordering.lt)
        × (a ≡ Ordering.lt → b ≡ Ordering.eq → c ≡ Ordering.lt)
        × (a ≡ Ordering.eq → b ≡ Ordering.lt → c ≡ Ordering.lt)
        × (a ≡ Ordering.eq → b ≡ Ordering.eq → c ≡ Ordering.eq))
Chain-elim a b c h = ground arith

Chain-then_by :
    (a b c a' b' c' : Ordering)
    → Chain a b c
    → Chain a' b' c'
    → Chain (then_by a a') (then_by b b') (then_by c c')
unfolding then_by
Chain-then_by a b c a' b' c' h h' =
    Chain-intro _ _ _ (λ p q. ground arith) (λ p q. ground arith) (λ p q. ground arith)
      (λ p q. ground arith)

Chain-compare : (a b c : ℕ) → Chain (compare a b) (compare b c) (compare a c)
Chain-compare a b c =
    Chain-intro _ _ _ (λ p q. ground arith) (λ p q. ground arith) (λ p q. ground arith)
      (λ p q. ground arith)

Chain-option :
    (a b c : Option ℕ) → Chain (compare_option a b) (compare_option b c) (compare_option a c)
unfolding compare_option
Chain-option none none none = refl
Chain-option none none (some c) = refl
Chain-option none (some b) none = tt
Chain-option none (some b) (some c) =
    Chain-intro Ordering.lt (compare b c) Ordering.lt (λ p q. refl) (λ p q. refl) (λ p q. refl)
      (λ p q. ground arith)
Chain-option (some a) none c = tt
Chain-option (some a) (some b) none =
    Chain-intro (compare a b) Ordering.gt Ordering.gt (λ p q. ground arith) (λ p q. ground arith)
      (λ p q. ground arith) (λ p q. ground arith)
Chain-option (some a) (some b) (some c) = Chain-compare a b c

then-then_by : (a b : Ordering) → then a b ≡ then_by a b
unfolding then_by
then-then_by Ordering.lt b = refl
then-then_by Ordering.eq b = refl
then-then_by Ordering.gt b = refl

compare_cons :
    (c d : Char) (s t : String)
    → compare_text (String.◌∷◌ c s) (String.◌∷◌ d t)
      ≡ then_by (compare (code c) (code d)) (compare_text s t)
compare_cons c d s t = (λ i. cons-cons c d s t i) ∙ then-then_by _ _

lt_first : (d : Char) (t : String) → compare_text String.[] (String.◌∷◌ d t) ≡ Ordering.lt
lt_first d t = λ i. nil-cons d t i

gt_first : (d : Char) (t : String) → compare_text (String.◌∷◌ d t) String.[] ≡ Ordering.gt
gt_first d t = λ i. cons-nil d t i

Chain-eq : (c : Ordering) → Chain Ordering.eq c c
Chain-eq Ordering.lt = refl
Chain-eq Ordering.eq = refl
Chain-eq Ordering.gt = tt

Chain-lt : (b : Ordering) → Chain Ordering.lt b Ordering.lt
Chain-lt Ordering.lt = refl
Chain-lt Ordering.eq = refl
Chain-lt Ordering.gt = tt

Chain-gt : (a c : Ordering) → Chain a Ordering.gt c
Chain-gt Ordering.lt c = tt
Chain-gt Ordering.eq c = tt
Chain-gt Ordering.gt c = tt

Chain-text : (a b c : String) → Chain (compare_text a b) (compare_text b c) (compare_text a c)
Chain-text String.[] String.[] c = Chain-eq (compare_text String.[] c)
Chain-text String.[] (String.◌∷◌ d t) String.[] = rw (gt_first d t) (Chain-gt _ _)
Chain-text String.[] (String.◌∷◌ d t) (String.◌∷◌ e u) =
    rw (lt_first d t, lt_first e u) (Chain-lt (compare_text (String.◌∷◌ d t) (String.◌∷◌ e u)))
Chain-text (String.◌∷◌ a s) String.[] c = rw (gt_first a s) tt
Chain-text (String.◌∷◌ a s) (String.◌∷◌ d t) String.[] = rw (gt_first d t) (Chain-gt _ _)
Chain-text (String.◌∷◌ a s) (String.◌∷◌ d t) (String.◌∷◌ e u) =
    rw (compare_cons a d s t, compare_cons d e t u, compare_cons a e s u)
      (Chain-then_by _ _ _ _ _ _ (Chain-compare (code a) (code d) (code e)) (Chain-text s t u))

-- The six columns, one inside the other.
Chain-claim_order :
    (x y z : Job × Request) → Chain (claim_order x y) (claim_order y z) (claim_order x z)
unfolding claim_order
Chain-claim_order (j, r) (k, s) (l, t) =
    Chain-then_by _ _ _ _ _ _ (Chain-compare r.created_at s.created_at t.created_at) (
      Chain-then_by _ _ _ _ _ _ (Chain-compare j.created_at k.created_at l.created_at) (
        Chain-then_by _ _ _ _ _ _ (Chain-option j.season k.season l.season) (
          Chain-then_by _ _ _ _ _ _ (Chain-option j.episode k.episode l.episode) (
            Chain-then_by _ _ _ _ _ _ (Chain-option j.air_date k.air_date l.air_date)
              (Chain-text j.id k.id l.id)))))

pub is_before_trans :
    (x y z : Job × Request) → is_before x y ≡ true → is_before y z ≡ true → is_before x z ≡ true
is_before_trans x y z p q = ground (
  arith,
  Chain-elim (claim_order x y) (claim_order y z) (claim_order x z) (Chain-claim_order x y z),
)

compare_option_self : (a : Option ℕ) → compare_option a a ≡ Ordering.eq
unfolding compare_option
compare_option_self none = refl
compare_option_self (some a) = ground arith

pub is_before_irrefl : (x : Job × Request) → is_before x x ≡ false
unfolding claim_order then_by
is_before_irrefl (j, r) = ground (
  arith,
  compare_self r.created_at,
  compare_self j.created_at,
  compare_option_self j.season,
  compare_option_self j.episode,
  compare_option_self j.air_date,
  compare_refl j.id,
)
