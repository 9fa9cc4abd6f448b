-- ===== src/Auth/Limiter/History.antt =====
-- The limiter against the history of the allowed attempts: backend/app/auth/utils.py.
use mathlib.Core.Bool.{not}
use mathlib.Core.Path.{ap₂}
use mathlib.Core.List.{append-nil}
use fetcharr.Base.{
  ℕ, ◌≤◌, String, ◌≡◌, refl, sym, ap, ◌∙◌, Bool, true, false, Option, none, some, List, [], ◌∷◌,
  ◌++◌, length, leb, ltb, str_eq, eq_iff, or_else, keep, All, Bool-cases, inl, inr, arith,
  if◌then◌else◌,
}
use fetcharr.Auth.Limiter.{
  Attempts, login_attempts, is_old, is_stale, sweep, purge, pop_old, put, hit,
}

abbrev pub is_none : Option ℕ → Bool
is_none none = true
is_none (some s) = false

-- The allowed attempts of each key, oldest first.
abbrev pub Log : Type 0
Log = String → List ℕ

abbrev is_recent : ℕ → ℕ → Bool
is_recent now t = not (is_old now t)

-- Those within the last minute.
abbrev pub recent : ℕ → List ℕ → List ℕ
recent now ts = keep (is_recent now) ts

abbrev pub add : String → ℕ → Log → Log
add key now log other = if str_eq key other then log other ++ now ∷ [] else log other

-- What the limiter promises: an attempt is allowed while fewer than `login_attempts` of its key were
-- allowed within the last minute.
pub allow : String → ℕ → Log → Bool × Log
allow key now log =
    if ltb (length (recent now (log key))) login_attempts
    then (true, add key now log)
    else (false, log)

-- A deque whose times do not fall and do not pass `last`.
abbrev IsOrdered : ℕ → List ℕ → Type 0
IsOrdered last [] = Unit
IsOrdered last (t ∷ rest) = (t ≤ last) × All (λ u. t ≤ u) rest × IsOrdered last rest

record Refines (last : ℕ) (attempts : Attempts) (log : Log) : Type 0 where
  ordered : (key : String) → IsOrdered last (or_else (attempts key) [])
  same : (key : String) → recent last (log key) ≡ recent last (or_else (attempts key) [])

keep-All :
    (now t : ℕ) (rest : List ℕ)
    → is_old now t ≡ false
    → All (λ u. t ≤ u) rest
    → recent now rest ≡ rest
keep-All now t [] h all = refl
keep-All now t (u ∷ rest) h (le, all) = ground (arith, keep-All now t rest h all)

pop_old-recent : (last now : ℕ) (d : List ℕ) → IsOrdered last d → pop_old now d ≡ recent now d
unfolding pop_old
pop_old-recent last now [] h = refl
pop_old-recent last now (t ∷ rest) (_, all, h) = ground (
  arith,
  pop_old-recent last now rest h,
  λ (old : is_old now t ≡ false). keep-All now t rest old all,
)

recent_of_stale :
    (last now : ℕ) (d : List ℕ) → IsOrdered last d → is_stale now d ≡ true → recent now d ≡ []
unfolding is_stale
recent_of_stale last now [] h s = refl
recent_of_stale last now (t ∷ []) h s = ground arith
recent_of_stale last now (t ∷ u ∷ rest) (_, (le, _), h) s =
    ground (arith, recent_of_stale last now (u ∷ rest) h s)

recent-recent : (last now : ℕ) (d : List ℕ) → last ≤ now → recent now (recent last d) ≡ recent now d
recent-recent last now [] h = refl
recent-recent last now (t ∷ rest) h = ground (arith, recent-recent last now rest h)

recent-append : (now : ℕ) (xs ys : List ℕ) → recent now (xs ++ ys) ≡ recent now xs ++ recent now ys
recent-append now [] ys = refl
recent-append now (t ∷ rest) ys = ground (arith, recent-append now rest ys)

recent-All : (now t : ℕ) (d : List ℕ) → All (λ u. t ≤ u) d → All (λ u. t ≤ u) (recent now d)
recent-All now t [] h = tt
recent-All now t (u ∷ rest) (a, h) = ground (arith, recent-All now t rest h)

concat-All :
    (t now : ℕ) (d : List ℕ) → t ≤ now → All (λ u. t ≤ u) d → All (λ u. t ≤ u) (d ++ now ∷ [])
concat-All t now [] le h = (le, tt)
concat-All t now (u ∷ rest) le (a, h) = (a, concat-All t now rest le h)

recent-IsOrdered :
    (last now : ℕ) (d : List ℕ) → last ≤ now → IsOrdered last d → IsOrdered now (recent now d)
recent-IsOrdered last now [] le h = tt
recent-IsOrdered last now (t ∷ rest) le (a, b, h) = elim (Bool-cases (is_recent now t)) [
  | inl e ↦ rw e (omega arith, recent-All now t rest b, recent-IsOrdered last now rest le h)
  | inr e ↦ rw e (recent-IsOrdered last now rest le h)
]

concat-IsOrdered : (now : ℕ) (d : List ℕ) → IsOrdered now d → IsOrdered now (d ++ now ∷ [])
concat-IsOrdered now [] h = (omega arith, tt, tt)
concat-IsOrdered now (t ∷ rest) (a, b, h) =
    (a, concat-All t now rest a b, concat-IsOrdered now rest h)

weaken-IsOrdered : (last now : ℕ) (d : List ℕ) → last ≤ now → IsOrdered last d → IsOrdered now d
weaken-IsOrdered last now [] le h = tt
weaken-IsOrdered last now (t ∷ rest) le (a, b, h) =
    (omega arith, b, weaken-IsOrdered last now rest le h)

add_nothing : (b : Bool) (ts : List ℕ) → ts ≡ (if b then ts ++ [] else ts)
add_nothing true ts = sym (append-nil ts)
add_nothing false ts = refl

sweep-IsOrdered :
    (last now : ℕ) (o : Option (List ℕ))
    → IsOrdered last (or_else o [])
    → IsOrdered last (or_else (sweep now o) [])
unfolding sweep
sweep-IsOrdered last now none h = h
sweep-IsOrdered last now (some d) h = ground arith

recent-sweep :
    (last now : ℕ) (o : Option (List ℕ))
    → IsOrdered last (or_else o [])
    → recent now (or_else (sweep now o) []) ≡ recent now (or_else o [])
unfolding sweep
recent-sweep last now none h = refl
recent-sweep last now (some d) h = ground (arith, recent_of_stale last now d h)

module _ (key : String) (last now : ℕ) (attempts : Attempts) (log : Log) (le : last ≤ now)
    (r : Refines last attempts log) where
  recent-purge : (k : String) → recent now (or_else (purge now attempts k) []) ≡ recent now (log k)
  unfolding purge
  recent-purge k =
      recent-sweep last now (attempts k) (r.ordered k)
      ∙ sym (recent-recent last now (or_else (attempts k) []) le)
      ∙ sym (ap (recent now) (r.same k))
      ∙ recent-recent last now (log k) le

  abbrev kept : List ℕ
  kept = pop_old now (or_else (purge now attempts key) [])

  purge-IsOrdered : (k : String) → IsOrdered last (or_else (purge now attempts k) [])
  unfolding purge
  purge-IsOrdered k = sweep-IsOrdered last now (attempts k) (r.ordered k)

  kept-recent : kept ≡ recent now (log key)
  kept-recent = pop_old-recent last now _ (purge-IsOrdered key) ∙ recent-purge key

  kept-IsOrdered : IsOrdered now kept
  kept-IsOrdered =
      rw (pop_old-recent last now _ (purge-IsOrdered key))
        (recent-IsOrdered last now _ le (purge-IsOrdered key))

  put-IsOrdered :
      (d : List ℕ)
      → IsOrdered now d
      → (k : String) → IsOrdered now (or_else (put key d (purge now attempts) k) [])
  put-IsOrdered d h k = elim (Bool-cases (str_eq key k)) [
    | inl e ↦ rw e h
    | inr e ↦ rw e (weaken-IsOrdered last now _ le (purge-IsOrdered k))
  ]

  put-recent :
      (d new : List ℕ)
      → recent now d ≡ recent now (log key ++ new)
      → (k : String)
      → recent now (if str_eq key k then log k ++ new else log k)
        ≡ recent now (or_else (put key d (purge now attempts) k) [])
  put-recent d new h k = elim (Bool-cases (str_eq key k)) [
    | inl e ↦ rw (e, ← (eq_iff key k).0 e) (sym h)
    | inr e ↦ rw e (sym (recent-purge k))
  ]

  kept-log : recent now kept ≡ recent now (log key ++ [])
  kept-log = rw (append-nil, kept-recent) (recent-recent now now (log key) (omega arith))

  kept_now-log : recent now (kept ++ now ∷ []) ≡ recent now (log key ++ now ∷ [])
  kept_now-log =
      recent-append now kept (now ∷ [])
      ∙ ap (λ ts. ts ++ recent now (now ∷ [])) (kept-log ∙ rw append-nil)
      ∙ sym (recent-append now (log key) (now ∷ []))

  answer-allow : is_none (hit key now attempts).0 ≡ (allow key now log).0
  unfolding hit allow
  answer-allow = rw (← kept-recent) (ground arith)

  hit-Refines : Refines now (hit key now attempts).1 (allow key now log).1
  unfolding hit allow
  hit-Refines = elim (Bool-cases (leb login_attempts (length kept))) [
    | inl full ↦
        let refused : ltb (length (recent now (log key))) login_attempts ≡ false =
          rw (← kept-recent) (ground (arith, full)) in
        rw (full, refused)
          (record {
            ordered = put-IsOrdered kept kept-IsOrdered;
            same = λ k.
                ap (recent now) (add_nothing (str_eq key k) (log k))
                ∙ put-recent kept [] kept-log k;
          })
    | inr free ↦
        let allowed : ltb (length (recent now (log key))) login_attempts ≡ true =
          rw (← kept-recent) (ground (arith, free)) in
        rw (free, allowed)
          (record {
            ordered = put-IsOrdered (kept ++ now ∷ []) (concat-IsOrdered now kept kept-IsOrdered);
            same = put-recent (kept ++ now ∷ []) (now ∷ []) kept_now-log;
          })
  ]

-- A list of attempts, its times not falling from `last` on.
abbrev pub IsRising : ℕ → List (String × ℕ) → Type 0
IsRising last [] = Unit
IsRising last ((key, now) ∷ rest) = (last ≤ now) × IsRising now rest

-- Whether each attempt is allowed, by the limiter and by the history.
pub answers : List (String × ℕ) → Attempts → List Bool
answers [] attempts = []
answers ((key, now) ∷ rest) attempts =
    let (wait, attempts') = hit key now attempts in is_none wait ∷ answers rest attempts'

pub allowed : List (String × ℕ) → Log → List Bool
allowed [] log = []
allowed ((key, now) ∷ rest) log =
    let (yes_or_no, log') = allow key now log in yes_or_no ∷ allowed rest log'

answers-allowed_from :
    (calls : List (String × ℕ)) (last : ℕ) (attempts : Attempts) (log : Log)
    → IsRising last calls
    → Refines last attempts log
    → answers calls attempts ≡ allowed calls log
unfolding answers allowed
answers-allowed_from [] last attempts log h r = refl
answers-allowed_from ((key, now) ∷ rest) last attempts log (le, h) r =
    ap₂ ◌∷◌ (answer-allow key last now attempts log le r)
      (answers-allowed_from rest now _ _ h (hit-Refines key last now attempts log le r))

-- From an empty limiter, over any attempts of any keys whose times do not fall, the limiter allows
-- exactly those that come when fewer than `login_attempts` attempts of the same key were allowed within the last
-- minute: the purge of stale keys and the popping of old attempts change no answer.
pub answers-allowed :
    (calls : List (String × ℕ))
    → IsRising 0 calls
    → answers calls (λ _. none) ≡ allowed calls (λ _. [])
answers-allowed calls h =
    answers-allowed_from calls 0 _ _ h (record { ordered = λ _. tt; same = λ _. refl })
