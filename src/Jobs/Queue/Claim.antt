-- ===== src/Jobs/Queue/Claim.antt =====
-- What a claim answers with, backend/app/jobs/manager.py, `_claim`.
use mathlib.Core.List.{Memᴰ}
use mathlib.Core.Path.{subst}
use mathlib.Core.Option.{some-injective}
use fetcharr.Base.{
  ap, ℕ, String, ◌≡◌, ◌≢◌, refl, sym, inl, inr, true, false, Option, none, some, List, [], ◌∷◌, All,
  arith, eq_iff, str_eq, Option-cases, Bool-cases,
}
use fetcharr.Jobs.Status.{is_queued}
use fetcharr.Jobs.Rows.{Job, Request}
use fetcharr.Jobs.App.{App, find_request, alter}
use fetcharr.Jobs.Queue.{
  better, claim_row, is_before, candidates, first_of_rows, claimed_row, claim,
}
use fetcharr.Jobs.Queue.Order.{is_before_trans, is_before_irrefl}

abbrev pub Row : Type 0
Row = Job × Request

-- The rows that a row is not preceded by.
abbrev pub IsFirst : Row → List Row → Type 0
IsFirst best rows = All (λ row. is_before row best ≡ false) rows

IsFirst-step :
    (row best : Row) (rows : List Row)
    → is_before row best ≡ true
    → IsFirst best rows
    → IsFirst row rows
IsFirst-step row best [] h all = tt
IsFirst-step row best (x ∷ rows) h (a, all) = (
  elim (Bool-cases (is_before x row)) [
    | inl e ↦ absurd (ground (arith, is_before_trans x row best e h))
    | inr e ↦ e
  ],
  IsFirst-step row best rows h all,
)

none_of_rows : (rows : List Row) → first_of_rows rows ≡ none → rows ≡ []
unfolding first_of_rows
none_of_rows [] h = refl
none_of_rows (row ∷ rows) h = absurd (ground arith)

better-IsFirst :
    (row best : Row) (rows : List Row)
    → IsFirst best rows
    → IsFirst (better row (some best)) (row ∷ rows)
unfolding better
better-IsFirst row best rows rest = elim (Bool-cases (is_before row best)) [
  | inl before ↦
      let same : row ≡ better row (some best) = ground arith in
      subst (λ x. IsFirst x (row ∷ rows)) same
        (is_before_irrefl row, IsFirst-step row best rows before rest)
  | inr later ↦
      let same : best ≡ better row (some best) = ground arith in
      subst (λ x. IsFirst x (row ∷ rows)) same (later, rest)
]

first_of_rows-IsFirst :
    (rows : List Row) (best : Row) → first_of_rows rows ≡ some best → IsFirst best rows
unfolding first_of_rows better
first_of_rows-IsFirst [] best h = tt
first_of_rows-IsFirst (row ∷ rows) best h = elim (Option-cases (first_of_rows rows)) [
  | inl e ↦
      let same : row ≡ best =
        some-injective _ _ (subst (λ o. some (better row o) ≡ some best) e h) in
      let no_rows : rows ≡ [] = none_of_rows rows e in
      subst (λ b. IsFirst b (row ∷ rows)) same
        (subst (λ l. IsFirst row (row ∷ l)) (sym no_rows) (is_before_irrefl row, tt))
  | inr (b, e) ↦
      let same : better row (some b) ≡ best =
        some-injective _ _ (subst (λ o. some (better row o) ≡ some best) e h) in
      subst (λ x. IsFirst x (row ∷ rows)) same
        (better-IsFirst row b rows (first_of_rows-IsFirst rows b e))
]

-- The row is one of the jobs that wait, with its request.
pub record IsWaiting (requests : List Request) (jobs : List Job) (row : Row) : Type 0 where
  pub listed : Memᴰ row.0 jobs
  pub waits : is_queued row.0.status ≡ true
  pub request : find_request row.0.request_id requests ≡ some row.1

-- What holds of every row holds of the better of two, and of the first.
better-All : (P : Row → Type 0) (row best : Row) → P row → P best → P (better row (some best))
unfolding better
better-All P row best p q = elim (Bool-cases (is_before row best)) [
  | inl e ↦ rw e p
  | inr e ↦ rw e q
]

first_of_rows-All :
    (P : Row → Type 0) (rows : List Row) (best : Row)
    → All P rows
    → first_of_rows rows ≡ some best
    → P best
unfolding first_of_rows better
first_of_rows-All P [] best all h = absurd (ground arith)
first_of_rows-All P (row ∷ rows) best (p, all) h = elim (Option-cases (first_of_rows rows)) [
  | inl e ↦ subst P (some-injective _ _ (subst (λ o. some (better row o) ≡ some best) e h)) p
  | inr (b, e) ↦
      subst P (some-injective _ _ (subst (λ o. some (better row o) ≡ some best) e h))
        (better-All P row b p (first_of_rows-All P rows b all e))
]

-- The rows of the query wait, by induction on a table whose jobs are all listed.
candidates-All :
    (requests : List Request) (listed jobs : List Job)
    → ((j : Job) → Memᴰ j jobs → Memᴰ j listed)
    → All (IsWaiting requests listed) (candidates requests jobs)
unfolding candidates
candidates-All requests listed [] inside = tt
candidates-All requests listed (j ∷ jobs) inside =
    let rest : All (IsWaiting requests listed) (candidates requests jobs) =
      candidates-All requests listed jobs (λ k m. inside k (Memᴰ.tail m)) in
    elim (Bool-cases (is_queued j.status)) [
      | inr e ↦ rw e rest
      | inl e ↦ elim (Option-cases (find_request j.request_id requests)) [
        | inl none_found ↦ rw (e, none_found) rest
        | inr (r, found) ↦
            rw (e, found)
              (record { listed = inside j (Memᴰ.head refl); waits = e; request = found }, rest)
      ]
    ]

-- What a claim does: it answers with a queued job of the table and its request, no candidate being
-- before it in the claim's order; or, when there is no candidate, with none, and changes nothing.
abbrev pub Oldest : App → Option Row × App → Type 0
Oldest app (some row, after) =
    IsWaiting app.requests app.jobs row × IsFirst row (candidates app.requests app.jobs)
Oldest app (none, after) = (candidates app.requests app.jobs ≡ []) × (after ≡ app)

claim_row-Oldest :
    (now : ℕ) (app : App) (first : Option Row)
    → first_of_rows (candidates app.requests app.jobs) ≡ first
    → Oldest app (claim_row now app first)
unfolding claim_row
claim_row-Oldest now app none e = (none_of_rows (candidates app.requests app.jobs) e, refl)
claim_row-Oldest now app (some (job, request)) e =
    let rows = candidates app.requests app.jobs in
    let waiting = candidates-All app.requests app.jobs app.jobs (λ j m. m) in
    (
      first_of_rows-All (IsWaiting app.requests app.jobs) rows (job, request) waiting e,
      first_of_rows-IsFirst rows (job, request) e,
    )

-- A claim answers with a queued job of the table and its request, no candidate being before it in
-- the claim's order; when there is no candidate it answers with none, and changes nothing.
pub claim-Oldest : (now : ℕ) (app : App) → Oldest app (claim now app)
unfolding claim
claim-Oldest now app =
    claim_row-Oldest now app (first_of_rows (candidates app.requests app.jobs)) refl

Oldest-waits :
    (app after : App) (answer : Option Row) (row : Row)
    → Oldest app (answer, after)
    → answer ≡ some row
    → IsWaiting app.requests app.jobs row
Oldest-waits app after none row oldest h = absurd (ground arith)
Oldest-waits app after (some best) row oldest h =
    subst (IsWaiting app.requests app.jobs) (some-injective _ _ h) oldest.0

alter-claimed :
    (id : String) (now : ℕ) (jobs : List Job) (k : Job)
    → Memᴰ k (alter id (claimed_row now) jobs)
    → k.id ≡ id
    → is_queued k.status ≡ false
unfolding alter
alter-claimed id now [] k m e = elim m [ ]
alter-claimed id now (j ∷ jobs) k (Memᴰ.head same) e = elim (Bool-cases (str_eq j.id id)) [
  | inl h ↦ ground (arith, same, e)
  | inr h ↦ absurd (ground (arith, same, e, eq_iff j.id id))
]
alter-claimed id now (j ∷ jobs) k (Memᴰ.tail m) e = alter-claimed id now jobs k m e

claim_row-jobs :
    (now : ℕ) (app : App) (first : Option Row) (row : Row)
    → (claim_row now app first).0 ≡ some row
    → (claim_row now app first).1.jobs ≡ alter row.0.id (claimed_row now) app.jobs
unfolding claim_row
claim_row-jobs now app none row h = absurd (ground arith)
claim_row-jobs now app (some (job, request)) row h =
    ap (λ r. alter r.0.id (claimed_row now) app.jobs) (some-injective _ _ h)

-- Two claims, one after the other, never answer with the same job.
pub claim-twice :
    (now later : ℕ) (app : App) (row next : Row)
    → (claim now app).0 ≡ some row
    → (claim later (claim now app).1).0 ≡ some next
    → next.0.id ≢ row.0.id
unfolding claim
claim-twice now later app row next h k same =
    let claimed = (claim now app).1 in
    let again = claim later claimed in
    let waiting = Oldest-waits claimed again.1 again.0 next (claim-Oldest later claimed) k in
    let jobs = claim_row-jobs now app (first_of_rows (candidates app.requests app.jobs)) row h in
    let idle =
      alter-claimed row.0.id now app.jobs next.0 (subst (Memᴰ next.0) jobs waiting.listed) same in
    absurd (ground (arith, idle, waiting.waits))
