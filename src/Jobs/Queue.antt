-- ===== src/Jobs/Queue.antt =====
-- backend/app/jobs/manager.py, `JobManager._claim`: the oldest queued job is taken from the table.
-- `now` is `utcnow()`; a claim is one transaction.
mod Order
pub mod Claim
use fetcharr.Base.{ℕ, Bool, true, false, Option, none, some, List, [], ◌∷◌, if◌then◌else◌}
use Prim.Native.Nat.{Ordering, compare}
use Prim.Native.String.{compare as compare_text}
use fetcharr.Events.{job_state}
use fetcharr.Jobs.Status.{starting, is_queued}
use fetcharr.Jobs.Rows
use fetcharr.Jobs.Rows.{Job, Request}
use fetcharr.Jobs.App.{App, find_request, alter, publish}

-- The order of the claim. A missing value sorts first, as SQLite sorts NULL.
compare_option : Option ℕ → Option ℕ → Ordering
compare_option none none = Ordering.eq
compare_option none (some b) = Ordering.lt
compare_option (some a) none = Ordering.gt
compare_option (some a) (some b) = compare a b

then_by : Ordering → Ordering → Ordering
then_by Ordering.eq next = next
then_by first next = first

-- `ORDER BY requests.created_at, jobs.created_at, season, episode, air_date, id`
unfoldable pub claim_order : Job × Request → Job × Request → Ordering
unfolding compare_option then_by
claim_order (j, r) (k, s) = then_by (compare r.created_at s.created_at) (
    then_by (compare j.created_at k.created_at) (
      then_by (compare_option j.season k.season) (
        then_by (compare_option j.episode k.episode)
          (then_by (compare_option j.air_date k.air_date) (compare_text j.id k.id)))))

abbrev pub is_before : Job × Request → Job × Request → Bool
is_before a b = elim (claim_order a b) [ Ordering.lt ↦ true | _ ↦ false ]

-- The queued jobs, each with its request: the join of the claim's query.
unfoldable pub candidates : List Request → List Job → List (Job × Request)
candidates requests [] = []
candidates requests (j ∷ rest) =
    let more = candidates requests rest in
    if is_queued j.status
    then elim (find_request j.request_id requests) [ none ↦ more | some r ↦ (j, r) ∷ more ]
    else more

-- The first of the rows in the claim's order: `LIMIT 1`.
unfoldable pub better : Job × Request → Option (Job × Request) → Job × Request
better row none = row
better row (some best) = if is_before row best then row else best

unfoldable pub first_of_rows : List (Job × Request) → Option (Job × Request)
first_of_rows [] = none
first_of_rows (row ∷ rest) = some (better row (first_of_rows rest))

abbrev pub claimed_row : ℕ → Job → Job
claimed_row now job = record job {
  status = starting;
  phase = none;
  error_code = none;
  error_message = none;
  started_at = elim job.started_at [ none ↦ some now | some at ↦ some at ];
}

-- `_claim`: the row and its request as they were, for `_Claimed`.
unfoldable pub claim_row : ℕ → App → Option (Job × Request) → Option (Job × Request) × App
claim_row now app none = (none, app)
claim_row now app (some (job, request)) = (
  some (job, request),
  publish (job_state job.id starting none none)
      (record app { jobs = alter job.id (claimed_row now) app.jobs }),
)

unfoldable pub claim : ℕ → App → Option (Job × Request) × App
claim now app = claim_row now app (first_of_rows (candidates app.requests app.jobs))
