-- ===== src/Jobs/App.antt =====
-- The state that the job service and the JobManager share: the rows of the database, the manager's
-- cancel events, and the trace of what went to the event hub and to the file system.
pub mod Table
use fetcharr.Base.{
  ℕ, String, Bool, Option, none, some, List, [], ◌∷◌, ◌++◌, keep, not, str_eq, if◌then◌else◌,
}
use fetcharr.Events.{Event}
use fetcharr.Jobs.Rows.{Job, Request}

-- What is asked of the file system: `unlink`, `rmtree`,
-- `prune_empty_dirs(folder, root)`; of the sites domain, a site's cookies flagged as possibly invalid; and of
-- the event hub, a job's snapshot forgotten.
pub data Effect : Type 0 where
  unlinked removed_tree : String → Effect
  pruned : List String → List String → Effect
  flagged forgotten : String → Effect

-- A row of `job_logs`, in the order of its id.
pub record JobLog : Type 0 where
  pub job_id : String
  pub ts : ℕ
  pub line : String

pub record App : Type 0 where
  pub jobs : List Job
  pub requests : List Request
  pub logs : List JobLog
  -- `_cancels`: the running jobs' events, and whether each is set
  pub cancels : List (String × Bool)
  -- `_wake`
  pub woken : Bool
  pub events : List Event
  pub effects : List Effect

-- `session.get(Job, job_id)`
unfoldable pub find_job : String → List Job → Option Job
find_job id [] = none
find_job id (j ∷ rest) = let later = find_job id rest in if str_eq j.id id then some j else later

-- The rows of a job, changed: `UPDATE … WHERE id = …`, and the write of a loaded row.
unfoldable pub alter : String → (Job → Job) → List Job → List Job
alter id f [] = []
alter id f (j ∷ rest) = (if str_eq j.id id then f j else j) ∷ alter id f rest

-- `DELETE FROM jobs WHERE id = …`
unfoldable pub delete_row : String → List Job → List Job
delete_row id jobs = keep (λ j. not (str_eq j.id id)) jobs

unfoldable pub find_request : String → List Request → Option Request
find_request id [] = none
find_request id (r ∷ rest) =
    let later = find_request id rest in if str_eq r.id id then some r else later

abbrev pub publish : Event → App → App
publish e app = record app { events = app.events ++ e ∷ [] }

abbrev pub effect : Effect → App → App
effect e app = record app { effects = app.effects ++ e ∷ [] }

abbrev pub cancel_state : String → List (String × Bool) → Option Bool
cancel_state id [] = none
cancel_state id ((key, on) ∷ rest) =
    let later = cancel_state id rest in if str_eq key id then some on else later

abbrev pub set_cancel : String → Bool → List (String × Bool) → List (String × Bool)
set_cancel id on [] = (id, on) ∷ []
set_cancel id on ((key, was) ∷ rest) =
    let later = set_cancel id on rest in
    if str_eq key id then (key, on) ∷ rest else (key, was) ∷ later

abbrev pub drop_cancel : String → List (String × Bool) → List (String × Bool)
drop_cancel id [] = []
drop_cancel id ((key, was) ∷ rest) =
    let later = drop_cancel id rest in if str_eq key id then later else (key, was) ∷ later
