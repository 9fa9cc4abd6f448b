-- ===== src/Jobs/Import/Asking.antt =====
-- backend/app/jobs/pipeline.py: what an attempt of an import asks of the arr app and of the file system,
-- the verification, the command and its polling. What they answer during one attempt is an `Answers`.
use fetcharr.Base.{
  ℕ, zero, suc, String, Bool, true, false, ◌||◌, Option, none, some, List, [], ◌∷◌, ◌++◌, is_some,
  cat, str_eq, if◌then◌else◌,
}
use fetcharr.Jobs.Status.{ImportStatus}
use fetcharr.Jobs.Rejections.{Rejection}
use fetcharr.Jobs.Rows.{ImportDetail}
use fetcharr.Jobs.Manager.{Target, movie_target, other_target}

-- The errors of backend/app/integrations/arr.py and of httpx, with their message; and any other
-- exception, with its class.
pub data Fault : Type 0 where
  auth_error client_error server_error timed_out arr_error transport_error http_error :
      String → Fault
  crashed : String → String → Fault

pub data Answer (A : Type 0) : Type 0 where
  done : A → Answer A
  raised : Fault → Answer A

-- `_ImportPlan`; of `lookup` it is kept whether there is one.
pub record ImportPlan : Type 0 where
  pub app : String
  pub scan : String
  pub send : String
  pub folder : String
  pub root : String
  pub has_lookup : Bool

pub record ImportOutcome : Type 0 where
  pub status : ImportStatus
  pub command_id : Option String
  pub detail : Option ImportDetail
  pub path : Option String

abbrev pub message_of : Fault → String
message_of (auth_error m) = m
message_of (client_error m) = m
message_of (server_error m) = m
message_of (timed_out m) = m
message_of (arr_error m) = m
message_of (transport_error m) = m
message_of (http_error m) = m
message_of (crashed kind m) = m

-- What one attempt meets: whether the file is there and what the looked up resource gives as the
-- file's path, before and after the command; the answer to a command for a path; the lower-cased
-- status at each poll, and how many polls come before the deadline has passed; the rejections, and
-- the length that ffprobe measures, in whole seconds.
pub record Answers : Type 0 where
  pub present : Bool
  pub library : Answer (Option String)
  pub sent : String → Answer String
  pub polled : ℕ → Answer String
  pub rounds : ℕ
  pub present_after : Bool
  pub library_after : Answer (Option String)
  pub rejections : Answer (List Rejection)
  pub measured : Option ℕ

-- What the attempts share and leave: `last_command`, the log, and the folders that were pruned.
pub record Trail : Type 0 where
  pub last_command : Option String
  pub log : List String
  pub pruned : List (String × String)

abbrev pub say : String → Trail → Trail
say line trail = record trail { log = trail.log ++ line ∷ [] }

-- `_plan`; the flags tell whether the app's client and connection are there, `send_file` is the
-- completed path.
unfoldable pub plan_of :
    Target
    → (radarr sonarr : Bool) → (movie_id episode_id : Option ℕ)
    → (completed_path folder completed_dir : String) → Option ImportPlan
plan_of (movie_target title year) radarr sonarr movie_id episode_id completed_path folder
      completed_dir =
    if radarr
    then some (record {
      app = "Radarr";
      scan = "DownloadedMoviesScan";
      send = folder;
      folder = folder;
      root = cat (completed_dir ∷ "/movies" ∷ []);
      has_lookup = is_some movie_id;
    })
    else none
plan_of (other_target title id) radarr sonarr movie_id episode_id completed_path folder
      completed_dir =
    none
plan_of _ radarr sonarr movie_id episode_id completed_path folder completed_dir =
    if sonarr
    then some (record {
      app = "Sonarr";
      scan = "DownloadedEpisodesScan";
      send = completed_path;
      folder = folder;
      root = cat (completed_dir ∷ "/tv-shows" ∷ []);
      has_lookup = is_some episode_id;
    })
    else none

-- `str(… or "") or None`: an empty path counts as none.
unfoldable pub library_path : Option String → Option String
library_path none = none
library_path (some path) = if str_eq path "" then none else some path

abbrev pub prune_folder : ImportPlan → Trail → Trail
prune_folder plan trail = record trail { pruned = trail.pruned ++ (plan.folder, plan.root) ∷ [] }

-- `_verify` from the lookup's answer on, when the file is gone
unfoldable pub listed : ImportPlan → Answer (Option String) → Trail → Answer (Option String) × Trail
listed plan (raised fault) trail = (raised fault, trail)
listed plan (done none) trail = (done none, trail)
listed plan (done (some path)) trail = (done (some path), prune_folder plan trail)

unfoldable pub found : Answer (Option String) → Answer (Option String)
found (raised fault) = raised fault
found (done path) = done (library_path path)

unfoldable pub verify :
    ImportPlan → Bool → Answer (Option String) → Trail → Answer (Option String) × Trail
unfolding listed found library_path
verify plan true library trail = (done none, trail)
verify plan false library trail =
    if plan.has_lookup
    then listed plan (found library) trail
    else (done none, prune_folder plan trail)

-- `_send_command`: the narrow path, and the folder if the app refuses that.
unfoldable pub send_command : ImportPlan → Answers → Trail → Answer String × Trail
send_command plan answers trail = elim (answers.sent plan.send) [
  | done id ↦ (done id, trail)
  | raised (client_error message) ↦
      let line = cat (
        plan.app ∷ " refused the file path (" ∷ message ∷ "); sending " ∷ plan.folder ∷ " instead"
        ∷ []) in
      if str_eq plan.send plan.folder
      then (raised (client_error message), trail)
      else (answers.sent plan.folder, say line trail)
  | raised fault ↦ (raised fault, trail)
]

abbrev pub is_finished : String → Bool
is_finished status =
    str_eq status "completed" || (str_eq status "failed" || str_eq status "aborted")

-- `_poll`, with so many rounds left before the deadline
unfoldable pub poll :
    (app command : String) → (ℕ → Answer String) → (left round : ℕ) → Answer (Unit {0})
poll app command polled zero round = elim (polled round) [
  | raised fault ↦ raised fault
  | done status ↦
      let said = if str_eq status "" then "unknown" else status in
      if is_finished status
      then done tt
      else raised (timed_out (cat (app ∷ " command " ∷ command ∷ " was still " ∷ said ∷ [])))
]
poll app command polled (suc left) round =
    let later = poll app command polled left (suc round) in
    elim (polled round) [
      | raised fault ↦ raised fault
      | done status ↦ if is_finished status then done tt else later
    ]
