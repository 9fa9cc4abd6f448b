-- ===== src/Jobs/Import.antt =====
-- backend/app/jobs/pipeline.py, the import step: ask Radarr or Sonarr to move the file into its
-- library, then check that it did. Parameter: `retrying`, the loop of tenacity over the attempts, with
-- their number.
pub mod Asking
pub mod Verdict
mod Tests
use fetcharr.Base.{
  ℕ, String, not, Option, none, some, List, [], ◌∷◌, map, is_some, cat, join, show, if◌then◌else◌,
}
use text.Mathlib.Text.{find?}
use fetcharr.Jobs.Status.{imported, not_imported, error}
use fetcharr.Jobs.Service.{is_imported}
use fetcharr.Jobs.Rejections.{Rejection, explain}
use fetcharr.Jobs.Rows
use fetcharr.Jobs.Rows.{rejected, errored, Field}
use fetcharr.Jobs.Manager.{Target, movie_target, other_target, or_text}
use fetcharr.Jobs.Import.Asking.{
  poll, Answer, ImportPlan, ImportOutcome, message_of, Answers, Trail, say, verify, send_command,
  auth_error, crashed, done, raised,
}

abbrev pub imported_outcome : Option String → String → ImportOutcome
imported_outcome command path = record {
  status = imported;
  command_id = command;
  detail = none;
  path = some path;
}

-- The verdict of an app that left the file where it is.
judge :
    ImportPlan → Answers → String → Answer (List Rejection) → Trail → Answer ImportOutcome × Trail
judge plan answers command (raised fault) trail = (raised fault, trail)
judge plan answers command (done rejections) trail =
    let reasons = map (λ r. r.reason) rejections in
    let explanation = explain plan.app answers.measured rejections in
    let said = or_text (some (join "; " reasons)) "no reason given" in
    let because : String = elim explanation [ none ↦ "" | some text ↦ cat (" — " ∷ text ∷ []) ] in
    (
      done (record {
        status = not_imported;
        command_id = some command;
        detail = some (rejected reasons explanation);
        path = none;
      }),
      say (cat (plan.app ∷ " did not import the file: " ∷ said ∷ because ∷ [])) trail,
    )

after_verify :
    ImportPlan → Answers → String → Answer (Option String) × Trail → Answer ImportOutcome × Trail
unfolding judge
after_verify plan answers command (raised fault, trail) = (raised fault, trail)
after_verify plan answers command (done (some path), trail) =
    (done (imported_outcome (some command) path), trail)
after_verify plan answers command (done none, trail) =
    judge plan answers command answers.rejections trail

after_poll :
    ImportPlan → Answers → String → Answer (Unit {0}) → Trail → Answer ImportOutcome × Trail
unfolding after_verify
after_poll plan answers command (raised fault) trail = (raised fault, trail)
after_poll plan answers command (done tt) trail =
    after_verify plan answers command
      (verify plan answers.present_after answers.library_after trail)

after_send : ImportPlan → Answers → Answer String × Trail → Answer ImportOutcome × Trail
unfolding after_poll
after_send plan answers (raised fault, trail) = (raised fault, trail)
after_send plan answers (done command, trail) =
    let line = cat (plan.app ∷ " command " ∷ command ∷ ": " ∷ plan.send ∷ []) in
    after_poll plan answers command (poll plan.app command answers.polled answers.rounds 0)
      (say line (record trail { last_command = some command }))

-- What follows the verification that comes first.
attempt_from : ImportPlan → Answers → Answer (Option String) × Trail → Answer ImportOutcome × Trail
unfolding after_send
attempt_from plan answers (raised fault, trail) = (raised fault, trail)
attempt_from plan answers (done (some path), trail) = (
  done (imported_outcome trail.last_command path),
  say (cat (plan.app ∷ " already has this file; nothing to send" ∷ [])) trail,
)
attempt_from plan answers (done none, trail) =
    after_send plan answers (send_command plan answers trail)

-- `_import_once`
unfoldable pub import_once : ImportPlan → Answers → Trail → Answer ImportOutcome × Trail
unfolding attempt_from
import_once plan answers trail =
    attempt_from plan answers (verify plan answers.present answers.library trail)

-- `_failed`
unfoldable pub failed_outcome : String → Option String → ImportOutcome
failed_outcome message command =
    let hint =
      if is_some (find? message "API key") then some "check the API key in Settings" else none in
    record {
      status = error;
      command_id = command;
      detail = some (errored message hint);
      path = none;
    }

-- The `except` clauses of `_import_with_retries`: what the last attempt raised is the verdict, but for
-- an exception that is no answer of the app's.
unfoldable pub caught : ℕ × (Answer ImportOutcome × Trail) → Answer (ℕ × ImportOutcome) × Trail
caught (attempts, (done outcome, trail)) = (done (attempts, outcome), trail)
caught (attempts, (raised (crashed kind message), trail)) = (raised (crashed kind message), trail)
caught (attempts, (raised (auth_error message), trail)) = (
  done (attempts, failed_outcome message trail.last_command),
  say (cat ("import failed: " ∷ message ∷ [])) trail,
)
caught (attempts, (raised fault, trail)) = (
  done (attempts, failed_outcome (message_of fault) trail.last_command),
  say (cat ("import failed after " ∷ show attempts ∷ " attempts: " ∷ message_of fault ∷ [])) trail,
)

-- The fields of the import's checkpoint.
unfoldable pub import_fields : ℕ → ℕ × ImportOutcome → List Field
import_fields now (attempts, outcome) =
    Rows.import_status outcome.status
    ∷ Rows.import_command_id outcome.command_id
    ∷ Rows.import_attempts attempts
    ∷ Rows.import_detail outcome.detail
    ∷ Rows.imported_path outcome.path
    ∷ Rows.imported_at (if is_imported outcome.status then some now else none)
    ∷ []

unfoldable pub not_configured : Target → String
not_configured (movie_target title year) = "Radarr is not configured in Settings"
not_configured (other_target title id) = "Radarr is not configured in Settings"
not_configured _ = "Sonarr is not configured in Settings"

unconfigured : Target → ImportOutcome
unconfigured target = record {
  status = not_imported;
  command_id = none;
  detail = some (rejected (not_configured target ∷ []) none);
  path = none;
}

abbrev pub untouched : Trail
untouched = record { last_command = none; log = []; pruned = [] }

fields_of : ℕ → Answer (ℕ × ImportOutcome) × Trail → Answer (List Field) × Trail
fields_of now (done verdict, trail) = (done (import_fields now verdict), trail)
fields_of now (raised fault, trail) = (raised fault, trail)

-- The body of the loop: the attempt of that number.
abbrev pub attempt : ImportPlan → (ℕ → Answers) → ℕ → Trail → Answer ImportOutcome × Trail
attempt plan answers number trail = import_once plan (answers number) (
    say
      (cat
        ("import attempt " ∷ show number ∷ ": asking " ∷ plan.app ∷ " to import " ∷ plan.send ∷ []))
      trail)

-- `_import`, up to its checkpoint: the fields to write, or the exception that fails the job.
module _
    (retrying : (ℕ → Trail → Answer ImportOutcome × Trail)
      → Trail
      → ℕ × (Answer ImportOutcome × Trail)) where
  unfoldable pub import_step :
      ℕ → Target → Option ImportPlan → (ℕ → Answers) → Answer (List Field) × Trail
  unfolding unconfigured fields_of
  import_step now target none answers =
      (done (import_fields now (0, unconfigured target)), say (not_configured target) untouched)
  import_step now target (some plan) answers =
      fields_of now (caught (retrying (attempt plan answers) untouched))
