-- ===== src/Jobs/Import/Verdict.antt =====
-- What an import's verdict rests on: backend/app/jobs/pipeline.py, `_import_once` and its callers.
use fetcharr.Base.{
  ◌+◌, ◌≤◌, zero, suc, eq_iff, ℕ, String, Bool, true, false, ◌≡◌, ◌≢◌, refl, ◌⊎◌, inl, inr, Option,
  none, some, List, arith, str_eq, Bool-cases,
}
use fetcharr.Jobs.Service.{is_imported}
use fetcharr.Jobs.Rejections.{Rejection}
use fetcharr.Jobs.Manager.{Target}
use fetcharr.Jobs.Import.{
  caught, attempt, untouched, import_step, import_fields, fields_of, import_once, attempt_from,
  after_send, after_poll, after_verify, judge,
}
use fetcharr.Jobs.Import.Asking.{
  listed, found, library_path, auth_error, client_error, server_error, timed_out, arr_error,
  transport_error, http_error, Answer, done, raised, crashed, ImportPlan, ImportOutcome, Answers,
  Trail, verify, send_command, poll, is_finished, Fault,
}

-- The file is gone and the app lists it at that path: what `_verify` answers with a path for.
abbrev pub Listed : ImportPlan → Bool → Answer (Option String) → String → Type 0
Listed plan present library path =
    (plan.has_lookup ≡ true)
    × (present ≡ false)
    × (library ≡ done (some path))
    × (str_eq path "" ≡ false)

verify-Listed :
    (plan : ImportPlan) (present : Bool) (library : Answer (Option String)) (trail : Trail)
    (path : String)
    → (verify plan present library trail).0 ≡ done (some path)
    → Listed plan present library path
unfolding verify listed found library_path
verify-Listed plan true library trail path h = absurd (ground (arith, h))
verify-Listed plan false (raised fault) trail path h = absurd (ground (arith, h))
verify-Listed plan false (done none) trail path h = absurd (ground (arith, h))
verify-Listed plan false (done (some p)) trail path h = ground (arith, h)

-- What an outcome that says imported rests on.
abbrev pub RestsOn : ImportOutcome → (String → Type 0) → Type 0
RestsOn outcome P = (path : String) × (outcome.path ≡ some path) × P path

no_verdict :
    (plan : ImportPlan) (answers : Answers) (command : String)
    (rejections : Answer (List Rejection)) (trail : Trail) (outcome : ImportOutcome)
    → (judge plan answers command rejections trail).0 ≡ done outcome
    → is_imported outcome.status ≢ true
unfolding judge
no_verdict plan answers command (raised fault) trail outcome h i = absurd (ground (arith, h))
no_verdict plan answers command (done rejections) trail outcome h i = absurd (ground (arith, h, i))

after_verify-RestsOn :
    (plan : ImportPlan) (answers : Answers) (command : String) (r : Answer (Option String) × Trail)
    (outcome : ImportOutcome)
    → (after_verify plan answers command r).0 ≡ done outcome
    → is_imported outcome.status ≡ true
    → RestsOn outcome (λ path. r.0 ≡ done (some path))
unfolding after_verify judge
after_verify-RestsOn plan answers command (raised fault, trail) outcome h i =
    absurd (ground (arith, h))
after_verify-RestsOn plan answers command (done (some path), trail) outcome h i =
    (path, ground (arith, h), refl)
after_verify-RestsOn plan answers command (done none, trail) outcome h i =
    absurd (no_verdict plan answers command answers.rejections trail outcome h i)

-- A command that the app took, for the narrow path or for the folder, and that a poll before the deadline
-- or at it found completed, failed or aborted.
pub record Ended (plan : ImportPlan) (answers : Answers) : Type 0 where
  pub command : String
  pub taken : (answers.sent plan.send ≡ done command) ⊎ (answers.sent plan.folder ≡ done command)
  pub round : ℕ
  pub status : String
  pub in_time : round ≤ answers.rounds
  pub polled : answers.polled round ≡ done status
  pub over : (status ≡ "completed") ⊎ ((status ≡ "failed") ⊎ (status ≡ "aborted"))

-- The poll that found the command over.
abbrev Over : (ℕ → Answer String) → ℕ → ℕ → Type 0
Over polled first last =
    (round : ℕ) × ((status : String) × (first ≤ round)
      × (round ≤ last)
      × (polled round ≡ done status)
      × ((status ≡ "completed") ⊎ ((status ≡ "failed") ⊎ (status ≡ "aborted"))))

Answer-cases :
    {A : Type 0} (a : Answer A) → ((x : A) × (a ≡ done x)) ⊎ ((f : Fault) × (a ≡ raised f))
Answer-cases (done x) = inl (x, refl)
Answer-cases (raised f) = inr (f, refl)

is_finished-over :
    (status : String)
    → is_finished status ≡ true
    → (status ≡ "completed") ⊎ ((status ≡ "failed") ⊎ (status ≡ "aborted"))
is_finished-over status h = elim (Bool-cases (str_eq status "completed")) [
  | inl e ↦ inl ((eq_iff status "completed").0 e)
  | inr e ↦ elim (Bool-cases (str_eq status "failed")) [
    | inl f ↦ inr (inl ((eq_iff status "failed").0 f))
    | inr f ↦ inr (inr ((eq_iff status "aborted").0 (ground (arith, h, e, f))))
  ]
]

poll-Over :
    (app command : String) (polled : ℕ → Answer String) (left round : ℕ)
    → poll app command polled left round ≡ done tt
    → Over polled round (round + left)
unfolding poll
poll-Over app command polled zero round h = elim (Answer-cases (polled round)) [
  | inr (f, e) ↦ absurd (ground (arith, h, e))
  | inl (status, e) ↦ elim (Bool-cases (is_finished status)) [
    | inl over ↦ (round, (status, omega arith, omega arith, e, is_finished-over status over))
    | inr on ↦ absurd (ground (arith, h, e, on))
  ]
]
poll-Over app command polled (suc left) round h = elim (Answer-cases (polled round)) [
  | inr (f, e) ↦ absurd (ground (arith, h, e))
  | inl (status, e) ↦ elim (Bool-cases (is_finished status)) [
    | inl over ↦ (round, (status, omega arith, omega arith, e, is_finished-over status over))
    | inr on ↦
        let (k, (said, low, high, found, over)) =
          poll-Over app command polled left (suc round) (ground (arith, h, e, on)) in
        (k, (said, omega (arith, low), omega (arith, high), found, over))
  ]
]

send_command-taken :
    (plan : ImportPlan) (answers : Answers) (trail : Trail) (command : String)
    → (send_command plan answers trail).0 ≡ done command
    → (answers.sent plan.send ≡ done command) ⊎ (answers.sent plan.folder ≡ done command)
unfolding send_command
send_command-taken plan answers trail command h = elim (Answer-cases (answers.sent plan.send)) [
  | inl (id, e) ↦ inl (ground (arith, h, e))
  | inr (client_error m, e) ↦ elim (Bool-cases (str_eq plan.send plan.folder)) [
    | inl f ↦ absurd (ground (arith, h, e, f))
    | inr f ↦ inr (ground (arith, h, e, f))
  ]
  | inr (f, e) ↦ absurd (ground (arith, h, e))
]

-- The file was gone and listed after a command that was over.
abbrev AfterCommand : ImportPlan → Answers → String → Type 0
AfterCommand plan answers path =
    Ended plan answers × Listed plan answers.present_after answers.library_after path

after_poll-RestsOn :
    (plan : ImportPlan) (answers : Answers) (command : String) (polled : Answer (Unit {0}))
    (trail : Trail) (outcome : ImportOutcome)
    → (polled ≡ done tt → Ended plan answers)
    → (after_poll plan answers command polled trail).0 ≡ done outcome
    → is_imported outcome.status ≡ true
    → RestsOn outcome (AfterCommand plan answers)
unfolding after_poll
after_poll-RestsOn plan answers command (raised fault) trail outcome ended h i =
    absurd (ground (arith, h))
after_poll-RestsOn plan answers command (done tt) trail outcome ended h i =
    let seen = verify plan answers.present_after answers.library_after trail in
    let (path, same, listed) = after_verify-RestsOn plan answers command seen outcome h i in
    (
      path,
      same,
      (
        ended refl,
        verify-Listed plan answers.present_after answers.library_after trail path listed,
      ),
    )

after_send-RestsOn :
    (plan : ImportPlan) (answers : Answers) (r : Answer String × Trail) (outcome : ImportOutcome)
    → ((command : String)
        → r.0 ≡ done command
        → (answers.sent plan.send ≡ done command) ⊎ (answers.sent plan.folder ≡ done command))
    → (after_send plan answers r).0 ≡ done outcome
    → is_imported outcome.status ≡ true
    → RestsOn outcome (AfterCommand plan answers)
unfolding after_send
after_send-RestsOn plan answers (raised fault, trail) outcome taken h i = absurd (ground (arith, h))
after_send-RestsOn plan answers (done command, trail) outcome taken h i =
    after_poll-RestsOn plan answers command _ _ outcome
      (λ over.
        let (round, (status, low, high, found, said)) =
          poll-Over plan.app command answers.polled answers.rounds 0 over in
        record {
          command = command;
          taken = taken command refl;
          round = round;
          status = status;
          in_time = omega (arith, high);
          polled = found;
          over = said;
        })
      h i

-- The file was gone and listed before the command, or after it was over.
abbrev pub Moved : ImportPlan → Answers → String → Type 0
Moved plan answers path =
    Listed plan answers.present answers.library path
    ⊎ (Ended plan answers × Listed plan answers.present_after answers.library_after path)

attempt_from-RestsOn :
    (plan : ImportPlan) (answers : Answers) (r : Answer (Option String) × Trail)
    (outcome : ImportOutcome)
    → ((path : String) → r.0 ≡ done (some path) → Listed plan answers.present answers.library path)
    → (attempt_from plan answers r).0 ≡ done outcome
    → is_imported outcome.status ≡ true
    → RestsOn outcome (Moved plan answers)
unfolding attempt_from
attempt_from-RestsOn plan answers (raised fault, trail) outcome seen h i =
    absurd (ground (arith, h))
attempt_from-RestsOn plan answers (done (some path), trail) outcome seen h i =
    (path, ground (arith, h), inl (seen path refl))
attempt_from-RestsOn plan answers (done none, trail) outcome seen h i =
    let (path, same, listed) =
      after_send-RestsOn plan answers (send_command plan answers trail) outcome
        (send_command-taken plan answers trail) h i in
    (path, same, inr listed)

pub import_once-RestsOn :
    (plan : ImportPlan) (answers : Answers) (trail : Trail) (outcome : ImportOutcome)
    → (import_once plan answers trail).0 ≡ done outcome
    → is_imported outcome.status ≡ true
    → RestsOn outcome (Moved plan answers)
unfolding import_once
import_once-RestsOn plan answers trail outcome h i =
    attempt_from-RestsOn plan answers (verify plan answers.present answers.library trail) outcome
      (λ path. verify-Listed plan answers.present answers.library trail path) h i

-- For a title that was typed by hand, so that there is no id to look up, no attempt ever says that the
-- file was imported, whatever the app did with it and even when it is gone.
pub import_once-unlisted :
    (plan : ImportPlan) (answers : Answers) (trail : Trail) (outcome : ImportOutcome)
    → plan.has_lookup ≡ false
    → (import_once plan answers trail).0 ≡ done outcome
    → is_imported outcome.status ≡ false
import_once-unlisted plan answers trail outcome h same =
    elim (Bool-cases (is_imported outcome.status)) [
      | inr e ↦ e
      | inl e ↦
          let (path, at, moved) = import_once-RestsOn plan answers trail outcome same e in
          elim moved [
            | inl here ↦ absurd (ground (arith, h, here.0))
            | inr here ↦ absurd (ground (arith, h, here.0))
          ]
    ]

abbrev pub is_crash : Answer ImportOutcome → Bool
is_crash (raised (crashed kind message)) = true
is_crash _ = false

caught-done :
    (r : ℕ × (Answer ImportOutcome × Trail))
    → is_crash r.1.0 ≡ false
    → (outcome : ImportOutcome) × ((caught r).0 ≡ done (r.0, outcome))
unfolding caught
caught-done (attempts, (done outcome, trail)) h = (outcome, refl)
caught-done (attempts, (raised (crashed kind message), trail)) h = absurd (ground arith)
caught-done (attempts, (raised (auth_error message), trail)) h = (_, refl)
caught-done (attempts, (raised (client_error message), trail)) h = (_, refl)
caught-done (attempts, (raised (server_error message), trail)) h = (_, refl)
caught-done (attempts, (raised (timed_out message), trail)) h = (_, refl)
caught-done (attempts, (raised (arr_error message), trail)) h = (_, refl)
caught-done (attempts, (raised (transport_error message), trail)) h = (_, refl)
caught-done (attempts, (raised (http_error message), trail)) h = (_, refl)

fields_of-done :
    (now : ℕ) (r : Answer (ℕ × ImportOutcome) × Trail) (verdict : ℕ × ImportOutcome)
    → r.0 ≡ done verdict
    → (fields_of now r).0 ≡ done (import_fields now verdict)
unfolding fields_of
fields_of-done now (done v, trail) verdict h = ground (arith, h)
fields_of-done now (raised fault, trail) verdict h = absurd (ground (arith, h))

-- Whatever the arr app answers, an import does not fail the job: unless the last attempt ended with an
-- exception that is neither the app's nor the connection's, the step ends with the fields of a
-- checkpoint, with the number of the attempts that were made.
pub import_step-verdict :
    (retrying : (ℕ → Trail → Answer ImportOutcome × Trail)
      → Trail
      → ℕ × (Answer ImportOutcome × Trail))
    (now : ℕ) (target : Target) (plan : ImportPlan) (answers : ℕ → Answers)
    → is_crash (retrying (attempt plan answers) untouched).1.0 ≡ false
    → (outcome : ImportOutcome) × ((import_step retrying now target (some plan) answers).0
        ≡ done (import_fields now ((retrying (attempt plan answers) untouched).0, outcome)))
unfolding import_step fields_of
import_step-verdict retrying now target plan answers h =
    let tried = retrying (attempt plan answers) untouched in
    let (outcome, same) = caught-done tried h in
    (outcome, fields_of-done now (caught tried) (tried.0, outcome) same)
