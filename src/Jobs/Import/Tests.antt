-- ===== src/Jobs/Import/Tests.antt =====
-- One import of a film: the file goes away, and Radarr lists it.
use fetcharr.Base.{ℕ, Bool, true, false, ◌≡◌, refl, none, some, []}
use fetcharr.Jobs.Status.{not_imported}
use fetcharr.Jobs.Rows.{rejected}
use fetcharr.Jobs.Manager.{movie_target}
use fetcharr.Jobs.Rejections.{explain}
use fetcharr.Jobs.Service.{is_imported}
use fetcharr.Jobs.Import.{
  import_once, attempt, untouched, import_step, import_fields, imported_outcome,
}
use fetcharr.Jobs.Import.Asking.{
  Answer, done, raised, transport_error, ImportPlan, ImportOutcome, Answers, Trail, verify,
  send_command, poll,
}
use fetcharr.Jobs.Import.Verdict.{import_once-unlisted, import_step-verdict, is_crash}

abbrev plan : Bool → ImportPlan
plan known = record {
  app = "Radarr";
  scan = "DownloadedMoviesScan";
  send = "/completed/movies/Film";
  folder = "/completed/movies/Film";
  root = "/completed/movies";
  has_lookup = known;
}

abbrev answers : Answers
answers = record {
  present = true;
  library = done none;
  sent = λ path. done "7";
  polled = λ round. done "completed";
  rounds = 3;
  present_after = false;
  library_after = done (some "/library/Film.mp4");
  rejections = done [];
  measured = none;
}

abbrev outcome : ImportOutcome
outcome = imported_outcome (some "7") "/library/Film.mp4"

-- The same, for a film whose title was typed by hand.
abbrev refused : ImportOutcome
refused = record {
  status = not_imported;
  command_id = some "7";
  detail = some (rejected [] none);
  path = none;
}

is_refused : (import_once (plan false) answers untouched).0 ≡ done refused
unfolding import_once verify send_command poll explain
is_refused = refl

import_once-unlisted_example : is_imported refused.status ≡ false
import_once-unlisted_example =
    import_once-unlisted (plan false) answers untouched refused refl is_refused

-- A loop that makes one attempt.
abbrev once :
    (ℕ → Trail → Answer ImportOutcome × Trail) → Trail → ℕ × (Answer ImportOutcome × Trail)
once body trail = (1, body 1 trail)

abbrev unwell : ℕ → Answers
unwell number = record answers { sent = λ path. raised (transport_error "connection reset") }

no_crash : is_crash (once (attempt (plan true) unwell) untouched).1.0 ≡ false
unfolding import_once verify send_command poll
no_crash = refl

import_step-verdict_example :
    (result : ImportOutcome) × ((import_step once 5
        (movie_target "Film" none)
        (some (plan true))
        unwell).0
      ≡ done (import_fields 5 (1, result)))
import_step-verdict_example =
    import_step-verdict once 5 (movie_target "Film" none) (plan true) unwell no_crash
