-- ===== src/Ytdlp/Runner.antt =====
-- backend/app/ytdlp/runner.py: the output of one run of yt-dlp and its end, and the retries of a download.
-- Parameters: `loads` (json.loads of a progress report), `tenths` (the percentage of two numbers in tenths,
-- as `round` gives it), `is_word` (what `\w` matches), `yt_dlp` (what the process of an attempt prints and
-- leaves, by its number and arguments) and `tenacity` (its loop over the attempts). The numbers of a report
-- are natural. What the runner itself logs is kept with the values that the text is made of.
pub mod Policy
pub mod Logs
mod Tests
use fetcharr.Base.{
  ℕ, suc, ◌+◌, ◌-◌, ◌==◌, ◌≡◌, ◌≤◌, ◌<◌, String, Bool, true, false, not, ◌&&◌, Option, none, some,
  List, [], ◌∷◌, ◌++◌, drop, length, Text, codes, if◌then◌else◌,
}
use fetcharr.Auth.Service.{strip_space, strip_right}
use fetcharr.Transcode.Runner.{ExitCode, exited, is_zero}
use fetcharr.Ytdlp.Command.{downgrade_fragments}
use fetcharr.Ytdlp.Cookies.{split_lines, is_blank}
use fetcharr.Ytdlp.Errors.{
  ErrorKind, needs_cookies, unsupported, unavailable, scrub, classify_error,
}
use fetcharr.Ytdlp.Progress.{Progress, Json, is_postprocessing, parse_progress}

-- How a run or a download ends: with a path, or with what is raised (YtDlpFailed, YtDlpFatal,
-- DownloadCancelled, and an exception that is none of these).
pub data Outcome : Type 0 where
  downloaded : Text → Outcome
  failed_run : ExitCode → Text → Outcome
  fatal : ErrorKind → Text → Outcome
  cancelled : Outcome
  crashed : String → Outcome

unfoldable pub last_path : List Text → Outcome
last_path [] = failed_run (exited 0) (codes "yt-dlp reported no output file")
last_path (line ∷ []) = downloaded line
last_path (line ∷ next ∷ lines) = last_path (next ∷ lines)

unfoldable pub strip_lines : List Text → List Text
strip_lines [] = []
strip_lines (line ∷ lines) =
    let rest = strip_lines lines in
    if is_blank (strip_space line) then rest else strip_space line ∷ rest

-- `read_final_path`, of the marker's text
unfoldable pub read_final_path : Option Text → Outcome
unfolding last_path strip_lines
read_final_path none = crashed "FileNotFoundError"
read_final_path (some text) = last_path (strip_lines (split_lines text))

pub data LogLine : Type 0 where
  said : Text → LogLine
  attempt_started : ℕ → LogLine
  attempt_failed : ℕ → Outcome → LogLine
  one_fragment : LogLine

-- The calls of `on_progress`, `on_log` and `on_attempt`, in order.
pub data Output : Type 0 where
  progress : Progress → Output
  log : LogLine → Output
  attempted : ℕ → Output

pub record Streamed : Type 0 where
  pub tail : List Text
  pub postprocessing : Bool
  pub outputs : List Output

abbrev pub emit : Output → Streamed → Streamed
emit o s = record s { outputs = s.outputs ++ o ∷ [] }

abbrev pub merging : Progress
merging = record {
  status = codes "postprocessing";
  downloaded_bytes = 0;
  total_bytes = none;
  speed_bps = none;
  eta_s = none;
  pct = none;
  postprocessing = true;
}

unfoldable pub notice : Text → Streamed → Streamed
notice line s =
    if not s.postprocessing && is_postprocessing line
    then emit (progress merging) (record s { postprocessing = true })
    else s

abbrev pub error_context_lines : ℕ
error_context_lines = 200

unfoldable pub say : Text → Streamed → Streamed
say line s =
    let tail = s.tail ++ line ∷ [] in
    emit (log (said line)) (record s { tail = drop (length tail - error_context_lines) tail })

-- What a process printed, how it ended, whether a cancel had come by then, and the marker's text.
pub record Ran : Type 0 where
  pub lines : List Text
  pub code : ExitCode
  pub is_cancelled : Bool
  pub final_path : Option Text

unfoldable pub join_lines : List Text → Text
join_lines [] = []
join_lines (line ∷ []) = line
join_lines (line ∷ next ∷ lines) = line ++ 10 ∷ join_lines (next ∷ lines)

unfoldable pub is_fatal : ErrorKind → Bool
is_fatal needs_cookies = true
is_fatal unsupported = true
is_fatal unavailable = true
is_fatal _ = false

-- `downgrade_fragments` may raise, and so may `before_sleep`.
pub data Slept (S : Type 0) : Type 0 where
  slept : S → Slept S
  raised : Outcome → S → Slept S

pub record Download : Type 0 where
  pub argv : List String
  pub attempts : ℕ
  pub outputs : List Output

module _ (loads : Text → Option Json) (tenths : ℕ → ℕ → ℕ) (is_word : ℕ → Bool) where
  -- The body of the loop over the lines.
  unfoldable pub read_line : Text → Streamed → Streamed
  read_line raw s =
      let line = scrub (strip_right raw) in
      if is_blank line then s else elim (parse_progress loads tenths line) [
        | some p ↦ emit (progress (record p { postprocessing = s.postprocessing })) s
        | none ↦ say line (notice line s)
      ]

  unfoldable pub read_lines : List Text → Streamed → Streamed
  read_lines [] s = s
  read_lines (raw ∷ lines) s = read_lines lines (read_line raw s)

  unfoldable pub error_of : ExitCode → ErrorKind × Text → Outcome
  error_of code (kind, message) =
      if is_fatal kind then fatal kind message else failed_run code message

  -- The end of `run_once`.
  unfoldable pub end_of : Ran → List Text → Outcome
  unfolding error_of
  end_of ran tail =
      if ran.is_cancelled
      then cancelled
      else if is_zero ran.code
      then read_final_path ran.final_path
      else error_of ran.code (classify_error is_word (join_lines tail))

  -- `run_once`
  unfoldable pub run_once : Ran → Outcome × List Output
  run_once ran =
      let s = read_lines ran.lines (record { tail = []; postprocessing = false; outputs = [] }) in
      (end_of ran s.tail, s.outputs)

  module _ (yt_dlp : ℕ → List String → Ran) where
    -- `attempt`
    unfoldable pub attempt : Download → Outcome × Download
    attempt d =
        let number = suc d.attempts in
        let (outcome, outputs) = run_once (yt_dlp number d.argv) in
        (
          outcome,
          record d {
            attempts = number;
            outputs = d.outputs ++ (attempted number ∷ log (attempt_started number) ∷ outputs);
          },
        )

-- `isinstance(error, YtDlpFailed) and error.exit_code == 2`
unfoldable pub exit_two : Outcome → Bool
exit_two (failed_run (exited n) message) = n == 2
exit_two _ = false

-- `before_sleep`
unfoldable pub before_sleep : ℕ → Outcome → Download → Slept Download
before_sleep number error d =
    let d' = record d { outputs = d.outputs ++ log (attempt_failed number error) ∷ [] } in
    if exit_two error
    then elim (downgrade_fragments d.argv) [
      | none ↦ raised (crashed "ValueError") d'
      | some argv ↦ slept (record d' { argv = argv; outputs = d'.outputs ++ log one_fragment ∷ [] })
    ]
    else slept d'

-- `retry_if_exception_type(YtDlpFailed)`
unfoldable pub is_retried : Outcome → Bool
is_retried (failed_run code message) = true
is_retried _ = false

abbrev pub Tenacity : Type 1
Tenacity =
    (S : Type 0)
    → (S → Outcome × S)
    → (ℕ → Outcome → S → Slept S)
    → (Outcome → Bool)
    → (stop : ℕ) → S
    → Outcome × S

-- What tenacity documents of AsyncRetrying with `stop_after_attempt(stop)`, `retry`, `before_sleep` and
-- `reraise`: from the attempt of that number on, it ends with an outcome that is not to be retried, or
-- with the last attempt's; before any other attempt it calls `before_sleep`, which may raise.
pub data Retries {S : Type 0} (try : S → Outcome × S) (before : ℕ → Outcome → S → Slept S)
    (retry : Outcome → Bool) (stop : ℕ) : ℕ → S → Outcome → S → Type 0 where
  ended :
      {n : ℕ} {s s' : S} {o : Outcome}
      → try s ≡ (o, s')
      → retry o ≡ false
      → Retries try before retry stop n s o s'
  stopped :
      {n : ℕ} {s s' : S} {o : Outcome}
      → try s ≡ (o, s')
      → retry o ≡ true
      → stop ≤ n
      → Retries try before retry stop n s o s'
  again :
      {n : ℕ} {s s1 s2 s' : S} {o1 o : Outcome}
      → try s ≡ (o1, s1)
      → retry o1 ≡ true
      → n < stop
      → before n o1 s1 ≡ slept s2
      → Retries try before retry stop (suc n) s2 o s'
      → Retries try before retry stop n s o s'
  broken :
      {n : ℕ} {s s1 s' : S} {o1 o : Outcome}
      → try s ≡ (o1, s1)
      → retry o1 ≡ true
      → n < stop
      → before n o1 s1 ≡ raised o s'
      → Retries try before retry stop n s o s'

abbrev pub IsTenacity : Tenacity → Type 1
IsTenacity tenacity =
    (S : Type 0) (try : S → Outcome × S) (before : ℕ → Outcome → S → Slept S)
    (retry : Outcome → Bool) (stop : ℕ) (s : S)
    → Retries try before retry stop 1 s (tenacity S try before retry stop s).0
        (tenacity S try before retry stop s).1

module _ (loads : Text → Option Json) (tenths : ℕ → ℕ → ℕ) (is_word : ℕ → Bool)
    (yt_dlp : ℕ → List String → Ran) (tenacity : Tenacity) where
  -- `download`
  unfoldable pub download : List String → ℕ → Outcome × Download
  download argv retries =
      tenacity Download (attempt loads tenths is_word yt_dlp) before_sleep is_retried (retries + 1)
        (record { argv = argv; attempts = 0; outputs = [] })
