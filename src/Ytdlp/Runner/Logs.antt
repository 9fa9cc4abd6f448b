-- ===== src/Ytdlp/Runner/Logs.antt =====
-- What a download logs of a cookie: backend/app/ytdlp/runner.py with the `scrub` of
-- backend/app/ytdlp/cookies.py.
use fetcharr.Base.{
  ℕ, suc, ◌+◌, ◌≡◌, refl, inl, inr, String, Bool, true, false, not, ◌&&◌, Option, none, some,
  is_some, List, [], ◌∷◌, ◌++◌, All, each, each-append, keep, map, Text, codes, arith, after_prefix,
  Bool-cases, Option-cases,
}
use fetcharr.Auth.Service.{strip_left, strip_right, strip_space}
use fetcharr.Transcode.Runner.{ExitCode, is_zero}
use fetcharr.Ytdlp.Cookies.{is_blank, split_lines}
use fetcharr.Ytdlp.Errors.{fold, scrub, classify_error, last_or, kind_of}
use fetcharr.Ytdlp.Errors.Scrub.{is_clean, is_clean-scrub, is_clean-plain, clean_value}
use fetcharr.Ytdlp.Runner.{
  Ran, Outcome, downloaded, failed_run, fatal, cancelled, crashed, said, attempt_started,
  attempt_failed, one_fragment, Output, progress, log, attempted, Streamed, emit, notice, say,
  read_line, read_lines, read_final_path, last_path, strip_lines, merging, join_lines, end_of,
  error_of, is_fatal, run_once, Download, slept, raised, attempt, before_sleep, is_retried, Retries,
  ended, stopped, again, broken, Tenacity, IsTenacity, download,
}
use fetcharr.Ytdlp.Progress.{Json, parse_progress, is_postprocessing}

-- Where the name of a cookie's header stands in a text, in any case, only the redaction follows.
abbrev pub IsRedacted : Text → Type 0
IsRedacted line =
    (before name value : Text)
    → line ≡ before ++ (name ++ value)
    → map fold name ≡ codes "cookie:"
    → strip_left value ≡ codes "[redacted]"

-- What is logged of a line of yt-dlp, and of the message of its failure.
abbrev pub Logged : Output → Type 0
Logged (progress p) = Unit {0}
Logged (attempted n) = Unit {0}
Logged (log (said line)) = IsRedacted line
Logged (log (attempt_failed n (failed_run code message))) = IsRedacted message
Logged (log (attempt_failed n o)) = Unit {0}
Logged (log (attempt_started n)) = Unit {0}
Logged (log one_fragment) = Unit {0}

abbrev fresh : Streamed
fresh = record { tail = []; postprocessing = false; outputs = [] }

clean_outcome : Outcome → Bool
clean_outcome (failed_run code message) = is_clean message
clean_outcome _ = true

clean_output : Output → Bool
clean_output (log (said line)) = is_clean line
clean_output (log (attempt_failed n o)) = clean_outcome o
clean_output _ = true

is_clean-IsRedacted : (line : Text) → is_clean line ≡ true → IsRedacted line
is_clean-IsRedacted line h before name value e same =
    clean_value before name value (rw (← e) h) same

clean_output-Logged : (o : Output) → clean_output o ≡ true → Logged o
unfolding clean_output clean_outcome
clean_output-Logged (progress p) h = tt
clean_output-Logged (attempted n) h = tt
clean_output-Logged (log (said line)) h = is_clean-IsRedacted line h
clean_output-Logged (log (attempt_failed n (failed_run code message))) h =
    is_clean-IsRedacted message h
clean_output-Logged (log (attempt_failed n (downloaded path))) h = tt
clean_output-Logged (log (attempt_failed n (fatal kind message))) h = tt
clean_output-Logged (log (attempt_failed n cancelled)) h = tt
clean_output-Logged (log (attempt_failed n (crashed kind))) h = tt
clean_output-Logged (log (attempt_started n)) h = tt
clean_output-Logged (log one_fragment) h = tt

each-Logged : (os : List Output) → each clean_output os ≡ true → All Logged os
each-Logged [] h = tt
each-Logged (o ∷ os) h =
    (clean_output-Logged o (ground (arith, h)), each-Logged os (ground (arith, h)))

each-emit :
    (o : Output) (s : Streamed)
    → clean_output o ≡ true
    → each clean_output s.outputs ≡ true
    → each clean_output (emit o s).outputs ≡ true
each-emit o s new old = each-append clean_output s.outputs (o ∷ []) old (ground (arith, new))

each-notice :
    (line : Text) (s : Streamed)
    → each clean_output s.outputs ≡ true
    → each clean_output (notice line s).outputs ≡ true
unfolding notice clean_output
each-notice line s h = elim (Bool-cases (not s.postprocessing && is_postprocessing line)) [
  | inl e ↦
      rw e (each-emit (progress merging) (record s { postprocessing = true }) clean_progress h)
  | inr e ↦ rw e h
]
  where
    clean_progress : clean_output (progress merging) ≡ true
    clean_progress = refl

module _ (loads : Text → Option Json) (tenths : ℕ → ℕ → ℕ) (is_word : ℕ → Bool) where
  each-read_line :
      (raw : Text) (s : Streamed)
      → each clean_output s.outputs ≡ true
      → each clean_output (read_line loads tenths is_word raw s).outputs ≡ true
  unfolding read_line say clean_output
  each-read_line raw s h = elim (Bool-cases (is_blank (scrub (strip_right raw)))) [
    | inl e ↦ rw e h
    | inr e ↦ elim (Option-cases (parse_progress loads tenths (scrub (strip_right raw)))) [
      | inl none_ ↦
          rw (e, none_)
            (each-append clean_output (notice (scrub (strip_right raw)) s).outputs
              (log (said (scrub (strip_right raw))) ∷ [])
              (each-notice (scrub (strip_right raw)) s h)
              (ground (arith, is_clean-scrub (strip_right raw))))
      | inr (p, some_) ↦
          rw (e, some_)
            (each-append clean_output s.outputs
              (progress (record p { postprocessing = s.postprocessing }) ∷ []) h refl)
    ]
  ]

  each-read_lines :
      (lines : List Text) (s : Streamed)
      → each clean_output s.outputs ≡ true
      → each clean_output (read_lines loads tenths is_word lines s).outputs ≡ true
  unfolding read_lines
  each-read_lines [] s h = h
  each-read_lines (raw ∷ lines) s h =
      each-read_lines lines (read_line loads tenths is_word raw s) (each-read_line raw s h)

  -- The message of a failure that is retried is a line that was scrubbed, or the runner's own.
  last_or-clean :
      (default : Text) (lines : List Text)
      → is_clean default ≡ true
      → each is_clean lines ≡ true
      → is_clean (last_or default lines) ≡ true
  unfolding last_or
  last_or-clean default [] h hs = h
  last_or-clean default (line ∷ lines) h hs =
      last_or-clean line lines (ground (arith, hs)) (ground (arith, hs))

  each-scrub : (lines : List Text) → each is_clean (map (λ l. scrub (strip_space l)) lines) ≡ true
  each-scrub [] = refl
  each-scrub (line ∷ lines) = ground (arith, is_clean-scrub (strip_space line), each-scrub lines)

  each-keep :
      (p : Text → Bool) (lines : List Text)
      → each is_clean lines ≡ true
      → each is_clean (keep p lines) ≡ true
  each-keep p [] h = refl
  each-keep p (line ∷ lines) h = ground (arith, h, each-keep p lines)

  error_of-clean :
      (code : ExitCode) (line message : Text)
      → is_clean line ≡ true
      → clean_outcome (error_of loads tenths is_word code (kind_of is_word line message)) ≡ true
  unfolding clean_outcome error_of kind_of is_fatal
  error_of-clean code line message h = ground (arith, h)

  classify_error-clean :
      (code : ExitCode) (text : Text)
      → clean_outcome (error_of loads tenths is_word code (classify_error is_word text)) ≡ true
  unfolding classify_error fold
  classify_error-clean code text =
      let lines =
        map (λ line. scrub (strip_space line))
          (keep (λ line. not (is_blank (strip_space line))) (split_lines text)) in
      let every : each is_clean lines ≡ true =
        each-scrub (keep (λ line. not (is_blank (strip_space line))) (split_lines text)) in
      error_of-clean code _ _ (
        last_or-clean (last_or (codes "yt-dlp failed") lines)
          (keep (λ line. is_some (after_prefix (codes "ERROR:") line)) lines)
          (last_or-clean (codes "yt-dlp failed") lines own_message every)
          (each-keep (λ line. is_some (after_prefix (codes "ERROR:") line)) lines every))
    where
      own_message : is_clean (codes "yt-dlp failed") ≡ true
      own_message = is_clean-plain (codes "yt-dlp failed") refl

  last_path-clean : (lines : List Text) → clean_outcome (last_path lines) ≡ true
  unfolding last_path clean_outcome fold
  last_path-clean [] = is_clean-plain (codes "yt-dlp reported no output file") refl
  last_path-clean (line ∷ []) = refl
  last_path-clean (line ∷ next ∷ lines) = last_path-clean (next ∷ lines)

  read_final_path-clean : (text : Option Text) → clean_outcome (read_final_path text) ≡ true
  unfolding read_final_path clean_outcome
  read_final_path-clean none = refl
  read_final_path-clean (some text) = last_path-clean (strip_lines (split_lines text))

  end_of-clean :
      (ran : Ran) (tail : List Text) → clean_outcome (end_of loads tenths is_word ran tail) ≡ true
  unfolding end_of clean_outcome
  end_of-clean ran tail = elim (Bool-cases ran.is_cancelled) [
    | inl e ↦ rw e refl
    | inr e ↦ elim (Bool-cases (is_zero ran.code)) [
      | inl z ↦ rw (e, z) (read_final_path-clean ran.final_path)
      | inr z ↦ rw (e, z) (classify_error-clean ran.code (join_lines tail))
    ]
  ]

  module _ (yt_dlp : ℕ → List String → Ran) where
    attempt-clean :
        (d d' : Download) (o : Outcome)
        → each clean_output d.outputs ≡ true
        → attempt loads tenths is_word yt_dlp d ≡ (o, d')
        → (clean_outcome o ≡ true) × (each clean_output d'.outputs ≡ true)
    unfolding attempt run_once clean_output
    attempt-clean d d' o h e =
        let ran = yt_dlp (suc d.attempts) d.argv in
        let s = read_lines loads tenths is_word ran.lines fresh in
        let head : List Output =
          attempted (suc d.attempts) ∷ log (attempt_started (suc d.attempts)) ∷ [] in
        let read : each clean_output s.outputs ≡ true = each-read_lines ran.lines fresh refl in
        let whole : each clean_output (d.outputs ++ (head ++ s.outputs)) ≡ true =
          each-append clean_output d.outputs (head ++ s.outputs) h read in
        ground (arith, e, end_of-clean ran s.tail, whole)

    before_sleep-clean :
        (number : ℕ) (o : Outcome) (d : Download)
        → each clean_output d.outputs ≡ true
        → clean_outcome o ≡ true
        → ((d' : Download)
            → before_sleep number o d ≡ slept d'
            → each clean_output d'.outputs ≡ true)
          × ((o' : Outcome) (d' : Download)
              → before_sleep number o d ≡ raised o' d'
              → each clean_output d'.outputs ≡ true)
    unfolding before_sleep clean_output
    before_sleep-clean number o d h clean =
        let failing = log (attempt_failed number o) ∷ [] in
        let one = each-append clean_output d.outputs failing h (ground (arith, clean)) in
        let two =
          each-append clean_output (d.outputs ++ failing) (log one_fragment ∷ []) one refl in
        (λ d' e. ground (arith, e, one, two), λ o' d' e. ground (arith, e, one, two))

    Retries-clean :
        (stop n : ℕ) {d d' : Download} {o : Outcome}
        → each clean_output d.outputs ≡ true
        → Retries (attempt loads tenths is_word yt_dlp) before_sleep is_retried stop n d o d'
        → each clean_output d'.outputs ≡ true
    Retries-clean stop n {d} {d'} {o} h (ended tried final) = (attempt-clean d d' o h tried).1
    Retries-clean stop n {d} {d'} {o} h (stopped tried more last) = (attempt-clean d d' o h tried).1
    Retries-clean stop n {d} {d'} {o} h
          (again {s1 = s1} {s2 = s2} {o1 = o1} tried more later slept_ rest) =
        let (clean, outputs) = attempt-clean d s1 o1 h tried in
        Retries-clean stop (suc n) ((before_sleep-clean n o1 s1 outputs clean).0 s2 slept_) rest
    Retries-clean stop n {d} {d'} {o} h (broken {s1 = s1} {o1 = o1} tried more later raised_) =
        let (clean, outputs) = attempt-clean d s1 o1 h tried in
        (before_sleep-clean n o1 s1 outputs clean).1 o d' raised_

    -- Whatever yt-dlp prints in the attempts of a download, and whatever the arguments are, with
    -- tenacity's loop as documented: in each of its lines that is logged, and in the message of each
    -- failure that is logged, only the redaction (and blanks before it) follows the name of a cookie's
    -- header, wherever it stands and in any case of its letters.
    pub download-Logged :
        (tenacity : Tenacity) (argv : List String) (retries : ℕ)
        → IsTenacity tenacity
        → All Logged (download loads tenths is_word yt_dlp tenacity argv retries).1.outputs
    unfolding download
    download-Logged tenacity argv retries loops =
        each-Logged (download loads tenths is_word yt_dlp tenacity argv retries).1.outputs (
          Retries-clean (retries + 1) 1 refl (
            loops Download (attempt loads tenths is_word yt_dlp) before_sleep is_retried
              (retries + 1) (record { argv = argv; attempts = 0; outputs = [] })))
