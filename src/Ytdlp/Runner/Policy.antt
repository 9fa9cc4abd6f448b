-- ===== src/Ytdlp/Runner/Policy.antt =====
-- Which runs of yt-dlp a download makes: `download` of backend/app/ytdlp/runner.py, on the arguments that
-- backend/app/ytdlp/command.py builds.
use native.Mathlib.Decide.{ℕ_discrete}
use fetcharr.Base.{
  ℕ, zero, suc, ◌+◌, ◌≤◌, ◌<◌, ◌≡◌, refl, ap, ◌∙◌, ◌⊎◌, inl, inr, String, Bool, true, false, Option,
  some, List, [], ◌∷◌, ◌++◌, Text, arith, Bool-cases, if◌then◌else◌,
}
use fetcharr.Ytdlp.Options.{DownloadOptions}
use fetcharr.Ytdlp.Stream.{Resolved}
use fetcharr.Ytdlp.Command.{JsRuntime, argv_of, build_argv, downgrade_fragments}
use fetcharr.Ytdlp.Command.Downgrade.{downgrade_fragments-argv_of}
use fetcharr.Ytdlp.Runner.{
  Ran, Outcome, Download, slept, log, one_fragment, attempt_failed, run_once, attempt, exit_two,
  before_sleep, is_retried, Retries, ended, stopped, again, broken, Tenacity, IsTenacity, download,
}
use fetcharr.Ytdlp.Progress.{Json}

-- The retry policy, said without a state: `args` are the arguments for a plan, and `run` is the outcome of
-- the attempt of a number with some arguments.
module _ (args : Resolved → List String) (run : ℕ → List String → Outcome) (first : Resolved) where
  -- The plan of the attempt that comes after that many: one fragment at a time as soon as one of them
  -- ended with exit code 2.
  pub plan : ℕ → Resolved
  plan zero = first
  plan (suc n) =
      let before = plan n in
      if exit_two (run (suc n) (args before)) then record before { fragments = 1 } else before

  pub outcome_of : ℕ → Outcome
  outcome_of n = run (suc n) (args (plan n))

  -- The end of a download: after some attempts whose outcome is retried, one more, whose outcome is not
  -- to be retried or which is the last allowed.
  abbrev pub Follows : ℕ → Outcome × Download → Type 0
  Follows retries (o, d) =
      (n : ℕ) × (n ≤ retries)
      × (o ≡ outcome_of n)
      × (d.attempts ≡ suc n)
      × (d.argv ≡ args (plan n))
      × ((k : ℕ) → k < n → is_retried (outcome_of k) ≡ true)
      × ((is_retried o ≡ false) ⊎ (n ≡ retries))

before_sleep-argv :
    (number : ℕ) (o : Outcome) (d : Download) (fewer : List String)
    → downgrade_fragments d.argv ≡ some fewer
    → (d' : Download) × (before_sleep number o d ≡ slept d')
      × (d'.attempts ≡ d.attempts)
      × (d'.argv ≡ (if exit_two o then fewer else d.argv))
unfolding before_sleep
before_sleep-argv number o d fewer h = elim (Bool-cases (exit_two o)) [
  | inl e ↦ (
    record d {
      argv = fewer;
      outputs = (d.outputs ++ log (attempt_failed number o) ∷ []) ++ log one_fragment ∷ [];
    },
    ground (arith, e, h),
    refl,
    ground (arith, e),
  )
  | inr e ↦ (
    record d { outputs = d.outputs ++ log (attempt_failed number o) ∷ [] },
    ground (arith, e),
    refl,
    ground (arith, e),
  )
]

module _ (loads : Text → Option Json) (tenths : ℕ → ℕ → ℕ) (is_word : ℕ → Bool)
    (yt_dlp : ℕ → List String → Ran) where
  abbrev pub run_of : ℕ → List String → Outcome
  run_of number argv = (run_once loads tenths is_word (yt_dlp number argv)).0

  attempt_lem :
      (d d' : Download) (o : Outcome)
      → attempt loads tenths is_word yt_dlp d ≡ (o, d')
      → (o ≡ run_of (suc d.attempts) d.argv) × (d'.attempts ≡ suc d.attempts) × (d'.argv ≡ d.argv)
  unfolding attempt
  attempt_lem d d' o h = ground (arith, h)

  module _ (args : Resolved → List String) (first : Resolved)
      (fewer : (r : Resolved)
        → downgrade_fragments (args r) ≡ some (args (record r { fragments = 1 })))
      (retries : ℕ) where
    tried_at :
        (n : ℕ) (d d' : Download) (o : Outcome)
        → d.attempts ≡ n
        → d.argv ≡ args (plan args run_of first n)
        → attempt loads tenths is_word yt_dlp d ≡ (o, d')
        → (o ≡ outcome_of args run_of first n)
          × (d'.attempts ≡ suc n)
          × (d'.argv ≡ args (plan args run_of first n))
    unfolding outcome_of
    tried_at n d d' o count argv tried =
        let (same, number, kept) = attempt_lem d d' o tried in
        (
          same ∙ (λ i. run_of (suc (count i)) (argv i)),
          number ∙ ap (λ (k : ℕ). suc k) count,
          kept ∙ argv,
        )

    next_argv :
        (n m : ℕ) (d d' : Download) (o : Outcome)
        → o ≡ outcome_of args run_of first n
        → d.argv ≡ args (plan args run_of first n)
        → before_sleep m o d ≡ slept d'
        → (d'.attempts ≡ d.attempts) × (d'.argv ≡ args (plan args run_of first (suc n)))
    unfolding plan outcome_of
    next_argv n m d d' o same argv slept_ =
        let p = plan args run_of first n in
        let (d'', there, count, given) =
          before_sleep-argv m o d (args (record p { fragments = 1 })) (rw argv (fewer p)) in
        elim (Bool-cases (exit_two o)) [
          | inl e ↦ ground (arith, e, same, there, slept_, given, count, argv)
          | inr e ↦ ground (arith, e, same, there, slept_, given, count, argv)
        ]

    all_retried :
        (n : ℕ) (o : Outcome)
        → o ≡ outcome_of args run_of first n
        → is_retried o ≡ true
        → ((k : ℕ) → k < n → is_retried (outcome_of args run_of first k) ≡ true)
        → (k : ℕ) → k < suc n
        → is_retried (outcome_of args run_of first k) ≡ true
    all_retried n o same more earlier k h = elim (ℕ_discrete k n) [
      | yes e ↦ rw (e, ← same) more
      | no e ↦ earlier k (omega arith)
    ]

    Follows-from :
        (n : ℕ) {m : ℕ} {d d' : Download} {o : Outcome}
        → m ≡ suc n
        → n ≤ retries
        → d.attempts ≡ n
        → d.argv ≡ args (plan args run_of first n)
        → ((k : ℕ) → k < n → is_retried (outcome_of args run_of first k) ≡ true)
        → Retries
            (attempt loads tenths is_word yt_dlp)
            before_sleep
            is_retried
            (retries + 1)
            m
            d
            o
            d'
        → Follows args run_of first retries (o, d')
    Follows-from n {m} {d} {d'} {o} at le count argv earlier (ended tried final) =
        let (same, number, kept) = tried_at n d d' o count argv tried in
        (n, le, same, number, kept, earlier, inl final)
    Follows-from n {m} {d} {d'} {o} at le count argv earlier (stopped tried more last) =
        let (same, number, kept) = tried_at n d d' o count argv tried in
        (n, le, same, number, kept, earlier, inr (omega arith))
    Follows-from n {m} {d} {d'} {o} at le count argv earlier
          (again {s1 = s1} {s2 = s2} {o1 = o1} tried more later slept_ rest) =
        let (same, number, kept) = tried_at n d s1 o1 count argv tried in
        let (counted, given) = next_argv n m s1 s2 o1 same kept slept_ in
        Follows-from (suc n) (omega arith) (omega arith) (counted ∙ number) given
          (all_retried n o1 same more earlier) rest
    Follows-from n {m} {d} {d'} {o} at le count argv earlier
          (broken {s1 = s1} {o1 = o1} tried more later raised_) =
        let (same, number, kept) = tried_at n d s1 o1 count argv tried in
        let p = plan args run_of first n in
        let (d'', there, _, _) =
          before_sleep-argv m o1 s1 (args (record p { fragments = 1 })) (rw kept (fewer p)) in
        cc

  module _ (tenacity : Tenacity) (loops : IsTenacity tenacity)
      (hostname : String → Option String) where
    -- A download of a URL that the builder accepts makes, with tenacity's loop as documented, at most
    -- `retries` attempts and one more. Each runs yt-dlp with the arguments that the builder gives: for
    -- the resolved fragments at first, for one fragment from the attempt on that comes after one that
    -- ended with exit code 2. Every attempt but the last ended with YtDlpFailed, and the download ends
    -- with the outcome of the last attempt, which is not YtDlpFailed unless no attempt was left.
    pub download-Follows :
        (url : String) (options : DownloadOptions) (resolved : Resolved) (job_dir : String)
        (cookies_path : Option String) (js_runtime : Option JsRuntime) (argv : List String)
        (retries : ℕ)
        → build_argv hostname url options resolved job_dir cookies_path js_runtime ≡ some argv
        → Follows
            (λ r. argv_of url options r job_dir (hostname url) cookies_path js_runtime)
            run_of
            resolved
            retries
            (download loads tenths is_word yt_dlp tenacity argv retries)
    unfolding download build_argv plan
    download-Follows url options resolved job_dir cookies_path js_runtime argv retries built =
        Follows-from (λ r. argv_of url options r job_dir (hostname url) cookies_path js_runtime)
          resolved
          (λ r.
            downgrade_fragments-argv_of url options r job_dir (hostname url) cookies_path
              js_runtime)
          retries 0 refl (omega arith) refl (ground (arith, built)) (λ k h. absurd (omega arith))
          (loops Download (attempt loads tenths is_word yt_dlp) before_sleep is_retried
            (retries + 1) (record { argv = argv; attempts = 0; outputs = [] }))
