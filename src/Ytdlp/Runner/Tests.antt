-- ===== src/Ytdlp/Runner/Tests.antt =====
-- Runs of yt-dlp on concrete output, a loop that keeps what tenacity documents, and the properties at a
-- download whose first attempt ends with exit code 2.
use fetcharr.Base.{
  ℕ, zero, suc, ◌+◌, ◌-◌, ◌==◌, ◌≤◌, ◌≡◌, refl, ◌⊎◌, inl, inr, String, Bool, true, false, Option,
  none, some, List, [], ◌∷◌, All, Text, codes, arith, Bool-cases, if◌then◌else◌,
}
use fetcharr.Library.Naming.{is_space}
use fetcharr.Transcode.Runner.{exited}
use fetcharr.Ytdlp.Errors.{scrub, header_at, match_folded, leading_space, fold}
use fetcharr.Ytdlp.Runner.{
  Ran, Outcome, Slept, slept, raised, Retries, ended, stopped, again, broken, Tenacity, IsTenacity,
  download,
}
use fetcharr.Ytdlp.Progress.{Json, cleanup_partials, is_partial, Entry, glob}
use fetcharr.Ytdlp.Runner.Policy.{Follows, run_of, download-Follows}
use fetcharr.Ytdlp.Runner.Logs.{Logged, download-Logged}
use fetcharr.Ytdlp.Command.{argv_of, build_argv}
use fetcharr.Ytdlp.Tests.{url, host, plain, as_dash}

scrubbed : scrub (codes "> Set-COOKIE:  a=b; c=d") ≡ codes "> Set-COOKIE:  [redacted]"
unfolding scrub header_at match_folded leading_space fold is_space
scrubbed = refl

abbrev in_folder : List Entry
in_folder =
    (record { name = codes "a.mkv.part-Frag3.part"; is_file = true })
    ∷ (record { name = codes "a.mkv"; is_file = true })
    ∷ (record { name = codes "x.temp.mkv"; is_file = false })
    ∷ []

cleaned :
    cleanup_partials in_folder
    ≡ (record { name = codes "a.mkv"; is_file = true })
      ∷ (record { name = codes "x.temp.mkv"; is_file = false })
      ∷ []
unfolding cleanup_partials is_partial glob
cleaned = refl

Slept-cases :
    {S : Type 0} (b : Slept S)
    → ((s : S) × (b ≡ slept s)) ⊎ ((p : Outcome × S) × (b ≡ raised p.0 p.1))
Slept-cases (slept s) = inl (s, refl)
Slept-cases (raised o s) = inr ((o, s), refl)

module _ {S : Type 0} (try : S → Outcome × S) (before : ℕ → Outcome → S → Slept S)
    (retry : Outcome → Bool) where
  try_from : ℕ → ℕ → S → Outcome × S
  try_from zero n s = try s
  try_from (suc f) n s =
      let tried = try s in
      let next : Outcome × S = elim (before n tried.0 tried.1) [
        | slept s2 ↦ try_from f (suc n) s2
        | raised o s2 ↦ (o, s2)
      ] in
      if retry tried.0 then next else tried

  try_from-Retries :
      (stop f n : ℕ) (s : S)
      → ((f ≡ 0) × (stop ≤ n)) ⊎ (stop ≡ n + f)
      → Retries try before retry stop n s (try_from f n s).0 (try_from f n s).1
  unfolding try_from
  try_from-Retries stop zero n s h = elim (Bool-cases (retry (try s).0)) [
    | inl more ↦ stopped refl more (ground (arith, h))
    | inr final ↦ ended refl final
  ]
  try_from-Retries stop (suc f) n s h = elim (Bool-cases (retry (try s).0)) [
    | inr final ↦ rw final (ended refl final)
    | inl more ↦ elim (Slept-cases (before n (try s).0 (try s).1)) [
      | inl (s2, e) ↦
          rw (more, e)
            (again refl more (ground (arith, h)) e
              (try_from-Retries stop f (suc n) s2 (inr (ground (arith, h)))))
      | inr ((o, s2), e) ↦ rw (more, e) (broken refl more (ground (arith, h)) e)
    ]
  ]

-- One attempt, and as many more as are allowed.
abbrev try_again : Tenacity
try_again S try before retry stop s = try_from try before retry (stop - 1) 1 s

try_again-IsTenacity : IsTenacity try_again
try_again-IsTenacity S try before retry stop s =
    try_from-Retries try before retry stop (stop - 1) 1 s (enough stop)
  where
    enough : (stop : ℕ) → ((stop - 1 ≡ 0) × (stop ≤ 1)) ⊎ (stop ≡ 1 + (stop - 1))
    enough zero = inl (omega arith)
    enough (suc n) = inr (omega arith)

-- The first attempt prints a header and ends with exit code 2, the later ones write a file.
abbrev process : ℕ → List String → Ran
process number argv = record {
  lines = codes "send: Cookie: sid=1" ∷ codes "ERROR: no fragments" ∷ [];
  code = exited (if number == 1 then 2 else 0);
  is_cancelled = false;
  final_path = some (codes "/jobs/1/x.mkv");
}

abbrev no_report : Text → Option Json
no_report text = none

abbrev no_percent : ℕ → ℕ → ℕ
no_percent a b = 0

abbrev no_word : ℕ → Bool
no_word c = false

download-Follows_example :
    Follows
      (λ r. argv_of url plain r "/jobs/1" (host url) none none)
      (run_of no_report no_percent no_word process)
      as_dash
      3
      (download no_report no_percent no_word process try_again
        (argv_of url plain as_dash "/jobs/1" (host url) none none)
        3)
unfolding build_argv
download-Follows_example =
    download-Follows no_report no_percent no_word process try_again try_again-IsTenacity host url
      plain as_dash "/jobs/1" none none (argv_of url plain as_dash "/jobs/1" (host url) none none) 3
      refl

download-Logged_example :
    All Logged
      (download no_report no_percent no_word process try_again
        (argv_of url plain as_dash "/jobs/1" (host url) none none)
        3).1.outputs
download-Logged_example =
    download-Logged no_report no_percent no_word process try_again
      (argv_of url plain as_dash "/jobs/1" (host url) none none) 3 try_again-IsTenacity
