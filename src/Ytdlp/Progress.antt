-- ===== src/Ytdlp/Progress.antt =====
-- backend/app/ytdlp/runner.py: the progress reports of yt-dlp, and what it leaves of a run. Parameters:
-- `loads` (json.loads of a report) and `tenths` (the percentage of two numbers in tenths, as `round` gives
-- it). The numbers of a report are natural.
use fetcharr.Base.{
  ℕ, ◌==◌, Bool, true, false, not, ◌&&◌, ◌||◌, Option, none, some, is_some, or_else, List, [], ◌∷◌,
  keep, any as any_of, Text, codes, after_prefix, if◌then◌else◌,
}

pub record Progress : Type 0 where
  pub status : Text
  pub downloaded_bytes : ℕ
  pub total_bytes : Option ℕ
  pub speed_bps : Option ℕ
  pub eta_s : Option ℕ
  pub pct : Option ℕ
  pub postprocessing : Bool

-- What the runner reads of a report.
pub record Report : Type 0 where
  pub status : Option Text
  pub downloaded_bytes : Option ℕ
  pub total_bytes : Option ℕ
  pub total_bytes_estimate : Option ℕ
  pub speed : Option ℕ
  pub eta : Option ℕ

pub data Json : Type 0 where
  object : Report → Json
  no_object : Json

-- What Python takes as true of a number that may be missing.
abbrev nonzero : Option ℕ → Option ℕ
nonzero none = none
nonzero (some n) = if n == 0 then none else some n

abbrev either : Option ℕ → Option ℕ → Option ℕ
either (some n) other = some n
either none other = other

abbrev status_of : Option Text → Text
status_of (some (c ∷ s)) = c ∷ s
status_of _ = codes "downloading"

module _ (loads : Text → Option Json) (tenths : ℕ → ℕ → ℕ) where
  unfoldable pub progress_of : Report → Progress
  progress_of data' =
      let downloaded = or_else data'.downloaded_bytes 0 in
      let total = nonzero (either (nonzero data'.total_bytes) data'.total_bytes_estimate) in
      record {
        status = status_of data'.status;
        downloaded_bytes = downloaded;
        total_bytes = total;
        speed_bps = nonzero data'.speed;
        eta_s = nonzero data'.eta;
        pct = elim total [ none ↦ none | some t ↦ some (tenths downloaded t) ];
        postprocessing = false;
      }

  -- `parse_progress`
  unfoldable pub parse_progress : Text → Option Progress
  parse_progress line = elim (after_prefix (codes "FA_PROGRESS ") line) [
    | none ↦ none
    | some rest ↦ elim (loads rest) [ some (object r) ↦ some (progress_of r) | _ ↦ none ]
  ]

-- `is_postprocessing`
unfoldable pub is_postprocessing : Text → Bool
is_postprocessing line =
    any_of (λ name. is_some (after_prefix name line))
      (codes "[Merger]"
        ∷ codes "[VideoRemuxer]"
        ∷ codes "[VideoConvertor]"
        ∷ codes "[ExtractAudio]"
        ∷ codes "[ffmpeg]"
        ∷ [])

-- A pattern of `rglob` against a name.
unfoldable pub glob : Text → Text → Bool
glob [] [] = true
glob [] (d ∷ s) = false
glob (c ∷ p) [] = (c == b'*') && glob p []
glob (c ∷ p) (d ∷ s) = if c == b'*' then glob p (d ∷ s) || glob (c ∷ p) s else (c == d) && glob p s

pub record Entry : Type 0 where
  pub name : Text
  pub is_file : Bool

unfoldable pub is_partial : Text → Bool
unfolding glob
is_partial name =
    any_of (λ pattern'. glob pattern' name)
      (codes "*.part" ∷ codes "*.ytdl" ∷ codes "*-Frag*.part" ∷ codes "*.temp.*" ∷ [])

-- `cleanup_partials`, of all that is below the job's folder
unfoldable pub cleanup_partials : List Entry → List Entry
unfolding is_partial
cleanup_partials entries = keep (λ e. not (e.is_file && is_partial e.name)) entries
