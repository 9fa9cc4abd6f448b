-- ===== src/Ytdlp/Command.antt =====
-- backend/app/ytdlp/command.py: the yt-dlp arguments of one download, the URL last.
-- `urlsplit(url).hostname` is the standard library's: the parameter `hostname`.
pub mod Downgrade
use Prim.Native.String.{len, slice}
use text.Mathlib.Text.{starts_with}
use fetcharr.Base.{
  ◌-◌, String, Bool, false, ◌&&◌, ◌||◌, Option, none, some, List, [], ◌∷◌, ◌++◌, cat, join, show,
  str_eq, leb, if◌then◌else◌,
}
use fetcharr.Ytdlp.Options.{
  DownloadOptions, SubtitleOptions, SubtitleMode, SponsorBlockOptions, SponsorBlockMode,
  container_name, is_transcoded, chosen_categories,
}
use fetcharr.Ytdlp.Stream.{StreamType, http, Resolved}
use fetcharr.Ytdlp.Formats.{build_selector}

pub data JsRuntime : Type 0 where
  deno node : JsRuntime

abbrev aria2c_args : String
aria2c_args = "aria2c:-x 4 -s 4 -j 4 --file-allocation=none --retry-wait=1"

abbrev ends_with : String → String → Bool
ends_with s t = leb (len t) (len s) && str_eq (slice s (len s - len t) (len s)) t

-- `is_youtube_url`, of the URL's host (`urlsplit(url).hostname or ""`)
unfoldable pub is_youtube_host : Option String → Bool
is_youtube_host none = false
is_youtube_host (some host) =
    str_eq host "youtube.com" || str_eq host "youtu.be" || ends_with host ".youtube.com"

unfoldable pub subtitle_args : SubtitleOptions → List String
subtitle_args subtitles =
    let languages = "--write-subs" ∷ "--sub-langs" ∷ join "," subtitles.languages ∷ [] in
    let auto = if subtitles.include_auto_captions then "--write-auto-subs" ∷ [] else [] in
    elim subtitles.mode [
      | SubtitleMode.off ↦ []
      | SubtitleMode.embed ↦ languages ++ auto ++ "--embed-subs" ∷ []
      | SubtitleMode.sidecar ↦ languages ++ auto ++ "--convert-subs" ∷ "srt" ∷ []
    ]

unfoldable pub sponsorblock_args : SponsorBlockOptions → List String
sponsorblock_args sponsorblock =
    let categories = join "," (chosen_categories sponsorblock) in
    elim sponsorblock.mode [
      | SponsorBlockMode.off ↦ []
      | SponsorBlockMode.mark ↦ "--sponsorblock-mark" ∷ categories ∷ []
      | SponsorBlockMode.remove ↦ "--sponsorblock-remove" ∷ categories ∷ []
    ]

-- The arguments up to `--concurrent-fragments`.
unfoldable pub format_args : DownloadOptions → List String
format_args options =
    ("--format"
      ∷ build_selector options.quality options.container (is_transcoded options.transcode)
          options.video_codec options.audio_language options.allow_hdr
      ∷ "--merge-output-format"
      ∷ container_name options.container
      ∷ [])
    ++ (if options.embed_chapters then "--embed-chapters" ∷ [] else [])
    ++ (if options.embed_metadata then "--embed-metadata" ∷ [] else [])
    ++ "--no-playlist" ∷ []

chunk_args : StreamType → List String
chunk_args http = []
chunk_args _ = "--http-chunk-size" ∷ "10M" ∷ "--buffer-size" ∷ "16K" ∷ []

cookies_args : Option String → List String
cookies_args none = []
cookies_args (some path) = "--cookies" ∷ path ∷ []

node_args : Option JsRuntime → List String
node_args (some node) = "--js-runtimes" ∷ "node" ∷ []
node_args _ = []

rate_args : Option String → List String
rate_args none = []
rate_args (some rate) = "--limit-rate" ∷ rate ∷ []

-- The challenge solver's flags, which `build_argv` and `build_inspect_argv` share.
unfoldable pub solver_args : Option String → Option JsRuntime → List String
unfolding node_args
solver_args host js_runtime =
    if is_youtube_host host then "--remote-components" ∷ "ejs:github" ∷ node_args js_runtime else []

-- The arguments behind the fragment count and before the URL.
unfoldable pub later_args :
    DownloadOptions
    → Resolved
    → String
    → Option String
    → Option String
    → Option JsRuntime
    → List String
unfolding chunk_args cookies_args rate_args
later_args options resolved job_dir host cookies_path js_runtime =
    ("--retries" ∷ show options.retries ∷ "--fragment-retries" ∷ show options.retries ∷ [])
    ++ chunk_args resolved.stream_type
    ++ (if resolved.use_aria2c
        then "--external-downloader" ∷ "aria2c" ∷ "--external-downloader-args" ∷ aria2c_args ∷ []
        else [])
    ++ cookies_args cookies_path
    ++ ("--abort-on-unavailable-fragment" ∷ "--keep-fragments" ∷ "--no-check-certificates" ∷ [])
    ++ solver_args host js_runtime
    ++ subtitle_args options.subtitles
    ++ sponsorblock_args options.sponsorblock
    ++ rate_args options.rate_limit
    ++ ("--remux-video" ∷ container_name options.container ∷ [])
    ++ ("--newline"
        ∷ "--progress"
        ∷ "--progress-template"
        ∷ "download:FA_PROGRESS %(progress)j"
        ∷ "--print-to-file"
        ∷ "after_move:%(filepath)s"
        ∷ cat (job_dir ∷ "/final_path" ∷ [])
        ∷ "-P"
        ∷ cat ("home:" ∷ job_dir ∷ [])
        ∷ "-P"
        ∷ cat ("temp:" ∷ job_dir ∷ "/tmp" ∷ [])
        ∷ "-o"
        ∷ "%(id)s.%(ext)s"
        ∷ [])

-- The whole list for an accepted URL.
unfoldable pub argv_of :
    String
    → DownloadOptions
    → Resolved
    → String
    → Option String
    → Option String
    → Option JsRuntime
    → List String
argv_of url options resolved job_dir host cookies_path js_runtime =
    format_args options
    ++ "--concurrent-fragments"
      ∷ show resolved.fragments
      ∷ (later_args options resolved job_dir host cookies_path js_runtime ++ url ∷ [])

module _ (hostname : String → Option String) where
  -- `none` is the `ValueError` for a URL that starts with a dash.
  unfoldable pub build_argv :
      String
      → DownloadOptions
      → Resolved
      → String
      → Option String
      → Option JsRuntime
      → Option (List String)
  build_argv url options resolved job_dir cookies_path js_runtime =
      if starts_with url "-"
      then none
      else some (argv_of url options resolved job_dir (hostname url) cookies_path js_runtime)

  -- backend/app/ytdlp/inspect.py, `build_inspect_argv`
  unfoldable pub build_inspect_argv : String → Option JsRuntime → Option String → List String
  unfolding cookies_args
  build_inspect_argv url js_runtime cookies_path =
      ("-J" ∷ "--no-download" ∷ "--no-playlist" ∷ [])
      ++ cookies_args cookies_path
      ++ solver_args (hostname url) js_runtime
      ++ url ∷ []

-- `argv[argv.index("--concurrent-fragments") + 1] = "1"`; `none` is the `ValueError` or `IndexError`.
unfoldable pub downgrade_fragments : List String → Option (List String)
downgrade_fragments [] = none
downgrade_fragments (arg ∷ rest) =
    let later = downgrade_fragments rest in
    if str_eq arg "--concurrent-fragments"
    then elim rest [ [] ↦ none | count ∷ more ↦ some (arg ∷ "1" ∷ more) ]
    else elim later [ none ↦ none | some more ↦ some (arg ∷ more) ]
