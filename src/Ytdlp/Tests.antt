-- ===== src/Ytdlp/Tests.antt =====
-- Runs of the command builder on concrete options, and the properties applied to them.
use fetcharr.Base.{
  String, Option, true, false, ◌≡◌, refl, none, some, List, [], ◌∷◌, ◌++◌, Text, codes,
}
use fetcharr.Ytdlp.Options.{
  DownloadOptions, TranscodeProfile, best, p720, mkv, mp4, any, auto, SubtitleMode,
  SponsorBlockMode,
}
use fetcharr.Ytdlp.Stream.{Resolved, hls, dash, classify}
use fetcharr.Ytdlp.Formats.{
  build_selector, preferred, script_selector, wanted_codecs, video_terms, height_filter,
}
use fetcharr.Ytdlp.Command.{is_youtube_host, argv_of, build_argv, downgrade_fragments}
use fetcharr.Ytdlp.Command.Downgrade.{downgrade_fragments-build_argv}
use fetcharr.Library.Naming.{is_space}
use fetcharr.Auth.Service.{strip_space}
use fetcharr.Ytdlp.Cookies.{
  CookieLine, plus, parsed, value_error, parse, render, header, split_lines, is_break, first_line,
  is_blank, parse_lines, parse_line, rstrip_breaks, is_comment, httponly_prefix, split_tabs,
  fields_line, dashes, expiry_line, decimal, without_prefix, with_cookie,
}
use fetcharr.Ytdlp.Cookies.RoundTrip.{parse-render}

abbrev pub plain : DownloadOptions
plain = record {
  quality = p720;
  container = mp4;
  fragments = auto;
  use_aria2c = auto;
  retries = 5;
  transcode = TranscodeProfile.off;
  transcode_quality = none;
  subtitles = record { mode = SubtitleMode.off; languages = []; include_auto_captions = false };
  sponsorblock = record { mode = SponsorBlockMode.off; categories = [] };
  audio_language = none;
  video_codec = any;
  allow_hdr = true;
  rate_limit = none;
  embed_metadata = true;
  embed_chapters = true;
}

classify_youtube :
    classify (record { protocols = "https" ∷ []; container = some "mp4_dash" } ∷ []) ≡ dash
unfolding classify
classify_youtube = refl

classify_hls :
    classify (record { protocols = "m3u8_native" ∷ "https" ∷ []; container = none } ∷ []) ≡ hls
unfolding classify
classify_hls = refl

selector_720 :
    build_selector p720 mp4 false any none true
    ≡ "bv*[height<=720][vcodec^=avc1]+ba[ext=m4a]/bv*[height<=720][ext=mp4]+ba[ext=m4a]/bv*[height<=720]+ba/b[height<=720]"
unfolding build_selector preferred script_selector height_filter wanted_codecs video_terms
selector_720 = refl

selector_gpu :
    build_selector best mkv true any none true ≡ "bv*[vcodec^=avc1]+ba/bv*[vcodec^=vp9]+ba/bv*+ba/b"
unfolding build_selector preferred script_selector height_filter wanted_codecs video_terms
selector_gpu = refl

youtube_hosts : is_youtube_host (some "m.youtube.com") ≡ true
unfolding is_youtube_host
youtube_hosts = refl

abbrev pub host : String → Option String
host url = some "www.youtube.com"

abbrev pub as_dash : Resolved
as_dash = record { stream_type = dash; fragments = 8; use_aria2c = false }

abbrev pub url : String
url = "https://www.youtube.com/watch?v=x"

downgrade_fragments-build_argv_example :
    downgrade_fragments (argv_of url plain as_dash "/jobs/1" (host url) none none)
    ≡ build_argv host url plain (record as_dash { fragments = 1 }) "/jobs/1" none none
unfolding build_argv
downgrade_fragments-build_argv_example =
    downgrade_fragments-build_argv host url plain as_dash "/jobs/1" none none _ refl

-- A cookie line for a.com with some text as its expiry, between tabs.
abbrev cookie_line : String → Text
cookie_line expires =
    codes "a.com"
    ++ 9 ∷ codes "TRUE"
    ++ 9 ∷ codes "/"
    ++ 9 ∷ codes "TRUE"
    ++ 9 ∷ codes expires
    ++ 9 ∷ codes "name"
    ++ 9 ∷ codes "value"

cookie_file : String → Text
unfolding header
cookie_file expires = header ++ 13 ∷ 10 ∷ codes "# a comment" ++ 10 ∷ cookie_line expires ++ 10 ∷ []

abbrev cookies : List CookieLine
cookies = record { raw = cookie_line "90"; domain = codes "a.com"; expires = plus 90 } ∷ []

parses : parse (cookie_file "90") ≡ parsed cookies
unfolding cookie_file parse header split_lines is_break first_line strip_space is_space is_blank
    parse_lines parse_line rstrip_breaks is_comment httponly_prefix split_tabs fields_line dashes
    expiry_line decimal without_prefix with_cookie
parses = refl

parse-render_example : parse (render cookies) ≡ parsed cookies
parse-render_example = parse-render (cookie_file "90") cookies parses

-- Two dashes pass the test for a number, and `int` fails.
two_dashes : parse (cookie_file "--90") ≡ value_error
unfolding cookie_file parse header split_lines is_break first_line strip_space is_space is_blank
    parse_lines parse_line rstrip_breaks is_comment httponly_prefix split_tabs fields_line dashes
    expiry_line decimal without_prefix with_cookie
two_dashes = refl
