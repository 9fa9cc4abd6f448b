-- ===== src/Ytdlp/Stream.antt =====
-- backend/app/ytdlp/stream.py: the stream type of the selected formats, and what `auto` means.
-- A protocol of a format comes split at its plus signs, `(f.get("protocol") or "").split("+")`.
use Prim.Native.String.{len, slice}
use mathlib.Core.List.{flat_map}
use text.Mathlib.Text.{starts_with, find?}
use fetcharr.Base.{
  ℕ, ◌-◌, String, Bool, true, false, ◌&&◌, ◌||◌, Option, none, some, List, any, str_eq, is_some,
  leb, if◌then◌else◌,
}
use fetcharr.Ytdlp.Options.{Auto, auto, chosen, DownloadOptions}

pub data StreamType : Type 0 where
  hls dash http : StreamType

abbrev pub is_http : StreamType → Bool
is_http http = true
is_http _ = false

-- One selected format: its protocols, and its container where it names one.
pub record Format : Type 0 where
  pub protocols : List String
  pub container : Option String

abbrev ends_with : String → String → Bool
ends_with s t = leb (len t) (len s) && str_eq (slice s (len s - len t) (len s)) t

container_is_dash : Option String → Bool
container_is_dash none = false
container_is_dash (some c) = ends_with c "_dash"

-- `classify`, over the formats that yt-dlp selected
unfoldable pub classify : List Format → StreamType
unfolding container_is_dash flat_map
classify selected =
    let protocols = flat_map (λ f. f.protocols) selected in
    if any (λ p. starts_with p "m3u8") protocols
    then hls
    else if any (λ p. is_some (find? p "dash")) protocols
        || any (λ f. container_is_dash f.container) selected
    then dash
    else http

pub record Resolved : Type 0 where
  pub stream_type : StreamType
  pub fragments : ℕ
  pub use_aria2c : Bool

resolved_fragments : StreamType → Auto ℕ → ℕ
resolved_fragments stream_type auto = if is_http stream_type then 1 else 4
resolved_fragments stream_type (chosen n) = n

resolved_aria2c : StreamType → Auto Bool → Bool → Bool
resolved_aria2c stream_type auto available = is_http stream_type && available
resolved_aria2c stream_type (chosen b) available = b && available

unfoldable pub resolve_auto : StreamType → DownloadOptions → Bool → Resolved
unfolding resolved_fragments resolved_aria2c
resolve_auto stream_type options available = record {
  stream_type = stream_type;
  fragments = resolved_fragments stream_type options.fragments;
  use_aria2c = resolved_aria2c stream_type options.use_aria2c available;
}
