-- ===== src/Ytdlp/Options.antt =====
-- backend/app/ytdlp/schemas.py: the allow-listed download options, and the profile names of
-- backend/app/transcode/profiles.py that they mention. A `Literal` is a data type. The validators
-- are not part of this file.
use fetcharr.Base.{ℕ, String, Bool, Option, List, [], ◌∷◌}

pub data TranscodeProfile : Type 0 where
  off hevc_qsv hevc_vaapi x265_software : TranscodeProfile

-- `profile is not TranscodeProfile.OFF`
abbrev pub is_transcoded : TranscodeProfile → Bool
is_transcoded TranscodeProfile.off = Bool.false
is_transcoded _ = Bool.true

pub data Quality : Type 0 where
  p144 p240 p360 p480 p720 p1080 p1440 p2160 four_k best : Quality

pub data Container : Type 0 where
  mkv mp4 : Container

abbrev pub container_name : Container → String
container_name mkv = "mkv"
container_name mp4 = "mp4"

pub data SubtitleMode : Type 0 where
  off embed sidecar : SubtitleMode

pub data SponsorBlockMode : Type 0 where
  off mark remove : SponsorBlockMode

pub data VideoCodec : Type 0 where
  any h264 vp9 av1 : VideoCodec

-- `Literal["auto"] | T`
pub data Auto (A : Type 0) : Type 0 where
  auto : Auto A
  chosen : A → Auto A

pub record SubtitleOptions : Type 0 where
  pub mode : SubtitleMode
  pub languages : List String
  pub include_auto_captions : Bool

pub record SponsorBlockOptions : Type 0 where
  pub mode : SponsorBlockMode
  pub categories : List String

abbrev pub default_mark : List String
default_mark = "all" ∷ []

abbrev pub default_remove : List String
default_remove = "sponsor" ∷ "selfpromo" ∷ "interaction" ∷ []

default_categories : SponsorBlockMode → List String
default_categories mark = default_mark
default_categories _ = default_remove

-- `SponsorBlockOptions.chosen`
unfoldable pub chosen_categories : SponsorBlockOptions → List String
unfolding default_categories
chosen_categories s = elim s.categories [ [] ↦ default_categories s.mode | c ∷ rest ↦ c ∷ rest ]

pub record DownloadOptions : Type 0 where
  pub quality : Quality
  pub container : Container
  pub fragments : Auto ℕ
  pub use_aria2c : Auto Bool
  pub retries : ℕ
  pub transcode : TranscodeProfile
  pub transcode_quality : Option ℕ
  pub subtitles : SubtitleOptions
  pub sponsorblock : SponsorBlockOptions
  pub audio_language : Option String
  pub video_codec : VideoCodec
  pub allow_hdr : Bool
  pub rate_limit : Option String
  pub embed_metadata : Bool
  pub embed_chapters : Bool
