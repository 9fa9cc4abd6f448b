-- ===== src/Ytdlp/Formats.antt =====
-- backend/app/ytdlp/formats.py: the format selector of a download.
pub mod Fallback
use fetcharr.Base.{
  ℕ, String, Bool, not, ◌||◌, Option, none, some, List, [], ◌∷◌, ◌++◌, map, cat, join, show, str_eq,
  if◌then◌else◌,
}
use fetcharr.Ytdlp.Options.{
  Quality, p144, p240, p360, p480, p720, p1080, p1440, p2160, four_k, best, Container, mkv, mp4,
  VideoCodec, any, h264, vp9, av1,
}

abbrev gpu_decodable : List String
gpu_decodable = "avc1" ∷ "vp9" ∷ []

-- `_HEIGHTS`
unfoldable pub quality_height : Quality → Option ℕ
quality_height p144 = some 144
quality_height p240 = some 240
quality_height p360 = some 360
quality_height p480 = some 480
quality_height p720 = some 720
quality_height p1080 = some 1080
quality_height p1440 = some 1440
quality_height p2160 = some 2160
quality_height four_k = some 2160
quality_height best = none

-- `hf`, the height filter
unfoldable pub height_filter : Quality → String
unfolding quality_height show
height_filter quality = elim (quality_height quality) [
  | none ↦ ""
  | some height ↦ cat ("[height<=" ∷ show height ∷ "]" ∷ [])
]

-- `_script_selector`
unfoldable pub script_selector : String → Container → String
script_selector hf mp4 = cat (
    "bv*" ∷ hf ∷ "[vcodec^=avc1]+ba[ext=m4a]/bv*" ∷ hf ∷ "[ext=mp4]+ba[ext=m4a]/bv*" ∷ hf ∷ "+ba/b"
    ∷ hf ∷ [])
script_selector hf mkv = cat ("bv*" ∷ hf ∷ "+ba/b" ∷ hf ∷ [])

-- `codecs`: the codec that was asked for, by `CODEC_PREFIXES`, or those the GPU decodes
unfoldable pub wanted_codecs : VideoCodec → Bool → List String
wanted_codecs h264 gpu = "avc1" ∷ []
wanted_codecs vp9 gpu = "vp9" ∷ []
wanted_codecs av1 gpu = "av01" ∷ []
wanted_codecs any gpu = if gpu then gpu_decodable else []

sdr_filter : Bool → String
sdr_filter allow_hdr = if allow_hdr then "" else "[dynamic_range=SDR]"

audio_filter : Container → String
audio_filter mp4 = "[ext=m4a]"
audio_filter mkv = ""

language_filter : Option String → String
language_filter none = ""
language_filter (some language) = cat ("[language=" ∷ language ∷ "]" ∷ [])

-- `video_terms`: one for each codec, or a bare one where only a preference on sound or range is set
unfoldable pub video_terms : List String → Bool → List String
video_terms [] preference = if preference then "" ∷ [] else []
video_terms (codec ∷ more) preference = map (λ c. cat ("[vcodec^=" ∷ c ∷ "]" ∷ [])) (codec ∷ more)

-- `preferred`: the alternatives that stand before the script's own selector. The test `sdr or
-- language` is of a text that is empty exactly without the preference.
unfoldable pub preferred :
    Quality → Container → Bool → VideoCodec → Option String → Bool → List String
unfolding sdr_filter audio_filter language_filter
preferred quality container gpu video_codec audio_language allow_hdr =
    let sdr = sdr_filter allow_hdr in
    let language = language_filter audio_language in
    let preference = not (str_eq sdr "") || not (str_eq language "") in
    map
      (λ term. cat (
        "bv*"
        ∷ height_filter quality
        ∷ term
        ∷ sdr
        ∷ "+ba"
        ∷ audio_filter container
        ∷ language
        ∷ []))
      (video_terms (wanted_codecs video_codec gpu) preference)

unfoldable pub build_selector :
    Quality → Container → Bool → VideoCodec → Option String → Bool → String
build_selector quality container gpu video_codec audio_language allow_hdr = join "/" (
    preferred quality container gpu video_codec audio_language allow_hdr
    ++ script_selector (height_filter quality) container ∷ [])
