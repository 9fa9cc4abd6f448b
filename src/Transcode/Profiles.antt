-- ===== src/Transcode/Profiles.antt =====
-- backend/app/transcode/profiles.py: the ffmpeg arguments of each profile. `none` stands for the
-- `ValueError` or the `KeyError` of a profile that does not transcode.
use fetcharr.Base.{
  ℕ, String, Bool, true, false, Option, none, some, List, [], ◌∷◌, ◌++◌, cat, show, str_eq, ◌==◌,
  if◌then◌else◌,
}
use fetcharr.Ytdlp.Options.{TranscodeProfile}

-- `str(profile)`
abbrev pub profile_name : TranscodeProfile → String
profile_name TranscodeProfile.off = "off"
profile_name TranscodeProfile.hevc_qsv = "hevc-qsv"
profile_name TranscodeProfile.hevc_vaapi = "hevc-vaapi"
profile_name TranscodeProfile.x265_software = "x265-software"

-- `profile in HARDWARE`
abbrev pub is_hardware : TranscodeProfile → Bool
is_hardware TranscodeProfile.hevc_qsv = true
is_hardware TranscodeProfile.hevc_vaapi = true
is_hardware _ = false

unfoldable pub default_quality : TranscodeProfile → Option ℕ
default_quality TranscodeProfile.hevc_qsv = some 24
default_quality TranscodeProfile.hevc_vaapi = some 24
default_quality TranscodeProfile.x265_software = some 23
default_quality TranscodeProfile.off = none

unfoldable pub input_args : TranscodeProfile → List String
input_args TranscodeProfile.hevc_qsv =
    "-init_hw_device" ∷ "qsv=hw" ∷ "-filter_hw_device" ∷ "hw" ∷ "-hwaccel" ∷ "qsv"
    ∷ "-hwaccel_output_format" ∷ "qsv" ∷ []
input_args TranscodeProfile.hevc_vaapi = "-vaapi_device" ∷ "/dev/dri/renderD128" ∷ []
input_args _ = []

unfoldable pub video_args : TranscodeProfile → ℕ → Option (List String)
video_args TranscodeProfile.hevc_qsv quality = some (
    "-c:v"
    ∷ "hevc_qsv"
    ∷ "-preset"
    ∷ "medium"
    ∷ "-global_quality"
    ∷ show quality
    ∷ "-look_ahead"
    ∷ "1"
    ∷ [])
video_args TranscodeProfile.hevc_vaapi quality = some (
    "-vf"
    ∷ "format=nv12,hwupload"
    ∷ "-c:v"
    ∷ "hevc_vaapi"
    ∷ "-rc_mode"
    ∷ "ICQ"
    ∷ "-global_quality"
    ∷ show quality
    ∷ [])
video_args TranscodeProfile.x265_software quality =
    some ("-c:v" ∷ "libx265" ∷ "-preset" ∷ "medium" ∷ "-crf" ∷ show quality ∷ [])
video_args TranscodeProfile.off quality = none

-- `configured.get(name)`
stored_quality : String → List (String × ℕ) → Option ℕ
stored_quality name [] = none
stored_quality name ((key, value) ∷ rest) =
    let later = stored_quality name rest in if str_eq key name then some value else later

-- A stored 0 is falsy, so it means the default too.
unfoldable pub quality_for : TranscodeProfile → List (String × ℕ) → Option ℕ
unfolding stored_quality default_quality
quality_for profile configured = elim (stored_quality (profile_name profile) configured) [
  | none ↦ default_quality profile
  | some value ↦ if value == 0 then default_quality profile else some value
]

-- `temp_output`, by its name in the job's folder
unfoldable pub temp_output : String → String
temp_output container = cat ("transcoded.tmp." ∷ container ∷ [])

abbrev base_args : List String
base_args =
    "-nostdin" ∷ "-hide_banner" ∷ "-loglevel" ∷ "error" ∷ "-progress" ∷ "pipe:1" ∷ "-nostats" ∷ "-y"
    ∷ []

abbrev map_args : List String
map_args = "-map" ∷ "0" ∷ "-c:s" ∷ "copy" ∷ "-map_chapters" ∷ "0" ∷ []

abbrev audio_args : List String
audio_args = "-c:a" ∷ "aac" ∷ "-b:a" ∷ "128k" ∷ []

abbrev mp4_args : List String
mp4_args = "-tag:v" ∷ "hvc1" ∷ "-movflags" ∷ "+faststart" ∷ []

unfoldable pub build_argv : TranscodeProfile → String → String → String → ℕ → Option (List String)
unfolding input_args video_args
build_argv profile source output container quality = elim (video_args profile quality) [
  | none ↦ none
  | some video ↦ some (
      base_args
      ++ input_args profile
      ++ ("-i" ∷ source ∷ [])
      ++ map_args
      ++ video
      ++ audio_args
      ++ (if str_eq container "mp4" then mp4_args else [])
      ++ output ∷ [])
]
