-- ===== src/Transcode/Tests.antt =====
-- A transcode on a small folder, and the properties at it: a hardware run that fails and falls back,
-- and a software run that fails.
use fetcharr.Base.{
  arith, show, String, true, false, ◌≡◌, ◌≢◌, ◌⊎◌, none, some, List, [], ◌∷◌, any, str_eq,
  if◌then◌else◌,
}
use fetcharr.Ytdlp.Options.{x265_software}
use fetcharr.Transcode.Profiles.{
  is_hardware, temp_output, quality_for, input_args, video_args, build_argv,
}
use fetcharr.Transcode.Runner.{
  Process, Swapping, JobDir, await_swap, exited, finished, transcode, encode, conclude, fall_back,
  replace_source, run_ended, reason,
}
use fetcharr.Transcode.Runner.Atomic.{Intact, transcode-Intact}

-- An ffmpeg without a GPU.
abbrev no_gpu : List String → Process String
no_gpu argv =
    if any (str_eq "libx265") argv
    then record {
      code = exited 0;
      tail = [];
      written = some "encoded";
      cancelled = false;
      shut_down = false;
    }
    else record {
      code = exited 1;
      tail = "no device" ∷ [];
      written = none;
      cancelled = false;
      shut_down = false;
    }

abbrev broken : List String → Process String
broken argv = record {
  code = exited 1;
  tail = "no codec" ∷ [];
  written = some "half";
  cancelled = false;
  shut_down = false;
}

abbrev calm : Swapping
calm = record { unmoved = none; unmarked = none; cut_off = false }

abbrev folder : JobDir String
folder = record { temps = []; source = "download"; done = false; log = [] }

fails : (transcode broken calm x265_software "film.mp4" "mp4" [] folder).0.0 ≢ finished
unfolding transcode encode conclude fall_back await_swap replace_source run_ended reason quality_for
    build_argv input_args video_args temp_output show
fails e = absurd (ground (arith, e))

transcode-Intact_example :
    Intact broken calm "film.mp4" "mp4" [] x265_software folder
      (transcode broken calm x265_software "film.mp4" "mp4" [] folder).1
    ⊎ (Intact broken calm "film.mp4" "mp4" [] x265_software folder
          (transcode broken calm x265_software "film.mp4" "mp4" [] folder).1
        × (is_hardware x265_software ≡ true))
transcode-Intact_example =
    transcode-Intact broken calm "film.mp4" "mp4" [] x265_software folder fails
