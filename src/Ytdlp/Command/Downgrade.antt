-- ===== src/Ytdlp/Command/Downgrade.antt =====
-- The fallback to one fragment at a time: backend/app/ytdlp/command.py.
use Prim.Native.String
use Prim.Native.Char.{code}
use text.Mathlib.TextLemmas.{head-eq_of_cons-eq, cons-append, append_assoc}
use fetcharr.Base.{
  String, Bool, true, false, ◌≡◌, refl, sym, ap, ◌∙◌, Option, some, List, [], ◌∷◌, ◌++◌, map, cat,
  join, str_eq, show, All, arith, eq_iff, if◌then◌else◌, Bool-cases, inl, inr,
}
use fetcharr.Ytdlp.Options.{
  DownloadOptions, Quality, Container, mkv, mp4, container_name, VideoCodec,
}
use fetcharr.Ytdlp.Stream.{Resolved}
use fetcharr.Ytdlp.Formats.{
  build_selector, preferred, script_selector, wanted_codecs, video_terms, height_filter,
}
use fetcharr.Ytdlp.Command.{
  JsRuntime, build_argv, argv_of, format_args, later_args, downgrade_fragments,
}

abbrev IsOther : String → Type 0
IsOther arg = str_eq arg "--concurrent-fragments" ≡ false

-- Behind arguments that are not the flag, its value is the one that is replaced.
downgrade_fragments-append :
    (before rest : List String) (count : String)
    → All IsOther before
    → downgrade_fragments (before ++ "--concurrent-fragments" ∷ count ∷ rest)
      ≡ some (before ++ "--concurrent-fragments" ∷ "1" ∷ rest)
unfolding downgrade_fragments
downgrade_fragments-append [] rest count h = refl
downgrade_fragments-append (arg ∷ before) rest count (other, h) =
    ground (arith, downgrade_fragments-append before rest count h)

-- A text that begins with `b` is not the flag.
abbrev BeginsB : String → Type 0
BeginsB s = (rest : String) × (s ≡ String.◌++◌ "b" rest)

BeginsB-IsOther : (s : String) → BeginsB s → IsOther s
BeginsB-IsOther s (rest, e) = elim (Bool-cases (str_eq s "--concurrent-fragments")) [
  | inl same ↦
      let flag : String.◌++◌ "b" rest ≡ "--concurrent-fragments" =
        sym e ∙ (eq_iff s "--concurrent-fragments").0 same in
      absurd (omega (arith, ap code (head-eq_of_cons-eq (sym (cons-append _ _ _) ∙ flag))))
  | inr other ↦ other
]

bv_BeginsB : (s : String) → BeginsB (String.◌++◌ "bv*" s)
bv_BeginsB s = (String.◌++◌ "v*" s, append_assoc "b" "v*" s)

join-BeginsB : (s : String) (xs : List String) → BeginsB s → BeginsB (join "/" (s ∷ xs))
join-BeginsB s [] h = h
join-BeginsB s (t ∷ xs) (rest, e) =
    (cat (rest ∷ "/" ∷ join "/" (t ∷ xs) ∷ []), simp (e, append_assoc))

all_join-BeginsB :
    (f : String → String) (terms : List String) (last : String)
    → ((t : String) → BeginsB (f t))
    → BeginsB last
    → BeginsB (join "/" (map f terms ++ last ∷ []))
all_join-BeginsB f [] last each h = h
all_join-BeginsB f (t ∷ terms) last each h = join-BeginsB (f t) (map f terms ++ last ∷ []) (each t)

script_selector-BeginsB :
    (hf : String) (container : Container) → BeginsB (script_selector hf container)
unfolding script_selector
script_selector-BeginsB hf mkv = bv_BeginsB _
script_selector-BeginsB hf mp4 = bv_BeginsB _

selector-IsOther :
    (quality : Quality) (container : Container) (gpu : Bool) (video_codec : VideoCodec)
    (language : Option String) (allow_hdr : Bool)
    → IsOther (build_selector quality container gpu video_codec language allow_hdr)
unfolding build_selector preferred
selector-IsOther quality container gpu video_codec language allow_hdr = BeginsB-IsOther _ (
    all_join-BeginsB _ (video_terms (wanted_codecs video_codec gpu) _) _ (λ t. bv_BeginsB _)
      (script_selector-BeginsB (height_filter quality) container))

container_name-IsOther : (container : Container) → IsOther (container_name container)
container_name-IsOther mkv = refl
container_name-IsOther mp4 = refl

flags-IsOther :
    (chapters metadata : Bool)
    → All IsOther (
        (if chapters then "--embed-chapters" ∷ [] else [])
        ++ (if metadata then "--embed-metadata" ∷ [] else [])
        ++ "--no-playlist" ∷ [])
flags-IsOther true true = (refl, (refl, (refl, tt)))
flags-IsOther true false = (refl, (refl, tt))
flags-IsOther false true = (refl, (refl, tt))
flags-IsOther false false = (refl, tt)

format_args-IsOther : (options : DownloadOptions) → All IsOther (format_args options)
unfolding format_args
format_args-IsOther options = (
  refl,
  (
    selector-IsOther _ _ _ _ _ _,
    (
      refl,
      (
        container_name-IsOther options.container,
        flags-IsOther options.embed_chapters options.embed_metadata,
      ),
    ),
  ),
)

pub downgrade_fragments-argv_of :
    (url : String) (options : DownloadOptions) (resolved : Resolved) (job_dir : String)
    (host cookies_path : Option String) (js_runtime : Option JsRuntime)
    → downgrade_fragments (argv_of url options resolved job_dir host cookies_path js_runtime)
      ≡ some (
          argv_of url options
            (record resolved { fragments = 1 })
            job_dir
            host
            cookies_path
            js_runtime)
unfolding argv_of show later_args
downgrade_fragments-argv_of url options resolved job_dir host cookies_path js_runtime =
    downgrade_fragments-append (format_args options)
      (later_args options resolved job_dir host cookies_path js_runtime ++ url ∷ [])
      (show resolved.fragments) (format_args-IsOther options)

module _ (hostname : String → Option String) where
  -- Of the arguments that the builder accepts a URL with, the exit-code-2 fallback makes exactly the
  -- arguments that the builder gives for one fragment at a time: it changes nothing else, whatever
  -- the URL, the options and the rest are, and it always finds its flag.
  pub downgrade_fragments-build_argv :
      (url : String) (options : DownloadOptions) (resolved : Resolved) (job_dir : String)
      (cookies_path : Option String) (js_runtime : Option JsRuntime) (argv : List String)
      → build_argv hostname url options resolved job_dir cookies_path js_runtime ≡ some argv
      → downgrade_fragments argv
        ≡ build_argv hostname url options
            (record resolved { fragments = 1 })
            job_dir
            cookies_path
            js_runtime
  unfolding build_argv
  downgrade_fragments-build_argv url options resolved job_dir cookies_path js_runtime argv e =
      ground (
        arith,
        downgrade_fragments-argv_of url options resolved job_dir (hostname url) cookies_path
            js_runtime,
      )
