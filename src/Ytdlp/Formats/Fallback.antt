-- ===== src/Ytdlp/Formats/Fallback.antt =====
-- The last alternative of a selector: backend/app/ytdlp/formats.py.
use text.Mathlib.TextLemmas.{append-nil, append_assoc}
use fetcharr.Base.{
  String, Bool, true, false, ◌≡◌, refl, ◌⊎◌, inl, inr, Option, none, List, [], ◌∷◌, ◌++◌, cat, join,
}
use fetcharr.Ytdlp.Options.{Quality, Container, VideoCodec, any}
use fetcharr.Ytdlp.Formats.{
  build_selector, preferred, script_selector, height_filter, wanted_codecs, video_terms,
}

-- What stands last in a joined list stands last in its text.
join-last :
    (s : String) (xs : List String) (x : String)
    → (p : String) × (join "/" (s ∷ (xs ++ x ∷ [])) ≡ cat (p ∷ "/" ∷ x ∷ []))
join-last s [] x = (s, simp append-nil)
join-last s (t ∷ rest) x =
    let (p, e) = join-last t rest x in (cat (s ∷ "/" ∷ p ∷ []), simp (e, append-nil, append_assoc))

joined_fallback :
    (xs : List String) (x : String)
    → (join "/" (xs ++ x ∷ []) ≡ x)
      ⊎ ((p : String) × (join "/" (xs ++ x ∷ []) ≡ cat (p ∷ "/" ∷ x ∷ [])))
joined_fallback [] x = inl refl
joined_fallback (s ∷ xs) x = inr (join-last s xs x)

-- Whatever is preferred, the script's own selector for the quality and the container is the last
-- alternative of the selector: the selector is that text, or ends in a slash and that text. With no
-- codec asked for, no transcode to follow, no language and HDR allowed, it is that text.
pub build_selector-fallback :
    (quality : Quality) (container : Container) (gpu : Bool) (video_codec : VideoCodec)
    (language : Option String) (allow_hdr : Bool)
    → let script = script_selector (height_filter quality) container in
      let selector = build_selector quality container gpu video_codec language allow_hdr in
      ((selector ≡ script) ⊎ ((p : String) × (selector ≡ cat (p ∷ "/" ∷ script ∷ []))))
      × (build_selector quality container false any none true ≡ script)
unfolding build_selector preferred wanted_codecs video_terms
build_selector-fallback quality container gpu video_codec language allow_hdr =
    (joined_fallback (preferred quality container gpu video_codec language allow_hdr) _, refl)
