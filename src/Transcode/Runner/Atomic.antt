-- ===== src/Transcode/Runner/Atomic.antt =====
-- The swap of the source for the output: backend/app/transcode/runner.py, `transcode`.
use text.Mathlib.TextPositions.{eq_refl}
use mathlib.Core.Path.{subst}
use fetcharr.Base.{
  sym, ap, ◌∙◌, Bool-cases, ℕ, String, Bool, true, false, ◌≡◌, ◌≢◌, refl, ◌⊎◌, inl, inr, none, some,
  List, [], ◌∷◌, arith, cat, Option-cases,
}
use fetcharr.Ytdlp.Options.{TranscodeProfile, x265_software}
use fetcharr.Transcode.Profiles.{profile_name, is_hardware, quality_for, temp_output, build_argv}
use fetcharr.Transcode.Runner.{
  ExitCode, Process, Swapping, JobDir, shut_down, crashed, await_swap, write_done, Ended, finished,
  failed, cancelled, invalid, without, find, say, run_ended, encode, replace_source, conclude,
  fall_back, transcode,
}

find-without :
    {C : Type 0} (name : String) (temps : List (String × C)) → find name (without name temps) ≡ none
find-without name [] = refl
find-without name ((key, value) ∷ rest) = ground (arith, find-without name rest)

-- An end that is neither a success nor a failure of ffmpeg.
abbrev other_end : Ended → Bool
other_end finished = false
other_end (failed code message) = false
other_end _ = true

Ended-cases :
    (e : Ended)
    → (e ≡ finished)
      ⊎ (((code : ExitCode) × (message : String) × (e ≡ failed code message))
          ⊎ ((other_end e ≡ true)))
Ended-cases finished = inl refl
Ended-cases (failed code message) = inr (inl (code, message, refl))
Ended-cases cancelled = inr (inr refl)
Ended-cases invalid = inr (inr refl)
Ended-cases shut_down = inr (inr refl)
Ended-cases (crashed error) = inr (inr refl)

module _ {C : Type 0} (ffmpeg : List String → Process C) (swapping : Swapping) where
  -- Some run of `chosen` succeeded and wrote `output`.
  pub record Wrote (chosen : TranscodeProfile) (source container : String)
      (configured : List (String × ℕ)) (output : C) : Type 0 where
    pub argv : List String
    pub quality : ℕ
    pub measured : quality_for chosen configured ≡ some quality
    pub built : build_argv chosen source (temp_output container) container quality ≡ some argv
    pub succeeded : run_ended (ffmpeg argv) ≡ finished
    pub wrote : (ffmpeg argv).written ≡ some output

  module _ (source container : String) (configured : List (String × ℕ)) where
    abbrev name : String
    name = temp_output container

    encode-keeps :
        (chosen : TranscodeProfile) (d : JobDir C)
        → let d' = (encode ffmpeg swapping chosen source container configured d).1 in
          (d'.source ≡ d.source) × (d'.done ≡ d.done)
    unfolding encode
    encode-keeps chosen d = ground arith

    encode-Wrote :
        (chosen : TranscodeProfile) (d : JobDir C) (output : C)
        → find name d.temps ≡ none
        → (encode ffmpeg swapping chosen source container configured d).0 ≡ finished
        → find name (encode ffmpeg swapping chosen source container configured d).1.temps
          ≡ some output
        → Wrote chosen source container configured output
    unfolding encode
    encode-Wrote chosen d output clean ended found =
        elim (Option-cases (quality_for chosen configured)) [
          | inl e ↦ absurd (ground arith)
          | inr (quality, e) ↦
              elim (Option-cases (build_argv chosen source name container quality)) [
                | inl f ↦ absurd (ground arith)
                | inr (argv, f) ↦ record {
                  argv = argv;
                  quality = quality;
                  measured = e;
                  built = f;
                  succeeded = ground arith;
                  wrote = ground (arith, eq_refl name);
                }
              ]
        ]

    -- The swap was cut off by a shutdown, or its marker could not be written.
    abbrev pub Unmarked : Type 0
    Unmarked = (swapping.cut_off ≡ true) ⊎ ((e : Bool × String) × (swapping.unmarked ≡ some e))

    abbrev pub Kept : JobDir C → JobDir C → Type 0
    Kept before after = (after.source ≡ before.source) × (after.done ≡ before.done)

    conclude_unfinished :
        (fell_back : Bool) (d : JobDir C)
        → let r = conclude ffmpeg swapping source container fell_back d in
          r.0.0 ≢ finished → Kept d r.1 ⊎ ((find name d.temps ≡ some r.1.source) × Unmarked)
    unfolding conclude replace_source await_swap write_done
    conclude_unfinished fell_back d h = elim (Option-cases (find name d.temps)) [
      | inl e ↦ inl (ground (arith, e), ground (arith, e))
      | inr (output, e) ↦ elim (Option-cases swapping.unmoved) [
        | inr (error, m) ↦ inl (ground (arith, e, m), ground (arith, e, m))
        | inl m ↦ elim (Bool-cases swapping.cut_off) [
          | inl f ↦ inr (ground (arith, e, m, f), inl f)
          | inr f ↦ elim (Option-cases swapping.unmarked) [
            | inl g ↦ absurd (h (ground (arith, e, m, f, g)))
            | inr (there, g) ↦ inr (ground (arith, e, m, f, g), inr (there, g))
          ]
        ]
      ]
    ]

    -- The folder that the fallback starts from: the failure is logged and the output is gone.
    abbrev cleared : TranscodeProfile → String → JobDir C → JobDir C
    cleared profile message d =
        let line = cat (
          profile_name profile ∷ " failed (" ∷ message ∷ "); falling back to x265-software" ∷ []) in
        record (say line d) { temps = without name d.temps }

    -- What a finished transcode leaves behind, told by the profile that was used last.
    pub record Swapped (used : TranscodeProfile) (d : JobDir C) : Type 0 where
      pub output : Wrote used source container configured d.source
      pub marked : d.done ≡ true
      pub cleaned : find name d.temps ≡ none

    transcode_step :
        (profile : TranscodeProfile) (d : JobDir C)
        → let r = transcode ffmpeg swapping profile source container configured d in
          let first =
            encode ffmpeg swapping profile source container configured (record d { temps = [] }) in
          r.0.0 ≡ finished
          → ((first.0 ≡ finished) × (r ≡ conclude ffmpeg swapping source container false first.1))
            ⊎ ((message : String) × (is_hardware profile ≡ true)
                × (r
                    ≡ fall_back ffmpeg swapping profile source container configured message
                        first.1))
    unfolding transcode
    transcode_step profile d h =
        elim (Ended-cases
          (encode ffmpeg swapping profile source container configured
            (record d { temps = [] })).0) [
              | inl e ↦ inl (e, ground arith)
              | inr (inl (code, message, e)) ↦ inr (message, ground arith, ground arith)
              | inr (inr e) ↦ absurd (ground arith)
            ]

    -- What an unfinished transcode leaves: the source and the marker as they were, or, in the source's
    -- place, all of what a successful run of that profile wrote, where the swap was not marked.
    abbrev pub Intact : TranscodeProfile → JobDir C → JobDir C → Type 0
    Intact used before after =
        Kept before after ⊎ (Wrote used source container configured after.source × Unmarked)

    again_unfinished :
        (used : TranscodeProfile) (d : JobDir C) (fell_back : Bool)
        → find name d.temps ≡ none
        → let again = encode ffmpeg swapping used source container configured d in
          let r = conclude ffmpeg swapping source container fell_back again.1 in
          again.0 ≡ finished → r.0.0 ≢ finished → Intact used d r.1
    again_unfinished used d fell_back clean ended h =
        let again = encode ffmpeg swapping used source container configured d in
        let (source_kept, done_kept) = encode-keeps used d in
        elim (conclude_unfinished fell_back again.1 h) [
          | inl (a, b) ↦ inl (a ∙ source_kept, b ∙ done_kept)
          | inr (found, why) ↦ inr (encode-Wrote used d _ clean ended found, why)
        ]

    fall_back_unfinished :
        (profile : TranscodeProfile) (message : String) (d : JobDir C)
        → let r = fall_back ffmpeg swapping profile source container configured message d in
          r.0.0 ≢ finished → Intact x265_software d r.1
    unfolding fall_back
    fall_back_unfinished profile message d h =
        let start = cleared profile message d in
        let (source_kept, done_kept) = encode-keeps x265_software start in
        elim (Ended-cases
          (encode ffmpeg swapping x265_software source container configured start).0) [
            | inl e ↦
                let same : conclude ffmpeg swapping source container true
                      (encode ffmpeg swapping x265_software source container configured start).1
                    ≡ fall_back ffmpeg swapping profile source container configured message d =
                  ground (arith, e) in
                subst (λ r. Intact x265_software d r.1) same
                  (again_unfinished x265_software start true (find-without name d.temps) e
                    (rw same h))
            | inr (inl (code, text, e)) ↦
                inl (ground (arith, e, source_kept), ground (arith, e, done_kept))
            | inr (inr e) ↦ inl (ground (arith, e, source_kept), ground (arith, e, done_kept))
          ]

    -- However a transcode ends unfinished, whether ffmpeg failed, the job was cancelled, fetcharr shut
    -- down while ffmpeg ran or the file was swapped, or the swap failed, the source is a whole file: it and the done marker are as they
    -- were, or it is what a successful run of the profile that was asked for, or of x265 after a hardware
    -- profile, wrote. The latter is only where the shutdown came during the swap or the marker could not
    -- be written.
    pub transcode-Intact :
        (profile : TranscodeProfile) (d : JobDir C)
        → (transcode ffmpeg swapping profile source container configured d).0.0 ≢ finished
        → Intact profile d (transcode ffmpeg swapping profile source container configured d).1
          ⊎ (Intact x265_software d
                (transcode ffmpeg swapping profile source container configured d).1
              × (is_hardware profile ≡ true))
    unfolding transcode
    transcode-Intact profile d h =
        let start = record d { temps = [] } in
        let first = encode ffmpeg swapping profile source container configured start in
        let whole = transcode ffmpeg swapping profile source container configured d in
        let (source_kept, done_kept) = encode-keeps profile start in
        elim (Ended-cases first.0) [
          | inl e ↦
              let same : conclude ffmpeg swapping source container false first.1 ≡ whole =
                ground (arith, e) in
              inl (
                subst (λ r. Intact profile d r.1) same
                  (again_unfinished profile start false refl e (rw same h)))
          | inr (inl (code, message, e)) ↦ elim (Bool-cases (is_hardware profile)) [
            | inr soft ↦
                inl (inl (ground (arith, e, soft, source_kept), ground (arith, e, soft, done_kept)))
            | inl hard ↦
                let same : fall_back ffmpeg swapping profile source container configured message
                      first.1
                    ≡ whole =
                  ground (arith, e, hard) in
                inr (
                  elim (fall_back_unfinished profile message first.1 (rw same h)) [
                    | inl (a, b) ↦ inl (
                      ap (λ r. r.1.source) (sym same) ∙ a ∙ source_kept,
                      ap (λ r. r.1.done) (sym same) ∙ b ∙ done_kept,
                    )
                    | inr (wrote, why) ↦ inr (
                      subst (λ r. Wrote x265_software source container configured r.1.source) same
                          wrote,
                      why,
                    )
                  ],
                  hard,
                )
          ]
          | inr (inr e) ↦ inl (inl (ground (arith, e, source_kept), ground (arith, e, done_kept)))
        ]
