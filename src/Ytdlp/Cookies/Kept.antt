-- ===== src/Ytdlp/Cookies/Kept.antt =====
-- A file that is rendered of some of the cookies that were parsed: backend/app/ytdlp/cookies.py.
use mathlib.Core.Path.{subst}
use fetcharr.Base.{
  ℕ, suc, ◌≡◌, refl, sym, ap, ◌∙◌, inl, inr, Bool, true, List, [], ◌∷◌, All, each, keep, Text,
  arith, Bool-cases,
}
use fetcharr.Ytdlp.Cookies.{
  CookieLine, cookie, parsed, split_lines, parse_line, parse_lines, parse, render,
}
use fetcharr.Ytdlp.Cookies.Lines.{is_one_line, each-split_lines}
use fetcharr.Ytdlp.Cookies.RoundTrip.{
  Stable, Stable-cons, Line-cases, parse_line-raw, with_cookie-parsed, split_lines-render,
  parse-lines, parse-parsed,
}

-- A cookie whose own line gives it.
abbrev Genuine : CookieLine → Type 0
Genuine c = (parse_line c.raw ≡ cookie c) × (is_one_line c.raw ≡ true)

Genuine-parse_lines :
    (n : ℕ) (lines : List Text) (cs : List CookieLine)
    → each is_one_line lines ≡ true
    → parse_lines n lines ≡ parsed cs
    → All Genuine cs
unfolding parse_lines
Genuine-parse_lines n [] [] one h = tt
Genuine-parse_lines n [] (c ∷ cs) one h = absurd (ground (arith, h))
Genuine-parse_lines n (line ∷ lines) cs one h = elim (Line-cases (parse_line line)) [
  | inl e ↦ Genuine-parse_lines (suc n) lines cs (ground (arith, one)) (ground (arith, h, e))
  | inr (inl (c, e)) ↦
      let (cs', rest, same) =
        with_cookie-parsed c (parse_lines (suc n) lines) cs (ground (arith, h, e)) in
      let own = parse_line-raw line c (ground (arith, one)) e in
      subst (All Genuine) (sym same) (
        (ap parse_line own ∙ e, ap is_one_line own ∙ ground (arith, one)),
        Genuine-parse_lines (suc n) lines cs' (ground (arith, one)) rest,
      )
  | inr (inr (inl (reason, e))) ↦ absurd (ground (arith, h, e))
  | inr (inr (inr e)) ↦ absurd (ground (arith, h, e))
]

Genuine-keep :
    (p : CookieLine → Bool) (cs : List CookieLine) → All Genuine cs → All Genuine (keep p cs)
Genuine-keep p [] h = tt
Genuine-keep p (c ∷ cs) h = elim (Bool-cases (p c)) [
  | inl e ↦ rw e (h.0, Genuine-keep p cs h.1)
  | inr e ↦ rw e (Genuine-keep p cs h.1)
]

Genuine-Stable : (cs : List CookieLine) → All Genuine cs → Stable cs
unfolding parse_lines
Genuine-Stable [] h = (λ m. refl, refl)
Genuine-Stable (c ∷ cs) h = Stable-cons c.raw c cs h.0.1 h.0.0 (Genuine-Stable cs h.1)

-- Any of the cookies of a file that is accepted are read again from the file that is rendered of them.
pub parse-keep :
    (p : CookieLine → Bool) (text : Text) (cs : List CookieLine)
    → parse text ≡ parsed cs
    → parse (render (keep p cs)) ≡ parsed (keep p cs)
parse-keep p text cs h =
    let genuine =
      Genuine-parse_lines 1 (split_lines text) cs (each-split_lines text)
        (parse-parsed text cs h) in
    let (again, lines) = Genuine-Stable (keep p cs) (Genuine-keep p cs genuine) in
    parse-lines (render (keep p cs)) (keep p cs) (split_lines-render (keep p cs) lines) again
