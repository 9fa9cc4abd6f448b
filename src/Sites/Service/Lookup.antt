-- ===== src/Sites/Service/Lookup.antt =====
-- What the rows of a key are after a change of the tables: backend/app/sites/service.py.
use fetcharr.Base.{
  ℕ, ◌≡◌, refl, ◌⊎◌, inl, inr, Bool, true, not, Option, none, some, List, [], ◌∷◌, ◌++◌, each, keep,
  Text, text_eq, text_eq_iff, arith, if◌then◌else◌,
}
use fetcharr.Ytdlp.Cookies.{CookieLine, Parsed, parsed, cookie_file_error, value_error}
use fetcharr.Sites.Rows.{
  SiteRow, CookiesRow, SiteError, Answer, answered, refused, find_site, find_cookies,
}
use fetcharr.Sites.Service.{without_cookies, alter_cookies, put_cookies}

pub find_site-keep :
    (k key : Text) (sites : List SiteRow)
    → find_site k (keep (λ x. not (text_eq x.key key)) sites)
      ≡ (if text_eq key k then none else find_site k sites)
unfolding find_site
find_site-keep k key [] = ground arith
find_site-keep k key (x ∷ sites) = ground (
  arith,
  find_site-keep k key sites,
  text_eq_iff x.key key,
  text_eq_iff x.key k,
  text_eq_iff key k,
)

pub find_site-append :
    (k : Text) (sites : List SiteRow) (site : SiteRow)
    → find_site k (sites ++ site ∷ []) ≡ elim (find_site k sites) [
      | some other ↦ some other
      | none ↦ if text_eq site.key k then some site else none
    ]
unfolding find_site
find_site-append k [] site = ground arith
find_site-append k (x ∷ sites) site = ground (arith, find_site-append k sites site)

pub find_cookies-without :
    (k key : Text) (rows : List CookiesRow)
    → find_cookies k (without_cookies key rows)
      ≡ (if text_eq key k then none else find_cookies k rows)
unfolding find_cookies without_cookies
find_cookies-without k key [] = ground arith
find_cookies-without k key (x ∷ rows) = ground (
  arith,
  find_cookies-without k key rows,
  text_eq_iff x.site_key key,
  text_eq_iff x.site_key k,
  text_eq_iff key k,
)

pub find_cookies-nil : (k : Text) → find_cookies k [] ≡ none
unfolding find_cookies
find_cookies-nil k = refl

abbrev pub changed : (CookiesRow → CookiesRow) → Option CookiesRow → Option CookiesRow
changed f none = none
changed f (some row) = some (f row)

pub find_cookies-alter :
    (k key : Text) (f : CookiesRow → CookiesRow) (rows : List CookiesRow)
    → ((row : CookiesRow) → (f row).site_key ≡ row.site_key)
    → find_cookies k (alter_cookies key f rows)
      ≡ (if text_eq key k then changed f (find_cookies k rows) else find_cookies k rows)
unfolding find_cookies alter_cookies
find_cookies-alter k key f [] same = ground arith
find_cookies-alter k key f (x ∷ rows) same = ground (
  arith,
  find_cookies-alter k key f rows same,
  same x,
  text_eq_iff x.site_key key,
  text_eq_iff x.site_key k,
  text_eq_iff key k,
)

pub find_cookies-put :
    (k : Text) (row : CookiesRow) (rows : List CookiesRow)
    → find_cookies k (put_cookies row rows)
      ≡ (if text_eq row.site_key k then some row else find_cookies k rows)
unfolding find_cookies put_cookies
find_cookies-put k row [] = ground arith
find_cookies-put k row (x ∷ rows) = ground (
  arith,
  find_cookies-put k row rows,
  text_eq_iff x.site_key row.site_key,
  text_eq_iff x.site_key k,
  text_eq_iff row.site_key k,
)

pub each-kept : (p : CookieLine → Bool) (cs : List CookieLine) → each p (keep p cs) ≡ true
each-kept p [] = refl
each-kept p (c ∷ cs) = ground (arith, each-kept p cs)

pub Parsed-cases :
    (p : Parsed)
    → ((cs : List CookieLine) × (p ≡ parsed cs))
      ⊎ (((line : ℕ) × ((reason : Text) × (p ≡ cookie_file_error line reason))) ⊎ (p ≡ value_error))
Parsed-cases (parsed cs) = inl (cs, refl)
Parsed-cases (cookie_file_error line reason) = inr (inl (line, (reason, refl)))
Parsed-cases value_error = inr (inr refl)

pub Answer-cases :
    {A : Type 0} (a : Answer A)
    → ((x : A) × (a ≡ answered x)) ⊎ ((error : SiteError) × (a ≡ refused error))
Answer-cases (answered x) = inl (x, refl)
Answer-cases (refused error) = inr (error, refl)
