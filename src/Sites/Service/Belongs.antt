-- ===== src/Sites/Service/Belongs.antt =====
-- Which cookies are a site's own, and the site operations that store none: backend/app/sites/service.py.
use mathlib.Core.Path.{subst}
use fetcharr.Base.{
  ℕ, ◌≡◌, refl, sym, ap, ◌∙◌, inl, inr, Bool, true, false, not, Option, none, some, List, [], ◌∷◌,
  ◌++◌, each, keep, any as any_of, Text, text_eq, arith, Bool-cases, Option-cases, if◌then◌else◌,
}
use fetcharr.Ytdlp.Cookies.{CookieLine, parsed, parse, render}
use fetcharr.Ytdlp.Cookies.Kept.{parse-keep}
use fetcharr.Sites.{host_matches, keep_for_domains}
use fetcharr.Sites.Rows.{SiteRow, CookiesRow, SitesState, answered, find_site, find_cookies}
use fetcharr.Sites.Service.{
  Filtered, create, unique, delete, delete_cookies, flag, without_cookies, alter_cookies, filter,
  filtered_of,
}
use fetcharr.Sites.Service.Lookup.{
  find_site-keep, find_site-append, find_cookies-without, find_cookies-alter, each-kept,
  Parsed-cases, changed,
}

module _ (lower : Text → Text) where
  -- The cookie's domain is one of those, or below one.
  abbrev pub belongs : List Text → CookieLine → Bool
  belongs domains c = any_of (λ d. host_matches lower c.domain d) domains

  -- A text is a cookie file, and all of its cookies belong to the domains.
  abbrev pub HoldsOwn : List Text → Text → Type 0
  HoldsOwn domains text =
      (cs : List CookieLine) × (parse text ≡ parsed cs) × (each (belongs domains) cs ≡ true)

  filtered_of-text :
      (now : ℕ) (kept : List CookieLine) (f : Filtered)
      → filtered_of lower now kept ≡ answered f
      → f.text ≡ render kept
  unfolding filtered_of
  filtered_of-text now kept f h = ground (arith, h)

  pub filter-own :
      (now : ℕ) (text : Text) (domains : List Text) (f : Filtered)
      → filter lower now text domains ≡ answered f
      → HoldsOwn domains f.text
  unfolding filter keep_for_domains
  filter-own now text domains f h = elim (Parsed-cases (parse text)) [
    | inl (cs, e) ↦
        let same = filtered_of-text now (keep (belongs domains) cs) f (ground (arith, h, e)) in
        (
          keep (belongs domains) cs,
          ap parse same ∙ parse-keep (belongs domains) text cs e,
          each-kept (belongs domains) cs,
        )
    | inr (inl (line, (reason, e))) ↦ absurd (ground (arith, h, e))
    | inr (inr e) ↦ absurd (ground (arith, h, e))
  ]

  module _ (decrypt : Text → Option Text) where
    -- What is stored under a key, beside the site of that key.
    abbrev pub OwnedBy : Option SiteRow → Option CookiesRow → Type 0
    OwnedBy none row = row ≡ none
    OwnedBy (some site) none = Unit
    OwnedBy (some site) (some row) =
        (text : Text) × (decrypt row.enc_blob ≡ some text) × HoldsOwn site.domains text

    abbrev pub IsOwned : SitesState → Type 0
    IsOwned s = (k : Text) → OwnedBy (find_site k s.sites) (find_cookies k s.cookies)

    without-IsOwned :
        (site : Option SiteRow) (row : Option CookiesRow) → OwnedBy site row → OwnedBy site none
    without-IsOwned none row h = refl
    without-IsOwned (some site) row h = tt

    OwnedBy-new :
        (b : Bool) (site : SiteRow) (old : Option SiteRow) (row : Option CookiesRow)
        → OwnedBy old row
        → OwnedBy (elim old [ some other ↦ some other | none ↦ if b then some site else none ]) row
    OwnedBy-new true site none row h = rw h tt
    OwnedBy-new false site none row h = h
    OwnedBy-new b site (some old) row h = h

    OwnedBy-removed :
        (b : Bool) (old : Option SiteRow) (row : Option CookiesRow)
        → OwnedBy old row
        → OwnedBy (if b then none else old) (if b then none else row)
    OwnedBy-removed true old row h = refl
    OwnedBy-removed false old row h = h

    OwnedBy-cleared :
        (b : Bool) (old : Option SiteRow) (row : Option CookiesRow)
        → OwnedBy old row
        → OwnedBy old (if b then none else row)
    OwnedBy-cleared true none row h = refl
    OwnedBy-cleared true (some site) row h = tt
    OwnedBy-cleared false old row h = h

    OwnedBy-changed :
        (b : Bool) (f : CookiesRow → CookiesRow) (old : Option SiteRow) (row : Option CookiesRow)
        → ((r : CookiesRow) → (f r).enc_blob ≡ r.enc_blob)
        → OwnedBy old row
        → OwnedBy old (if b then changed f row else row)
    OwnedBy-changed false f old row same h = h
    OwnedBy-changed true f old none same h = h
    OwnedBy-changed true f none (some row) same h = cc
    OwnedBy-changed true f (some site) (some row) same h =
        let (text, opened, own) = h in (text, ap decrypt (same row) ∙ opened, own)

    pub keeps : (s' s : SitesState) → s' ≡ s → IsOwned s → IsOwned s'
    keeps s' s e h = subst IsOwned (sym e) h

    pub create-IsOwned :
        (now : ℕ) (key : Text) (domains : List Text) (s : SitesState)
        → IsOwned s
        → IsOwned (create now key domains s).1
    unfolding create
    create-IsOwned now key domains s h = elim (Option-cases (find_site key s.sites)) [
      | inr (site, e) ↦ keeps ((create now key domains s).1) s (ground (arith, e)) h
      | inl e ↦
          let new : SiteRow = record {
            key = key;
            label = key;
            domains = unique domains;
            builtin = false;
          } in
          keeps ((create now key domains s).1) (record s { sites = s.sites ++ new ∷ [] })
            (ground (arith, e))
            (λ k. rw (find_site-append k s.sites new) (
              OwnedBy-new (text_eq key k) new (find_site k s.sites) (find_cookies k s.cookies)
                (h k)))
    ]

    pub delete-IsOwned : (key : Text) (s : SitesState) → IsOwned s → IsOwned (delete key s).1
    unfolding delete
    delete-IsOwned key s h = elim (Option-cases (find_site key s.sites)) [
      | inl e ↦ keeps ((delete key s).1) s (ground (arith, e)) h
      | inr (site, e) ↦ elim (Bool-cases site.builtin) [
        | inl kept ↦ keeps ((delete key s).1) s (ground (arith, e, kept)) h
        | inr gone ↦
            keeps ((delete key s).1)
              (record s {
                sites = keep (λ x. not (text_eq x.key key)) s.sites;
                cookies = without_cookies key s.cookies;
              })
              (ground (arith, e, gone))
              (λ k.
                rw (find_site-keep k key s.sites, find_cookies-without k key s.cookies)
                  (OwnedBy-removed (text_eq key k) (find_site k s.sites) (find_cookies k s.cookies)
                    (h k)))
      ]
    ]

    pub delete_cookies-IsOwned :
        (key : Text) (s : SitesState) → IsOwned s → IsOwned (delete_cookies key s).1
    unfolding delete_cookies
    delete_cookies-IsOwned key s h = elim (Option-cases (find_site key s.sites)) [
      | inl e ↦ keeps ((delete_cookies key s).1) s (ground (arith, e)) h
      | inr (site, e) ↦
          keeps ((delete_cookies key s).1) (record s { cookies = without_cookies key s.cookies })
            (ground (arith, e))
            (λ k. rw (find_cookies-without k key s.cookies) (
              OwnedBy-cleared (text_eq key k) (find_site k s.sites) (find_cookies k s.cookies)
                (h k)))
    ]

    pub altered-IsOwned :
        (key : Text) (f : CookiesRow → CookiesRow) (s : SitesState)
        → ((r : CookiesRow) → (f r).site_key ≡ r.site_key)
        → ((r : CookiesRow) → (f r).enc_blob ≡ r.enc_blob)
        → IsOwned s
        → IsOwned (record s { cookies = alter_cookies key f s.cookies })
    altered-IsOwned key f s same blob h k = rw (find_cookies-alter k key f s.cookies same) (
        OwnedBy-changed (text_eq key k) f (find_site k s.sites) (find_cookies k s.cookies) blob
          (h k))

    pub flag-IsOwned : (key : Text) (s : SitesState) → IsOwned s → IsOwned (flag key s)
    unfolding flag
    flag-IsOwned key s h =
        altered-IsOwned key (λ row. record row { flagged_invalid = true }) s (λ r. refl) (λ r. refl)
          h

    pub nothing-OwnedBy : (site : Option SiteRow) → OwnedBy site none
    nothing-OwnedBy none = refl
    nothing-OwnedBy (some site) = tt

    pub OwnedBy-file :
        (site : Option SiteRow) (row : CookiesRow) (text : Text)
        → OwnedBy site (some row)
        → decrypt row.enc_blob ≡ some text
        → (found : SiteRow) × (site ≡ some found) × HoldsOwn found.domains text
    OwnedBy-file none row text h e = cc
    OwnedBy-file (some site) row text h e =
        let (text', opened, own) = h in
        let same : text' ≡ text = ground (arith, opened, e) in
        (site, refl, subst (HoldsOwn site.domains) same own)
