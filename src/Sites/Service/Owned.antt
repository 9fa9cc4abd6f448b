-- ===== src/Sites/Service/Owned.antt =====
-- Whose cookies a site's file holds: backend/app/sites/service.py.
use mathlib.Core.Path.{subst}
use fetcharr.Base.{
  ℕ, ◌==◌, ◌≡◌, refl, ap, ◌∙◌, inl, inr, Option, none, some, List, [], ◌∷◌, Text, text_eq,
  text_eq_iff, arith, Bool-cases, Option-cases, if◌then◌else◌,
}
use fetcharr.Sites.Rows.{
  SiteRow, CookiesRow, SitesState, Answer, answered, refused, find_site, find_cookies,
  invalid_cookies, site_not_found, site_exists, builtin_site, no_time,
}
use fetcharr.Sites.Service.{
  Filtered, SiteCookiesInUse, create, delete, delete_cookies, flag, filter, upload, store,
  stored_row, put_cookies, without_inspections, cookies_for_site, used, refresh, note_use, used_row,
  worth,
}
use fetcharr.Sites.Service.Lookup.{
  find_cookies-alter, find_cookies-put, find_cookies-nil, Answer-cases, changed,
}
use fetcharr.Sites.Service.Belongs.{
  HoldsOwn, filter-own, OwnedBy, keeps, IsOwned, create-IsOwned, delete-IsOwned,
  delete_cookies-IsOwned, altered-IsOwned, flag-IsOwned, nothing-OwnedBy, OwnedBy-file,
}

-- The operations that change the tables.
pub data Call : Type 0 where
  create_call : (now : ℕ) (key : Text) (domains : List Text) → Call
  delete_call delete_cookies_call flag_call : (key : Text) → Call
  upload_call : (now salt : ℕ) (key text : Text) → Call
  used_call : (now salt : ℕ) (key : Text) (refreshed : Option Text) → Call

module _ (lower : Text → Text) (encrypt : ℕ → Text → Text) (decrypt : Text → Option Text) where
  unfoldable pub perform : Call → SitesState → SitesState
  perform (create_call now key domains) s = (create now key domains s).1
  perform (delete_call key) s = (delete key s).1
  perform (delete_cookies_call key) s = (delete_cookies key s).1
  perform (flag_call key) s = flag key s
  perform (upload_call now salt key text) s = (upload lower encrypt decrypt now salt key text s).1
  perform (used_call now salt key refreshed) s =
      (used lower encrypt decrypt now salt key refreshed s).1

  unfoldable pub perform_all : List Call → SitesState → SitesState
  perform_all [] s = s
  perform_all (call ∷ calls) s = perform_all calls (perform call s)

  module _ (opens : (salt : ℕ) (text : Text) → decrypt (encrypt salt text) ≡ some text) where
    -- A row that holds a file of the site's own, in the place of the key's.
    OwnedBy-stored :
        (key k : Text) (s : SitesState) (site : SiteRow) (row : Option CookiesRow) (text : Text)
        (salt : ℕ)
        → find_site key s.sites ≡ some site
        → HoldsOwn lower site.domains text
        → ((r : CookiesRow) → row ≡ some r → r.enc_blob ≡ encrypt salt text)
        → IsOwned lower decrypt s
        → OwnedBy lower decrypt
            (find_site k s.sites)
            (if text_eq key k then row else find_cookies k s.cookies)
    OwnedBy-stored key k s site none text salt there own blob h =
        elim (Bool-cases (text_eq key k)) [
          | inr e ↦ rw e (h k)
          | inl e ↦ let same = (text_eq_iff key k).0 e in rw (e, ← same, there) tt
        ]
    OwnedBy-stored key k s site (some row) text salt there own blob h =
        elim (Bool-cases (text_eq key k)) [
          | inr e ↦ rw e (h k)
          | inl e ↦
              let same = (text_eq_iff key k).0 e in
              rw (e, ← same, there) (text, ap decrypt (blob row refl) ∙ opens salt text, own)
        ]

    store-IsOwned :
        (now salt : ℕ) (key : Text) (s : SitesState) (site : SiteRow) (f : Filtered)
        → find_site key s.sites ≡ some site
        → HoldsOwn lower site.domains f.text
        → IsOwned lower decrypt s
        → IsOwned lower decrypt (store lower encrypt decrypt now salt site key f s).1
    unfolding store stored_row
    store-IsOwned now salt key s site f there own h = elim (Bool-cases (f.count == 0)) [
      | inl e ↦
          keeps lower decrypt ((store lower encrypt decrypt now salt site key f s).1) s
            (ground (arith, e)) h
      | inr e ↦
          let row = stored_row lower encrypt decrypt now salt key f (find_cookies key s.cookies) in
          keeps lower decrypt ((store lower encrypt decrypt now salt site key f s).1)
            (record s {
              cookies = put_cookies row s.cookies;
              inspections = without_inspections key s.inspections;
            })
            (ground (arith, e))
            (λ k. rw (find_cookies-put k row s.cookies) (
              OwnedBy-stored key k s site (some row) f.text salt there own
                (λ r same. ground (arith, same)) h))
    ]

    upload-IsOwned :
        (now salt : ℕ) (key text : Text) (s : SitesState)
        → IsOwned lower decrypt s
        → IsOwned lower decrypt (upload lower encrypt decrypt now salt key text s).1
    unfolding upload
    upload-IsOwned now salt key text s h = elim (Option-cases (find_site key s.sites)) [
      | inl e ↦
          keeps lower decrypt ((upload lower encrypt decrypt now salt key text s).1) s
            (ground (arith, e)) h
      | inr (site, e) ↦ elim (Answer-cases (filter lower now text site.domains)) [
        | inr (error, refusal) ↦
            keeps lower decrypt ((upload lower encrypt decrypt now salt key text s).1) s
              (ground (arith, e, refusal)) h
        | inl (f, found) ↦
            keeps lower decrypt ((upload lower encrypt decrypt now salt key text s).1)
              ((store lower encrypt decrypt now salt site key f s).1) (ground (arith, e, found))
              (store-IsOwned now salt key s site f e
                (filter-own lower now text site.domains f found) h)
      ]
    ]

    refreshed_blob :
        (now salt : ℕ) (f : Filtered) (row : Option CookiesRow) (r : CookiesRow)
        → changed (used_row lower encrypt decrypt now salt (some f)) row ≡ some r
        → r.enc_blob ≡ encrypt salt f.text
    unfolding used_row
    refreshed_blob now salt f none r same = cc
    refreshed_blob now salt f (some row) r same = ground (arith, same)

    note_use-IsOwned :
        (now salt : ℕ) (key : Text) (s : SitesState) (site : SiteRow) (f : Option Filtered)
        → find_site key s.sites ≡ some site
        → ((filtered : Filtered) → f ≡ some filtered → HoldsOwn lower site.domains filtered.text)
        → IsOwned lower decrypt s
        → IsOwned lower decrypt (note_use lower encrypt decrypt now salt key f s)
    unfolding note_use used_row
    note_use-IsOwned now salt key s site none there own h =
        altered-IsOwned lower decrypt key (used_row lower encrypt decrypt now salt none) s
          (λ r. refl) (λ r. refl) h
    note_use-IsOwned now salt key s site (some f) there own h = λ k.
        rw
          (find_cookies-alter k key (used_row lower encrypt decrypt now salt (some f)) s.cookies
            (λ r. refl))
          (OwnedBy-stored key k s site
            (changed (used_row lower encrypt decrypt now salt (some f)) (find_cookies k s.cookies))
            f.text salt there (own f refl) (refreshed_blob now salt f (find_cookies k s.cookies)) h)

    refresh-IsOwned :
        (now salt : ℕ) (key : Text) (s : SitesState) (site : SiteRow) (a : Answer Filtered)
        → find_site key s.sites ≡ some site
        → ((f : Filtered) → a ≡ answered f → HoldsOwn lower site.domains f.text)
        → IsOwned lower decrypt s
        → IsOwned lower decrypt (refresh lower encrypt decrypt now salt key a s).1
    unfolding refresh worth
    refresh-IsOwned now salt key s site (refused (invalid_cookies line reason)) there own h =
        note_use-IsOwned now salt key s site none there (λ f e. cc) h
    refresh-IsOwned now salt key s site (refused (site_not_found k)) there own h = h
    refresh-IsOwned now salt key s site (refused (site_exists k)) there own h = h
    refresh-IsOwned now salt key s site (refused (builtin_site k)) there own h = h
    refresh-IsOwned now salt key s site (refused no_time) there own h = h
    refresh-IsOwned now salt key s site (answered f) there own h =
        elim (Bool-cases (f.count == 0)) [
          | inl e ↦ rw e (note_use-IsOwned now salt key s site none there (λ g same. cc) h)
          | inr e ↦ rw e (
              note_use-IsOwned now salt key s site (some f) there
                (λ g same. own g (ground (arith, same))) h)
        ]

    used-IsOwned :
        (now salt : ℕ) (key : Text) (refreshed : Option Text) (s : SitesState)
        → IsOwned lower decrypt s
        → IsOwned lower decrypt (used lower encrypt decrypt now salt key refreshed s).1
    unfolding used note_use used_row
    used-IsOwned now salt key none s h =
        altered-IsOwned lower decrypt key (used_row lower encrypt decrypt now salt none) s
          (λ r. refl) (λ r. refl) h
    used-IsOwned now salt key (some text) s h = elim (Option-cases (find_site key s.sites)) [
      | inl e ↦
          keeps lower decrypt ((used lower encrypt decrypt now salt key (some text) s).1) s
            (ground (arith, e)) h
      | inr (site, e) ↦
          keeps lower decrypt ((used lower encrypt decrypt now salt key (some text) s).1)
            ((refresh lower encrypt decrypt now salt key (filter lower now text site.domains) s).1)
            (ground (arith, e))
            (refresh-IsOwned now salt key s site (filter lower now text site.domains) e
              (λ f found. filter-own lower now text site.domains f found) h)
    ]

    perform-IsOwned :
        (call : Call) (s : SitesState)
        → IsOwned lower decrypt s
        → IsOwned lower decrypt (perform call s)
    unfolding perform
    perform-IsOwned (create_call now key domains) s h =
        create-IsOwned lower decrypt now key domains s h
    perform-IsOwned (delete_call key) s h = delete-IsOwned lower decrypt key s h
    perform-IsOwned (delete_cookies_call key) s h = delete_cookies-IsOwned lower decrypt key s h
    perform-IsOwned (flag_call key) s h = flag-IsOwned lower decrypt key s h
    perform-IsOwned (upload_call now salt key text) s h = upload-IsOwned now salt key text s h
    perform-IsOwned (used_call now salt key refreshed) s h = used-IsOwned now salt key refreshed s h

    perform_all-IsOwned :
        (calls : List Call) (s : SitesState)
        → IsOwned lower decrypt s
        → IsOwned lower decrypt (perform_all calls s)
    unfolding perform_all
    perform_all-IsOwned [] s h = h
    perform_all-IsOwned (call ∷ calls) s h =
        perform_all-IsOwned calls (perform call s) (perform-IsOwned call s h)

    in_use-row :
        (key : Text) (s : SitesState) (file : SiteCookiesInUse)
        → cookies_for_site lower encrypt decrypt key s ≡ some file
        → (row : CookiesRow) × (find_cookies key s.cookies ≡ some row)
          × (decrypt row.enc_blob ≡ some file.text)
    unfolding cookies_for_site
    in_use-row key s file h = elim (Option-cases (find_cookies key s.cookies)) [
      | inl e ↦ absurd (ground (arith, h, e))
      | inr (row, e) ↦ elim (Option-cases (decrypt row.enc_blob)) [
        | inl shut ↦ absurd (ground (arith, h, e, shut))
        | inr ([], open_) ↦ absurd (ground (arith, h, e, open_))
        | inr (c ∷ text, open_) ↦ (row, e, ground (arith, h, e, open_))
      ]
    ]

    -- However the sites' operations are called, from a state without stored cookies, where decrypting
    -- gives back what was encrypted: the file that is handed to yt-dlp for a key is one of a site that
    -- is there, it is an accepted cookie file, and each of its cookies belongs to a domain of the site.
    pub cookies_for_site-HoldsOwn :
        (calls : List Call) (s : SitesState) (key : Text) (file : SiteCookiesInUse)
        → s.cookies ≡ []
        → cookies_for_site lower encrypt decrypt key (perform_all calls s) ≡ some file
        → (site : SiteRow) × (find_site key (perform_all calls s).sites ≡ some site)
          × HoldsOwn lower site.domains file.text
    cookies_for_site-HoldsOwn calls s key file empty h =
        let after = perform_all calls s in
        let start : IsOwned lower decrypt s = λ k.
          rw (ap (find_cookies k) empty ∙ find_cookies-nil k)
            (nothing-OwnedBy lower decrypt (find_site k s.sites)) in
        let (row, there, opened) = in_use-row key after file h in
        OwnedBy-file lower decrypt (find_site key after.sites) row file.text
          (subst (OwnedBy lower decrypt (find_site key after.sites)) there
            (perform_all-IsOwned calls s start key))
          opened
