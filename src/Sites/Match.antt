-- ===== src/Sites/Match.antt =====
-- The site of a URL: backend/app/sites/utils.py, `match_site`.
use fetcharr.Base.{
  ℕ, leb, ◌≡◌, refl, sym, ap, ◌∙◌, Bool, true, false, not, ◌&&◌, ◌||◌, Option, none, some, List, [],
  ◌∷◌, length, each, any as any_of, Text, text_eq, text_eq_iff, arith, if◌then◌else◌, Bool-cases,
  inl, inr, ◌⊎◌,
}
use fetcharr.Sites.{
  Site, put_site, sort_sites, host_matches, is_better, scan_domains, scan_sites, key_of, host_of,
  match_site,
}

-- A test holds of each site, or of some, of the sorted sites when it does of the sites.
each-put_site :
    (p : Site → Bool) (site : Site) (sites : List Site)
    → each p (put_site site sites) ≡ (p site && each p sites)
unfolding put_site
each-put_site p site [] = refl
each-put_site p site (other ∷ sites) = ground (arith, each-put_site p site sites)

each-sort_sites : (p : Site → Bool) (sites : List Site) → each p (sort_sites sites) ≡ each p sites
unfolding sort_sites
each-sort_sites p [] = refl
each-sort_sites p (site ∷ sites) =
    ground (arith, each-put_site p site (sort_sites sites), each-sort_sites p sites)

any-put_site :
    (p : Site → Bool) (site : Site) (sites : List Site)
    → any_of p (put_site site sites) ≡ (p site || any_of p sites)
unfolding put_site
any-put_site p site [] = refl
any-put_site p site (other ∷ sites) = ground (arith, any-put_site p site sites)

any-sort_sites :
    (p : Site → Bool) (sites : List Site) → any_of p (sort_sites sites) ≡ any_of p sites
unfolding sort_sites
any-sort_sites p [] = refl
any-sort_sites p (site ∷ sites) =
    ground (arith, any-put_site p site (sort_sites sites), any-sort_sites p sites)

module _ (lower : Text → Text) (host : Text) where
  -- A domain that matches is no longer than that.
  unfoldable pub is_within : Option ℕ → Text → Bool
  is_within none domain = not (host_matches lower host domain)
  is_within (some n) domain = not (host_matches lower host domain) || leb (length domain) n

  unfoldable pub within : Option ℕ → Site → Bool
  within bound (key, domains) = each (is_within bound) domains

  unfoldable pub length_of : Option (ℕ × Text) → Option ℕ
  length_of none = none
  length_of (some (n, key)) = some n

  -- The site of that key has a domain of that length that matches.
  unfoldable pub has : Text → ℕ → Site → Bool
  has key n (k, domains) =
      text_eq k key
      && any_of (λ d. host_matches lower host d && (leb n (length d) && leb (length d) n)) domains

  covers : Option ℕ → Option ℕ → Bool
  covers none b = true
  covers (some n) none = false
  covers (some n) (some m) = leb n m

  covers_refl : (a : Option ℕ) → covers a a ≡ true
  unfolding covers
  covers_refl none = refl
  covers_refl (some n) = ground arith

  covers_trans : (a b c : Option ℕ) → covers a b ≡ true → covers b c ≡ true → covers a c ≡ true
  unfolding covers
  covers_trans none b c h k = refl
  covers_trans (some n) none c h k = absurd (ground (arith, h))
  covers_trans (some n) (some m) none h k = absurd (ground (arith, k))
  covers_trans (some n) (some m) (some l) h k = ground (arith, h, k)

  is_within-covers :
      (a b : Option ℕ) (domain : Text)
      → covers a b ≡ true
      → is_within a domain ≡ true
      → is_within b domain ≡ true
  unfolding covers is_within
  is_within-covers none none domain h k = k
  is_within-covers none (some m) domain h k = ground (arith, k)
  is_within-covers (some n) none domain h k = absurd (ground (arith, h))
  is_within-covers (some n) (some m) domain h k = ground (arith, h, k)

  each-covers :
      (a b : Option ℕ) (domains : List Text)
      → covers a b ≡ true
      → each (is_within a) domains ≡ true
      → each (is_within b) domains ≡ true
  each-covers a b [] h k = refl
  each-covers a b (d ∷ domains) h k =
      ground (arith, k, is_within-covers a b d h, each-covers a b domains h)

  -- one domain
  taken : Text → Text → Option (ℕ × Text) → Option (ℕ × Text)
  taken key domain best =
      if host_matches lower host domain && is_better lower domain best
      then some (length domain, key)
      else best

  taken-covers :
      (key domain : Text) (best : Option (ℕ × Text))
      → covers (length_of best) (length_of (taken key domain best)) ≡ true
        × is_within (length_of (taken key domain best)) domain ≡ true
  unfolding covers taken length_of is_within is_better
  taken-covers key domain none = ground arith
  taken-covers key domain (some (n, k)) = ground arith

  scan_domains-covers :
      (key : Text) (domains : List Text) (best : Option (ℕ × Text))
      → covers (length_of best) (length_of (scan_domains lower host key domains best)) ≡ true
        × each (is_within (length_of (scan_domains lower host key domains best))) domains ≡ true
  unfolding scan_domains taken
  scan_domains-covers key [] best = (covers_refl (length_of best), refl)
  scan_domains-covers key (d ∷ domains) best =
      let next : Option (ℕ × Text) = taken key d best in
      let (grows, fits) = taken-covers key d best in
      let (later, rest) = scan_domains-covers key domains next in
      (
        covers_trans (length_of best) (length_of next) _ grows later,
        ground (arith, is_within-covers (length_of next) _ d later fits, rest),
      )

  scan_sites-covers :
      (sites : List Site) (best : Option (ℕ × Text))
      → covers (length_of best) (length_of (scan_sites lower host sites best)) ≡ true
        × each (within (length_of (scan_sites lower host sites best))) sites ≡ true
  unfolding scan_sites within
  scan_sites-covers [] best = (covers_refl (length_of best), refl)
  scan_sites-covers ((key, domains) ∷ sites) best =
      let next : Option (ℕ × Text) = scan_domains lower host key domains best in
      let (grows, fits) = scan_domains-covers key domains best in
      let (later, rest) = scan_sites-covers sites next in
      (
        covers_trans (length_of best) (length_of next) _ grows later,
        ground (arith, each-covers (length_of next) _ domains later fits, rest),
      )

  -- Where the answer of a scan is from.
  from_domains :
      (key : Text) (domains : List Text) (best : Option (ℕ × Text)) (n : ℕ) (k : Text)
      → scan_domains lower host key domains best ≡ some (n, k)
      → (best ≡ some (n, k)) ⊎ (has k n (key, domains) ≡ true)
  unfolding scan_domains has taken
  from_domains key [] best n k h = inl h
  from_domains key (d ∷ domains) best n k h =
      elim (from_domains key domains (taken key d best) n k h) [
        | inr e ↦ inr (ground (arith, e))
        | inl e ↦ elim (Bool-cases (host_matches lower host d && is_better lower d best)) [
          | inl new ↦ inr (ground (arith, e, new, text_eq_iff key k))
          | inr old ↦ inl (ground (arith, e, old))
        ]
      ]

  from_sites :
      (sites : List Site) (best : Option (ℕ × Text)) (n : ℕ) (k : Text)
      → scan_sites lower host sites best ≡ some (n, k)
      → (best ≡ some (n, k)) ⊎ (any_of (has k n) sites ≡ true)
  unfolding scan_sites
  from_sites [] best n k h = inl h
  from_sites ((key, domains) ∷ sites) best n k h =
      elim (from_sites sites (scan_domains lower host key domains best) n k h) [
        | inr e ↦ inr (ground (arith, e))
        | inl e ↦ elim (from_domains key domains best n k e) [
          | inl old ↦ inl old
          | inr new ↦ inr (ground (arith, new))
        ]
      ]

  -- The answer for a host: a site of that key has a matching domain, and no domain that matches is longer;
  -- or no domain matches.
  pub Longest : List Site → Option Text → Type 0
  Longest sites none = each (within none) sites ≡ true
  Longest sites (some key) =
      (n : ℕ) × (any_of (has key n) sites ≡ true) × (each (within (some n)) sites ≡ true)

  Longest-scan_sites :
      (sites : List Site) (r : Option (ℕ × Text))
      → scan_sites lower host (sort_sites sites) none ≡ r
      → Longest sites (key_of lower r)
  unfolding Longest key_of length_of
  Longest-scan_sites sites none h =
      sym (each-sort_sites (within none) sites)
      ∙ ap (λ r. each (within (length_of r)) (sort_sites sites)) (sym h)
      ∙ (scan_sites-covers (sort_sites sites) none).1
  Longest-scan_sites sites (some (n, key)) h = elim (from_sites (sort_sites sites) none n key h) [
    | inl e ↦ absurd (ground (arith, e))
    | inr e ↦ (
      n,
      sym (any-sort_sites (has key n) sites) ∙ e,
      sym (each-sort_sites (within (some n)) sites)
          ∙ ap (λ r. each (within (length_of r)) (sort_sites sites)) (sym h)
          ∙ (scan_sites-covers (sort_sites sites) none).1,
    )
  ]

-- A URL belongs to a site that has a matching domain, and no domain of any site that matches is longer; it
-- belongs to no site when no domain matches.
pub match_site-Longest :
    (lower : Text → Text) (hostname : Text → Option Text) (url : Text) (sites : List Site)
    → Longest lower (host_of lower hostname url) sites (match_site lower hostname url sites)
unfolding match_site
match_site-Longest lower hostname url sites =
    Longest-scan_sites lower (host_of lower hostname url) sites _ refl
