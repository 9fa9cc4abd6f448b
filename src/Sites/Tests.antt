-- ===== src/Sites/Tests.antt =====
-- Two sites whose domains both match a host, and the property of the choice between them.
use fetcharr.Base.{◌≡◌, refl, some, List, [], ◌∷◌, Text, codes}
use fetcharr.Sites.{
  Site, match_site, host_matches, host_of, key_of, scan_sites, scan_domains, is_better, sort_sites,
  put_site, text_before, strip_dots, ends_with,
}
use fetcharr.Sites.Match.{Longest, match_site-Longest}

abbrev as_typed : Text → Text
as_typed s = s

abbrev sites : List Site
sites =
    (codes "video", codes "co.uk" ∷ [])
    ∷ (codes "bbc", codes "bbc.com" ∷ codes "bbc.co.uk" ∷ [])
    ∷ []

chosen : match_site as_typed (λ url. some url) (codes "m.bbc.co.uk") sites ≡ some (codes "bbc")
unfolding match_site host_matches host_of key_of scan_sites scan_domains is_better sort_sites
    put_site text_before strip_dots ends_with
chosen = refl

match_site-Longest_example :
    Longest as_typed
      (host_of as_typed (λ url. some url) (codes "m.bbc.co.uk"))
      sites
      (match_site as_typed (λ url. some url) (codes "m.bbc.co.uk") sites)
match_site-Longest_example =
    match_site-Longest as_typed (λ url. some url) (codes "m.bbc.co.uk") sites
