-- ===== src/Sites/Service/Tests.antt =====
-- A site whose uploaded file also holds another site's cookie.
use fetcharr.Base.{ℕ, ◌≡◌, refl, Option, none, some, List, [], ◌∷◌, ◌++◌, Text, codes}
use fetcharr.Ytdlp.Cookies.{
  parse, render, header, split_lines, is_break, first_line, parse_lines, parse_line, rstrip_breaks,
  split_tabs, is_blank, is_comment, httponly_prefix, fields_line, expiry_line, dashes, decimal,
  without_prefix, with_cookie, render_lines,
}
use fetcharr.Auth.Service.{strip_space}
use fetcharr.Library.Naming.{is_space}
use fetcharr.Sites.{host_matches, strip_dots, ends_with, keep_for_domains}
use fetcharr.Sites.Rows.{SitesState, SiteRow, find_site, find_cookies, summary, timed, earliest_of}
use fetcharr.Sites.Service.{
  cookies_for_site, upload, filter, filtered_of, store, stored_row, put_cookies, create, unique,
}
use fetcharr.Sites.Service.Belongs.{HoldsOwn}
use fetcharr.Sites.Service.Owned.{Call, perform_all, perform, cookies_for_site-HoldsOwn}

abbrev as_typed : Text → Text
as_typed s = s

abbrev seal : ℕ → Text → Text
seal salt text = salt ∷ text

abbrev unseal : Text → Option Text
unseal [] = none
unseal (salt ∷ text) = some text

-- The header, and a cookie for each of two hosts.
abbrev line : Text → Text
line domain =
    domain
    ++ (9 ∷ codes "TRUE"
        ++ (9 ∷ codes "/"
            ++ (9 ∷ codes "TRUE" ++ (9 ∷ codes "1" ++ (9 ∷ codes "k" ++ 9 ∷ codes "v")))))

abbrev upload_text : Text
upload_text =
    codes "# Netscape HTTP Cookie File"
    ++ (10 ∷ line (codes "a.org") ++ (10 ∷ line (codes "b.org") ++ 10 ∷ []))

abbrev kept_text : Text
kept_text = codes "# Netscape HTTP Cookie File" ++ (10 ∷ 10 ∷ line (codes "b.org") ++ 10 ∷ [])

abbrev calls : List Call
calls =
    Call.create_call 0 (codes "b") (codes "b.org" ∷ [])
    ∷ Call.upload_call 5 7 (codes "b") upload_text
    ∷ []

abbrev nothing : SitesState
nothing = record { sites = []; cookies = []; inspections = [] }

handed :
    cookies_for_site as_typed seal unseal
      (codes "b")
      (perform_all as_typed seal unseal calls nothing)
    ≡ some (record { site_key = codes "b"; text = kept_text })
unfolding cookies_for_site perform_all perform create unique upload filter filtered_of summary timed
    earliest_of store stored_row put_cookies find_site find_cookies keep_for_domains host_matches
    strip_dots ends_with parse render header split_lines is_break first_line parse_lines parse_line
    rstrip_breaks split_tabs is_blank is_comment httponly_prefix fields_line expiry_line dashes
    decimal without_prefix with_cookie render_lines strip_space is_space
handed = refl

cookies_for_site-HoldsOwn_example :
    (site : SiteRow) × (find_site (codes "b") (perform_all as_typed seal unseal calls nothing).sites
      ≡ some site)
    × HoldsOwn as_typed site.domains kept_text
cookies_for_site-HoldsOwn_example =
    cookies_for_site-HoldsOwn as_typed seal unseal (λ salt text. refl) calls nothing (codes "b")
      (record { site_key = codes "b"; text = kept_text }) refl handed
