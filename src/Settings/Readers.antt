-- ===== src/Settings/Readers.antt =====
-- What is read of settings that were checked: backend/app/settings/service.py.
use fetcharr.Base.{
  ℕ, ◌≤◌, ◌≡◌, refl, true, false, not, ◌&&◌, some, or_else, List, [], ◌∷◌, All, each, any as any_of,
  map, Text, codes, arith,
}
use fetcharr.Library.Naming.{ColonMode}
use fetcharr.Library.Naming.Templates.{Templates, default_templates, inside, token_names}
use fetcharr.Settings.{quality_in_force, templates_of, templates_from, mode_in_force, naming}
use fetcharr.Settings.Values.{
  Dict, get, Stored, is_template_key, is_token, any_tokens, unknown_tokens, is_blank, profiles,
}
use fetcharr.Settings.Checks.{get-each, no_texts, usable, fits}

-- A template that names a path: it is not blank and has no braces but those of a token.
abbrev pub Usable : Text → Type 0
Usable template = (is_blank template ≡ false) × (unknown_tokens template ≡ [])

abbrev pub AllUsable : Templates → Type 0
AllUsable t =
    Usable t.movie_folder
    × Usable t.movie_file
    × Usable t.series_folder
    × Usable t.season_folder
    × Usable t.specials_folder
    × Usable t.standard_episode
    × Usable t.daily_episode
    × Usable t.other

pub fits-bounds : (n : ℕ) → fits n ≡ true → (1 ≤ n) × (n ≤ 51)
fits-bounds n h = ground (arith, h)

pub usable-Usable : (t : Text) → usable t ≡ true → Usable t
usable-Usable t h = (ground (arith, h), no_texts-nil (unknown_tokens t) (ground (arith, h)))
  where
    no_texts-nil : (ts : List Text) → no_texts ts ≡ true → ts ≡ []
    no_texts-nil [] e = refl
    no_texts-nil (t' ∷ ts) e = cc

pub in_force-fits :
    (stored : Dict ℕ) (ps : List (Text × ℕ))
    → each (λ e. fits e.1) stored ≡ true
    → each (λ p. fits p.1) ps ≡ true
    → All {A = Text × ℕ}
        (λ e. (1 ≤ e.1) × (e.1 ≤ 51))
        (map (λ p. (p.0, or_else (get p.0 stored) p.1)) ps)
in_force-fits stored [] h own = tt
in_force-fits stored ((k, n) ∷ ps) h own = (
  fits-bounds (or_else (get k stored) n) (get-each fits k stored n h (ground (arith, own))),
  in_force-fits stored ps h (ground (arith, own)),
)

pub quality_in_force-fits :
    (s : Stored)
    → each (λ e. fits e.1) (or_else s.transcode_quality []) ≡ true
    → All (λ e. (1 ≤ e.1) × (e.1 ≤ 51)) (quality_in_force s)
unfolding quality_in_force
quality_in_force-fits s h = in_force-fits (or_else s.transcode_quality []) profiles h refl

pub known_keys :
    (d : Dict Text)
    → each (λ e. is_template_key e.0 && usable e.1) d ≡ true
    → (any_of (λ e. not (is_template_key e.0)) d ≡ false) × (each (λ e. usable e.1) d ≡ true)
known_keys [] h = (refl, refl)
known_keys (e ∷ d) h = ground (arith, h, known_keys d)

pub templates_of-AllUsable :
    (d : Dict Text)
    → each (λ e. is_template_key e.0 && usable e.1) d ≡ true
    → (t : Templates) × (templates_of d ≡ some t) × AllUsable t
unfolding templates_of templates_from unknown_tokens any_tokens inside is_token token_names
templates_of-AllUsable d h =
    let (none_other, each_usable) = known_keys d h in
    let own : (k default : Text) → usable default ≡ true → Usable (or_else (get k d) default) =
      λ k default e.
        usable-Usable (or_else (get k d) default) (get-each usable k d default each_usable e) in
    (
      templates_from (λ k default. or_else (get k d) default),
      ground (arith, none_other),
      (
        own (codes "movie_folder") default_templates.movie_folder refl,
        own (codes "movie_file") default_templates.movie_file refl,
        own (codes "series_folder") default_templates.series_folder refl,
        own (codes "season_folder") default_templates.season_folder refl,
        own (codes "specials_folder") default_templates.specials_folder refl,
        own (codes "standard_episode") default_templates.standard_episode refl,
        own (codes "daily_episode") default_templates.daily_episode refl,
        own (codes "other") default_templates.other refl,
      ),
    )

pub naming-some :
    (s : Stored) (t : Templates) (m : ColonMode)
    → templates_of (or_else s.naming_templates []) ≡ some t
    → mode_in_force s.colon_mode ≡ some m
    → naming s ≡ some (t, m)
unfolding naming
naming-some s t m ht hm = ground (arith, ht, hm)
