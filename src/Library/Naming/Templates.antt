-- ===== src/Library/Naming/Templates.antt =====
-- backend/app/library/naming.py: the templates, their tokens and `build_path`. A date is the number of
-- its day: its year and its ISO text are the parameters `year_of` and `isoformat`.
use fetcharr.Base.{
  ℕ, zero, suc, ◌-◌, ◌==◌, ltb, Bool, true, false, ◌||◌, Option, none, some, List, [], ◌∷◌, ◌++◌,
  any as any_of, length, Text, codes, text_eq, after_prefix, digits, if◌then◌else◌,
}
use fetcharr.Jobs.Manager.{Target, movie_target, episode_target, daily_target, other_target}
use fetcharr.Library.Naming.{ColonMode, squeeze, strip, size, fit, sanitize}

pub data Token : Type 0 where
  movie_title release_year series_title season_00 season episode_00 : Token
  episode_title air_date quality_full title id : Token

-- `TOKEN_NAMES`, in their order
unfoldable pub token_names : List (Text × Token)
token_names =
    (codes "Movie Title", movie_title)
    ∷ (codes "Release Year", release_year)
    ∷ (codes "Series Title", series_title)
    ∷ (codes "season:00", season_00)
    ∷ (codes "season", season)
    ∷ (codes "episode:00", episode_00)
    ∷ (codes "Episode Title", episode_title)
    ∷ (codes "Air-Date", air_date)
    ∷ (codes "Quality Full", quality_full)
    ∷ (codes "Title", title)
    ∷ (codes "Id", id)
    ∷ []

pub record Templates : Type 0 where
  pub movie_folder : Text
  pub movie_file : Text
  pub series_folder : Text
  pub season_folder : Text
  pub specials_folder : Text
  pub standard_episode : Text
  pub daily_episode : Text
  pub other : Text

-- `DEFAULT_TEMPLATES`
abbrev pub default_templates : Templates
default_templates = record {
  movie_folder = codes "{Movie Title} ({Release Year})";
  movie_file = codes "{Movie Title} ({Release Year}) {Quality Full}";
  series_folder = codes "{Series Title}";
  season_folder = codes "Season {season}";
  specials_folder = codes "Specials";
  standard_episode =
      codes "{Series Title} - S{season:00}E{episode:00} - {Episode Title} {Quality Full}";
  daily_episode = codes "{Series Title} - {Air-Date} - {Episode Title} {Quality Full}";
  other = codes "{Title} [{Id}]";
}

-- `_TOKEN` behind its `{`: the token, and the number of characters up to its `}`.
token_named : List (Text × Token) → Text → Option (Token × ℕ)
token_named [] s = none
token_named ((name, token) ∷ names) s =
    let later = token_named names s in
    elim (after_prefix (name ++ b'}' ∷ []) s) [
      | some rest ↦ some (token, suc (length name))
      | none ↦ later
    ]

unfoldable pub token_at : ℕ → Text → Option (Token × ℕ)
unfolding token_named token_names
token_at c s = if c == b'{' then token_named token_names s else none

-- `_TOKEN.sub(…)`; the number counts the characters of a match that are still to be passed.
substitute : (Token → Text) → ℕ → Text → Text
substitute values skip [] = []
substitute values (suc skip) (c ∷ s) = substitute values skip s
substitute values zero (c ∷ s) = elim (token_at c s) [
  | none ↦ c ∷ substitute values zero s
  | some (token, more) ↦ values token ++ substitute values more s
]

-- `_TOKEN.findall`
tokens_in : ℕ → Text → List Token
tokens_in skip [] = []
tokens_in (suc skip) (c ∷ s) = tokens_in skip s
tokens_in zero (c ∷ s) = elim (token_at c s) [
  | none ↦ tokens_in zero s
  | some (token, more) ↦ token ∷ tokens_in more s
]

-- The inside of a block up to its closing character, if no opening one comes before.
unfoldable pub inside : ℕ → ℕ → Text → Option Text
inside first last [] = none
inside first last (c ∷ s) =
    let rest = inside first last s in
    if c == last
    then some []
    else if c == first
    then none
    else elim rest [ none ↦ none | some t ↦ some (c ∷ t) ]

-- `_BLOCK` at a character
block_at : ℕ → Text → Option Text
unfolding inside
block_at c s =
    if c == b'('
    then elim (inside b'(' b')' s) [ none ↦ none | some t ↦ some (b'(' ∷ t ++ b')' ∷ []) ]
    else if c == b'['
    then elim (inside b'[' b']' s) [ none ↦ none | some t ↦ some (b'[' ∷ t ++ b']' ∷ []) ]
    else none

abbrev pub is_empty : Text → Bool
is_empty [] = true
is_empty (c ∷ s) = false

-- `drop_empty`
drop_empty : (Token → Text) → Text → Text
unfolding tokens_in
drop_empty values block =
    if any_of (λ token. is_empty (values token)) (tokens_in zero block) then [] else block

-- `_BLOCK.sub(drop_empty, …)`, with the characters of a match that are still to be passed
drop_blocks : (Token → Text) → ℕ → Text → Text
unfolding block_at drop_empty
drop_blocks values skip [] = []
drop_blocks values (suc skip) (c ∷ s) = drop_blocks values skip s
drop_blocks values zero (c ∷ s) = elim (block_at c s) [
  | none ↦ c ∷ drop_blocks values zero s
  | some block ↦ drop_empty values block ++ drop_blocks values (length block - 1) s
]

-- `_render`
unfoldable pub render : Text → (Token → Text) → Text
unfolding drop_blocks substitute
render template values =
    strip (squeeze false (substitute values zero (drop_blocks values zero template)))

-- `values["Episode Title"] = text`
abbrev pub with_episode_title : Text → (Token → Text) → Token → Text
with_episode_title text values episode_title = text
with_episode_title text values other = values other

-- `_values`
module _ (year_of : ℕ → ℕ) (isoformat : ℕ → Text) where
  two_digits : ℕ → Text
  two_digits n = if ltb n 10 then b'0' ∷ digits n else digits n

  unfoldable pub values_of : Target → Text → Token → Text
  unfolding two_digits
  values_of target quality quality_full = quality
  values_of (movie_target name year) quality movie_title = codes name
  values_of (movie_target name (some year)) quality release_year = digits year
  values_of (episode_target name number episode text) quality series_title = codes name
  values_of (episode_target name number episode text) quality season = digits number
  values_of (episode_target name number episode text) quality season_00 = two_digits number
  values_of (episode_target name number episode text) quality episode_00 = two_digits episode
  values_of (episode_target name number episode text) quality episode_title = codes text
  values_of (daily_target name day text number) quality series_title = codes name
  values_of (daily_target name day text (some number)) quality season = digits number
  values_of (daily_target name day text none) quality season = digits (year_of day)
  values_of (daily_target name day text (some number)) quality season_00 = two_digits number
  values_of (daily_target name day text none) quality season_00 = two_digits (year_of day)
  values_of (daily_target name day text number) quality air_date = isoformat day
  values_of (daily_target name day text number) quality episode_title = codes text
  values_of (other_target name key) quality title = codes name
  values_of (other_target name key) quality id = codes key
  values_of target quality token = []

module _ (normalize : Text → Text) where
  -- The loop of `_name`, on fuel; without an answer it has run out.
  unfoldable pub shorten :
      (fuel : ℕ) (template : Text) (values : Token → Text) → ColonMode → ℕ → Option Text
  shorten zero template values colon limit = none
  shorten (suc fuel) template values colon limit =
      let name = render template values in
      let overflow = size name - limit in
      let text = values episode_title in
      let kept = sanitize normalize (fit (size text - overflow) text) colon in
      let later = shorten fuel template (with_episode_title kept values) colon limit in
      if (overflow == 0) || is_empty text then some name else later

  -- The end of `_name`: none is the ValueError for an empty name.
  unfoldable pub cut_name : Text → ℕ → Option Text
  cut_name name limit =
      let cut = if ltb limit (size name) then strip (fit limit name) else name in
      if is_empty cut then none else some cut

  -- `{token: sanitize(value, colon) for …}`
  unfoldable pub cleaned : ColonMode → (Token → Text) → Token → Text
  cleaned colon values token = sanitize normalize (values token) colon

  -- `_name`: each round of its loop takes at least a byte off the episode's title.
  unfoldable pub name_of : Text → (Token → Text) → ColonMode → ℕ → Option Text
  name_of template values colon limit =
      elim (shorten (suc (suc (size (cleaned colon values episode_title)))) template
        (cleaned colon values) colon limit) [ none ↦ none | some name ↦ cut_name name limit ]

-- `MAX_NAME_BYTES`, and what `SUFFIX_RESERVE_BYTES` leaves of it for the name of a file
abbrev pub name_limit : ℕ
name_limit = 255

abbrev pub file_limit : ℕ
file_limit = 255 - 40

module _ (normalize : Text → Text) (year_of : ℕ → ℕ) (isoformat : ℕ → Text) where
  file_template : Templates → Target → Text
  file_template templates (movie_target name year) = templates.movie_file
  file_template templates (episode_target name number episode text) = templates.standard_episode
  file_template templates (daily_target name day text number) = templates.daily_episode
  file_template templates (other_target name key) = templates.other

  -- The templates of the folders below the category's.
  folder_templates : Templates → Target → Text → List Text
  folder_templates templates (movie_target name year) number = templates.movie_folder ∷ []
  folder_templates templates (other_target name key) number = []
  folder_templates templates _ number =
      templates.series_folder
      ∷ (if text_eq number (codes "0") then templates.specials_folder else templates.season_folder)
      ∷ []

  category : Target → Text
  category (movie_target name year) = codes "movies"
  category (other_target name key) = codes "other"
  category _ = codes "tv-shows"

  all_named : (Text → Option Text) → List Text → Option (List Text)
  all_named name [] = some []
  all_named name (template ∷ rest) = elim (name template) [
    | none ↦ none
    | some part ↦ elim (all_named name rest) [ none ↦ none | some parts ↦ some (part ∷ parts) ]
  ]

  -- `build_path`: the arguments of `PurePosixPath`; none is the ValueError for an empty name.
  unfoldable pub build_path : Target → Text → Text → Templates → ColonMode → Option (List Text)
  unfolding file_template folder_templates category all_named
  build_path target quality ext templates colon =
      let values = values_of year_of isoformat target quality in
      elim (name_of normalize (file_template templates target) values colon file_limit) [
        | none ↦ none
        | some base ↦
            elim (all_named (λ template. name_of normalize template values colon name_limit)
              (folder_templates templates target (values season))) [
                | none ↦ none
                | some folders ↦ some (category target ∷ folders ++ (base ++ ext) ∷ [])
              ]
      ]
