-- ===== src/Requests/Named.antt =====
-- What the jobs of a new request are named after: backend/app/requests/service.py, `target_for`, and
-- backend/app/jobs/manager.py, `_Claimed.target`.
use fetcharr.Base.{
  ℕ, ◌≡◌, refl, sym, ◌⊎◌, inl, inr, String, false, Option, none, some, or_else, str_eq, eq_iff,
  arith, Bool-cases, Option-cases, if◌then◌else◌,
}
use fetcharr.Jobs.Rows.{Numbering, standard, daily}
use fetcharr.Jobs.Manager.{Target, episode_target, target_of, or_text}
use fetcharr.Requests.{
  MovieMedia, TvMedia, Media, of_other, of_movie, of_tv, EpisodeRef, no_episode, RequestItem,
  CreateRequest, Info, Inspected, RequestError, Result, ok, err, title_of, episode_target_for,
  target_for, type_of, request_row, job_row,
}

-- What the validators ask of a movie's or a series' title.
abbrev pub HasTitle : Media → Type 0
HasTitle of_other = Unit {0}
HasTitle (of_movie m) = str_eq m.title "" ≡ false
HasTitle (of_tv series) = str_eq series.title "" ≡ false

or_text_there :
    (o : Option String) (d : String) → str_eq d "" ≡ false → str_eq (or_text o d) "" ≡ false
or_text_there none d h = h
or_text_there (some s) d h = elim (Bool-cases (str_eq s "")) [ inl e ↦ rw e h | inr e ↦ rw e e ]

or_text-some : (s d : String) → str_eq s "" ≡ false → or_text (some s) d ≡ s
or_text-some s d h = ground (arith, h)

title_of_there : (info : Info) → str_eq (title_of info) "" ≡ false
unfolding title_of
title_of_there info =
    or_text_there info.title (or_text info.id "video") (or_text_there info.id "video" refl)

-- The title of an episode, once stored and read again.
episode_title-again : (s : String) → or_text (if str_eq s "" then none else some s) "" ≡ s
episode_title-again s = elim (Bool-cases (str_eq s "")) [
  | inl e ↦ rw e (sym ((eq_iff s "").0 e))
  | inr e ↦ rw (e, e) refl
]

Numbering-cases : (n : Numbering) → (n ≡ standard) ⊎ (n ≡ daily)
Numbering-cases standard = inl refl
Numbering-cases daily = inr refl

-- The target of an episode that a preview refuses: a number that is missing is 0.
abbrev pub as_numbered : TvMedia → EpisodeRef → Target
as_numbered series episode =
    episode_target series.title (or_else episode.season 0) (or_else episode.number 0) episode.title

module _ (now : ℕ) (id job_id dir : String) (body : CreateRequest) (first : Info) (row : Inspected)
    (item : RequestItem) (t : Target) where
  abbrev SameTarget : Type 0
  SameTarget =
      target_of (job_row now id job_id dir body row item) (request_row now id body first) ≡ t

  movie-target :
      (m : MovieMedia)
      → body.media ≡ of_movie m
      → str_eq m.title "" ≡ false
      → target_for (of_movie m) row.0 item.episode ≡ ok t
      → SameTarget
  unfolding target_of job_row request_row target_for type_of
  movie-target m e titled h = ground (
    arith,
    e,
    h,
    or_text-some m.title (or_text (some (title_of row.0)) (or_text row.0.webpage_url "")) titled,
  )

  other-target : body.media ≡ of_other → target_for of_other row.0 item.episode ≡ ok t → SameTarget
  unfolding target_of job_row request_row target_for type_of
  other-target e h = ground (
    arith,
    e,
    h,
    or_text-some (title_of row.0) (or_text row.0.webpage_url "") (title_of_there row.0),
  )

  tv-target :
      (m : TvMedia) (episode : EpisodeRef)
      → body.media ≡ of_tv m
      → or_else item.episode no_episode ≡ episode
      → str_eq m.title "" ≡ false
      → episode_target_for m episode ≡ ok t
      → SameTarget
  unfolding target_of job_row request_row episode_target_for type_of
  tv-target m episode e same titled h =
      let video = or_text (some (title_of row.0)) (or_text row.0.webpage_url "") in
      let series = or_text-some m.title video titled in
      let again = episode_title-again episode.title in
      elim (Numbering-cases m.numbering) [
        | inl n ↦ elim (Option-cases episode.number) [
          | inl none_ ↦ absurd (ground (arith, h, n, none_))
          | inr (number, some_) ↦ ground (arith, e, same, h, n, some_, series, again)
        ]
        | inr n ↦ elim (Option-cases episode.air_date) [
          | inl none_ ↦ absurd (ground (arith, h, n, none_))
          | inr (day, some_) ↦ ground (arith, e, same, h, n, some_, series, again)
        ]
      ]

  tv-unnamed :
      (m : TvMedia) (episode : EpisodeRef) (error : RequestError)
      → body.media ≡ of_tv m
      → or_else item.episode no_episode ≡ episode
      → str_eq m.title "" ≡ false
      → episode_target_for m episode ≡ err error
      → as_numbered m episode ≡ t
      → SameTarget
  unfolding target_of job_row request_row episode_target_for type_of
  tv-unnamed m episode error e same titled h whole =
      let video = or_text (some (title_of row.0)) (or_text row.0.webpage_url "") in
      let series = or_text-some m.title video titled in
      let again = episode_title-again episode.title in
      elim (Numbering-cases m.numbering) [
        | inl n ↦ elim (Option-cases episode.number) [
          | inr (number, some_) ↦ absurd (ground (arith, h, n, some_))
          | inl none_ ↦ ground (arith, e, same, h, n, none_, series, again, whole)
        ]
        | inr n ↦ elim (Option-cases episode.air_date) [
          | inr (day, some_) ↦ absurd (ground (arith, h, n, some_))
          | inl none_ ↦ ground (arith, e, same, h, n, none_, series, again, whole)
        ]
      ]

  pub target_of-row :
      (m : Media)
      → body.media ≡ m
      → HasTitle m
      → target_for m row.0 item.episode ≡ ok t
      → SameTarget
  unfolding target_for
  target_of-row of_other e titled h = other-target e h
  target_of-row (of_movie m) e titled h = movie-target m e titled h
  target_of-row (of_tv m) e titled h = tv-target m (or_else item.episode no_episode) e refl titled h

-- What a job is named after where the preview of its item is refused, which it is for an episode only.
abbrev pub NamedStill : Media → Option EpisodeRef → Target → Type 0
NamedStill (of_tv series) episode named = named ≡ as_numbered series (or_else episode no_episode)
NamedStill of_other episode named = ⊥
NamedStill (of_movie m) episode named = ⊥

-- The target of a job is the one that the preview has, where it has one.
abbrev pub NamedAs : Media → Option EpisodeRef → Result Target → Target → Type 0
NamedAs media episode (ok t) named = named ≡ t
NamedAs media episode (err e) named = NamedStill media episode named

pub NamedAs-of :
    (media : Media) (episode : Option EpisodeRef) (previewed : Result Target) (named : Target)
    → ((t : Target) → previewed ≡ ok t → named ≡ t)
    → ((e : RequestError) → previewed ≡ err e → NamedStill media episode named)
    → NamedAs media episode previewed named
NamedAs-of media episode (ok t) named good bad = good t refl
NamedAs-of media episode (err e) named good bad = bad e refl

pub NamedStill-row :
    (now : ℕ) (id job_id dir : String) (body : CreateRequest) (first : Info) (row : Inspected)
    (item : RequestItem) (m : Media) (error : RequestError)
    → body.media ≡ m
    → HasTitle m
    → target_for m row.0 item.episode ≡ err error
    → NamedStill m item.episode
        (target_of (job_row now id job_id dir body row item) (request_row now id body first))
unfolding target_for
NamedStill-row now id job_id dir body first row item of_other error e titled h =
    absurd (ground (arith, h))
NamedStill-row now id job_id dir body first row item (of_movie m) error e titled h =
    absurd (ground (arith, h))
NamedStill-row now id job_id dir body first row item (of_tv m) error e titled h =
    let episode = or_else item.episode no_episode in
    tv-unnamed now id job_id dir body first row item (as_numbered m episode) m episode error e refl
      titled h refl
