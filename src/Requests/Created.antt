-- ===== src/Requests/Created.antt =====
-- The rows of a new request: backend/app/requests/service.py, `create`.
use fetcharr.Base.{
  ℕ, suc, ◌≡◌, refl, ◌≢◌, ◌⊎◌, inl, inr, String, true, Option, List, [], ◌∷◌, ◌++◌, arith,
  Option-cases,
}
use fetcharr.Jobs.Status.{queued}
use fetcharr.Jobs.Rows.{Request, Job}
use fetcharr.Jobs.App.{App}
use fetcharr.Jobs.Manager.{target_of}
use fetcharr.Requests.{
  RequestItem, CreateRequest, Info, Inspected, RequestError, Result, ok, err, target_for,
  inspect_all, request_row, job_row, job_rows, created, create,
}
use fetcharr.Requests.Named.{HasTitle, NamedAs, NamedAs-of, NamedStill-row, target_of-row}

Result-cases :
    {A : Type 0} (r : Result A) → ((a : A) × (r ≡ ok a)) ⊎ ((e : RequestError) × (r ≡ err e))
Result-cases (ok a) = inl (a, refl)
Result-cases (err e) = inr (e, refl)

module _ (uuid : ℕ → String) (incomplete : String → String)
    (inspection : ℕ → Option Inspected) where
  -- The jobs of the items, one for each in order: queued, of the request, with the site of its own
  -- inspection, in a folder of its own, and named as the preview of the item would name it; where the
  -- preview is refused, as the episode of the numbers that it has.
  abbrev pub Made : CreateRequest → Request → List Inspected → List RequestItem → List Job → Type 0
  Made body r [] [] [] = Unit {0}
  Made body r (row ∷ rows) (item ∷ items) (j ∷ js) =
      (j.status ≡ queued)
      × (j.request_id ≡ r.id)
      × (j.site_key ≡ row.1)
      × (j.job_dir ≡ incomplete j.id)
      × NamedAs body.media item.episode (target_for body.media row.0 item.episode) (target_of j r)
      × Made body r rows items js
  Made body r _ _ _ = ⊥

  inspect_all-nil :
      (item : RequestItem) (items : List RequestItem)
      → inspect_all inspection (item ∷ items) ≢ ok []
  unfolding inspect_all
  inspect_all-nil item items h = elim (Option-cases (inspection item.inspection_id)) [
    | inl e ↦ ground (arith, h, e)
    | inr (row, e) ↦ elim (Result-cases (inspect_all inspection items)) [
      | inl (rows, good) ↦ ground (arith, h, e, good)
      | inr (error, bad) ↦ ground (arith, h, e, bad)
    ]
  ]

  inspect_all-cons :
      (item : RequestItem) (items : List RequestItem) (row : Inspected) (rows : List Inspected)
      → inspect_all inspection (item ∷ items) ≡ ok (row ∷ rows)
      → inspect_all inspection items ≡ ok rows
  unfolding inspect_all
  inspect_all-cons item items row rows h = elim (Option-cases (inspection item.inspection_id)) [
    | inl e ↦ absurd (ground (arith, h, e))
    | inr (found, e) ↦ elim (Result-cases (inspect_all inspection items)) [
      | inl (others, good) ↦ ground (arith, h, e, good)
      | inr (error, bad) ↦ absurd (ground (arith, h, e, bad))
    ]
  ]

  job_rows-Made :
      (now n : ℕ) (id : String) (body : CreateRequest) (first : Info) (rows : List Inspected)
      (items : List RequestItem)
      → HasTitle body.media
      → inspect_all inspection items ≡ ok rows
      → Made body
          (request_row now id body first)
          rows
          items
          (job_rows uuid incomplete now id n body rows items)
  unfolding job_rows inspect_all job_row request_row
  job_rows-Made now n id body first [] [] titled h = tt
  job_rows-Made now n id body first (row ∷ rows) [] titled h = absurd (ground (arith, h))
  job_rows-Made now n id body first [] (item ∷ items) titled h =
      absurd (inspect_all-nil item items h)
  job_rows-Made now n id body first (row ∷ rows) (item ∷ items) titled h = (
    refl,
    refl,
    refl,
    refl,
    NamedAs-of body.media item.episode (target_for body.media row.0 item.episode)
        (target_of (job_row now id (uuid n) (incomplete (uuid n)) body row item)
          (request_row now id body first))
        (λ t same.
          target_of-row now id (uuid n) (incomplete (uuid n)) body first row item t body.media refl
            titled same)
        (λ e refused.
          NamedStill-row now id (uuid n) (incomplete (uuid n)) body first row item body.media e refl
            titled refused),
    job_rows-Made now (suc n) id body first rows items titled
        (inspect_all-cons item items row rows h),
  )

  -- What `create` does: an unknown inspection is refused and nothing is stored; otherwise one request is
  -- added, a job for each item, and the manager is woken.
  abbrev pub Outcome : (now : ℕ) → CreateRequest → App → Result (List Inspected) → Type 0
  Outcome now body app (err e) = create uuid incomplete inspection now body app ≡ (err e, app)
  Outcome now body app (ok rows) =
      (r : Request) × ((js : List Job) × (create uuid incomplete inspection now body app ≡ (
        ok r.id,
        record app { requests = app.requests ++ r ∷ []; jobs = app.jobs ++ js; woken = true },
      ))
        × Made body r rows (body.first ∷ body.more) js)

  create-ok :
      (now : ℕ) (body : CreateRequest) (app : App) (rows : List Inspected)
      → inspect_all inspection (body.first ∷ body.more) ≡ ok rows
      → create uuid incomplete inspection now body app ≡ created uuid incomplete now body rows app
  unfolding create
  create-ok now body app rows h = ground (arith, h)

  create-err :
      (now : ℕ) (body : CreateRequest) (app : App) (e : RequestError)
      → inspect_all inspection (body.first ∷ body.more) ≡ err e
      → create uuid incomplete inspection now body app ≡ (err e, app)
  unfolding create
  create-err now body app e h = ground (arith, h)

  Outcome-of :
      (now : ℕ) (body : CreateRequest) (app : App) (found : Result (List Inspected))
      → HasTitle body.media
      → inspect_all inspection (body.first ∷ body.more) ≡ found
      → Outcome now body app found
  unfolding create created request_row
  Outcome-of now body app (err error) titled h = create-err now body app error h
  Outcome-of now body app (ok []) titled h = absurd (inspect_all-nil body.first body.more h)
  Outcome-of now body app (ok (row ∷ rows)) titled h = (
    request_row now (uuid 0) body row.0,
    (
      job_rows uuid incomplete now (uuid 0) 1 body (row ∷ rows) (body.first ∷ body.more),
      create-ok now body app (row ∷ rows) h,
      job_rows-Made now 1 (uuid 0) body row.0 (row ∷ rows) (body.first ∷ body.more) titled h,
    ),
  )

  -- A creation of a request whose movie or series has a title: where an inspection is unknown it is
  -- refused and nothing is stored. Otherwise one request is added and, for each item in order, one
  -- queued job of that request, in a folder of its own and with the site of its own inspection; when
  -- the claim takes the job, it names the file after the very target that a preview of the item is
  -- named after. Where the preview is refused, for an episode without the number or the air date that
  -- its series is numbered by, the claim names the file as a numbered episode, and a missing season or
  -- number is 0.
  pub create-Outcome :
      (now : ℕ) (body : CreateRequest) (app : App)
      → HasTitle body.media
      → Outcome now body app (inspect_all inspection (body.first ∷ body.more))
  create-Outcome now body app titled =
      Outcome-of now body app (inspect_all inspection (body.first ∷ body.more)) titled refl
