-- ===== src/Jobs/Service/Deletion.antt =====
-- The file effects of a deletion: backend/app/jobs/service.py, `delete`, `delete_file`.
use mathlib.Core.Path.{subst}
use mathlib.Core.List.{Memᴰ}
use fetcharr.Events.{ProgressSnapshot}
use fetcharr.Base.{
  any, append_nil, append_assoc, sym, ap, ℕ, String, ◌≡◌, refl, ◌∙◌, inl, inr, Bool, true, false,
  not, ◌&&◌, none, some, Option, List, [], ◌∷◌, ◌++◌, All, arith, Bool-cases, take, drop, length,
}
use fetcharr.Jobs.Status.{is_terminal}
use fetcharr.Jobs.Rows.{Job}
use fetcharr.Jobs.App.{
  App, Effect, unlinked, removed_tree, pruned, flagged, forgotten, effect, find_job,
}
use fetcharr.Jobs.Service.{
  Dirs, is_under, same_parts, is_inside, first_unsafe, remove_dir, delete_at, delete_found, delete,
  is_imported, delete_files, places, unlink_all, prune, prune_all, remove_files, owned_files,
  delete_file_found, delete_file, nonempty, mark_deleted,
}

-- The effects of an operation: some more at the end, each of which is as `P` says.
pub record Adds (P : Effect → Type 0) (before after : List Effect) : Type 0 where
  pub more : List Effect
  pub same : after ≡ before ++ more
  pub all : All P more

All-append : (P : Effect → Type 0) (xs ys : List Effect) → All P xs → All P ys → All P (xs ++ ys)
All-append P [] ys all more = more
All-append P (x ∷ xs) ys (p, all) more = (p, All-append P xs ys all more)

module _ (P : Effect → Type 0) where
  Adds-none : (before : List Effect) → Adds P before before
  Adds-none before = record { more = []; same = sym (append_nil before); all = tt }

  Adds-one : (before : List Effect) (e : Effect) → P e → Adds P before (before ++ e ∷ [])
  Adds-one before e p = record { more = e ∷ []; same = refl; all = (p, tt) }

  Adds-both : (a b c : List Effect) → Adds P a b → Adds P b c → Adds P a c
  Adds-both a b c first next = record {
    more = first.more ++ next.more;
    same = next.same ∙ ap (λ l. l ++ next.more) first.same ∙ append_assoc a first.more next.more;
    all = All-append P first.more next.more first.all next.all;
  }

All-weaken :
    {A : Type 0} (P Q : A → Type 0) (xs : List A) → ((x : A) → P x → Q x) → All P xs → All Q xs
All-weaken P Q [] h all = tt
All-weaken P Q (x ∷ xs) h (p, all) = (h x p, All-weaken P Q xs h all)

All-listed : {A : Type 0} (xs : List A) → All (λ x. Memᴰ x xs) xs
All-listed [] = tt
All-listed (x ∷ xs) = (
  Memᴰ.head refl,
  All-weaken (λ y. Memᴰ y xs) (λ y. Memᴰ y (x ∷ xs)) xs (λ y m. Memᴰ.tail m) (All-listed xs),
)

All-snoc :
    {A : Type 0} (P : A → Type 0) (xs : List A) (x : A) → All P xs → P x → All P (xs ++ x ∷ [])
All-snoc P [] x all p = (p, tt)
All-snoc P (y ∷ ys) x (q, all) p = (q, All-snoc P ys x all p)

-- The one file that `delete` knows of.
abbrev pub own_file : Job → List String
own_file job = elim (nonempty job.completed_path) [ none ↦ [] | some path ↦ path ∷ [] ]

module _ (resolve : String → List String) (parent : String → String) (dirs : Dirs) (job : Job) where
  -- An effect of the deletion of those files: one of them unlinked, which is in the completed folder or in
  -- the job's; the job's folder removed, when it is in the incomplete one; the folder of one of them
  -- pruned, when it is strictly below the completed one, up to the folder of its category there.
  pub IsOwn : List String → Effect → Type 0
  IsOwn files (unlinked path) =
      Memᴰ path files × (is_inside resolve path (dirs.completed_dir ∷ job.job_dir ∷ []) ≡ true)
  IsOwn files (removed_tree dir) =
      (dir ≡ job.job_dir) × (is_inside resolve dir (dirs.incomplete_dir ∷ []) ≡ true)
  IsOwn files (pruned place root) =
      ((path : String) × Memᴰ path files × (place ≡ resolve (parent path)))
      × (is_under (resolve dirs.completed_dir) place ≡ true)
      × (same_parts place (resolve dirs.completed_dir) ≡ false)
      × (root
          ≡ resolve dirs.completed_dir ++ take 1 (drop (length (resolve dirs.completed_dir)) place))
  IsOwn files (flagged site) = ⊥
  IsOwn files (forgotten id) = ⊥

  remove_dir-Adds :
      (files : List String) (app : App)
      → Adds (IsOwn files) app.effects (remove_dir resolve dirs job app).effects
  unfolding remove_dir IsOwn
  remove_dir-Adds files app =
      elim (Bool-cases (is_inside resolve job.job_dir (dirs.incomplete_dir ∷ []))) [
        | inl e ↦ rw e (Adds-one (IsOwn files) app.effects (removed_tree job.job_dir) (refl, e))
        | inr e ↦ rw e (Adds-none (IsOwn files) app.effects)
      ]

  delete_at-Adds :
      (delete_file : Bool) (app : App) (path : Option String)
      → let files : List String = elim path [ none ↦ [] | some p ↦ p ∷ [] ] in
        Adds (IsOwn files) app.effects (delete_at resolve dirs delete_file job app path).1.effects
  unfolding delete_at IsOwn
  delete_at-Adds false app none = Adds-none (IsOwn []) app.effects
  delete_at-Adds true app none = remove_dir-Adds [] app
  delete_at-Adds false app (some path) = Adds-none (IsOwn (path ∷ [])) app.effects
  delete_at-Adds true app (some path) =
      let own = IsOwn (path ∷ []) in
      elim (Bool-cases (is_inside resolve path (dirs.completed_dir ∷ job.job_dir ∷ []))) [
        | inr out ↦ rw out (Adds-none own app.effects)
        | inl inside ↦ rw inside (
            Adds-both own app.effects _ _
              (Adds-one own app.effects (unlinked path) (Memᴰ.head refl, inside))
              (remove_dir-Adds (path ∷ []) (effect (unlinked path) app)))
      ]

  -- Every file that is to be deleted is inside, when the guard finds no other.
  first_unsafe-none :
      (files roots : List String)
      → first_unsafe resolve files roots ≡ none
      → All (λ path. is_inside resolve path roots ≡ true) files
  unfolding first_unsafe
  first_unsafe-none [] roots h = tt
  first_unsafe-none (path ∷ rest) roots h = elim (Bool-cases (is_inside resolve path roots)) [
    | inl e ↦ (e, first_unsafe-none rest roots (ground (arith, e, h)))
    | inr e ↦ absurd (ground (arith, e, h))
  ]

  module _ (files : List String) where
    abbrev Own : Effect → Type 0
    Own = IsOwn files

    unlink_all-Adds :
        (some_files : List String) (app : App)
        → All (λ path. Memᴰ path files) some_files
        → All
            (λ path. is_inside resolve path (dirs.completed_dir ∷ job.job_dir ∷ []) ≡ true)
            some_files
        → Adds Own app.effects (unlink_all resolve parent some_files app).effects
    unfolding unlink_all IsOwn
    unlink_all-Adds [] app listed own = Adds-none Own app.effects
    unlink_all-Adds (path ∷ rest) app (here, listed) (e, own) =
        Adds-both Own app.effects _ _ (Adds-one Own app.effects (unlinked path) (here, e))
          (unlink_all-Adds rest (effect (unlinked path) app) listed own)

    -- The folder of one of the files.
    abbrev IsPlace : List String → Type 0
    IsPlace place = (path : String) × Memᴰ path files × (place ≡ resolve (parent path))

    places-All :
        (seen : List (List String)) (some_files : List String)
        → All IsPlace seen
        → All (λ path. Memᴰ path files) some_files
        → All IsPlace (places resolve parent seen some_files)
    unfolding places
    places-All seen [] all listed = all
    places-All seen (path ∷ rest) all (here, listed) =
        let place = resolve (parent path) in
        elim (Bool-cases (any (same_parts place) seen)) [
          | inl e ↦ rw e (places-All seen rest all listed)
          | inr e ↦ rw e (
              places-All (seen ++ place ∷ []) rest
                (All-snoc IsPlace seen place all (path, here, refl)) listed)
        ]

    prune-Adds :
        (place : List String) (app : App)
        → IsPlace place
        → Adds Own app.effects (prune resolve parent (resolve dirs.completed_dir) place app).effects
    unfolding prune IsOwn
    prune-Adds place app found =
        let root = resolve dirs.completed_dir in
        elim (Bool-cases (is_under root place && not (same_parts place root))) [
          | inl e ↦ rw e (
              Adds-one Own app.effects (pruned place (root ++ take 1 (drop (length root) place)))
                (found, ground (arith, e), ground (arith, e), refl))
          | inr e ↦ rw e (Adds-none Own app.effects)
        ]

    prune_all-Adds :
        (found : List (List String)) (app : App)
        → All IsPlace found
        → Adds Own app.effects
            (prune_all resolve parent (resolve dirs.completed_dir) found app).effects
    unfolding prune_all
    prune_all-Adds [] app all = Adds-none Own app.effects
    prune_all-Adds (place ∷ rest) app (one, all) =
        Adds-both Own app.effects _ _ (prune-Adds place app one)
          (prune_all-Adds rest (prune resolve parent (resolve dirs.completed_dir) place app) all)

    module _ (live : String → Option ProgressSnapshot) (meanwhile : List Job → List Job) where
      mark_deleted-effects :
          (now : ℕ) (app : App)
          → (mark_deleted resolve parent live meanwhile now job.id app).1.effects ≡ app.effects
      unfolding mark_deleted
      mark_deleted-effects now app = ground arith

      delete_files-Adds :
          (now : ℕ) (app : App) (bad : Option String)
          → first_unsafe resolve files (dirs.completed_dir ∷ job.job_dir ∷ []) ≡ bad
          → Adds Own app.effects
              (delete_files resolve parent live meanwhile dirs now job files app bad).1.effects
      unfolding delete_files remove_files
      delete_files-Adds now app (some path) h = Adds-none Own app.effects
      delete_files-Adds now app none h =
          let inside = first_unsafe-none files (dirs.completed_dir ∷ job.job_dir ∷ []) h in
          let unlinked_app = unlink_all resolve parent files app in
          let emptied = remove_files resolve parent files dirs.completed_dir app in
          let removed = remove_dir resolve dirs job emptied in
          let all : Adds Own app.effects removed.effects =
            Adds-both Own app.effects unlinked_app.effects _
              (unlink_all-Adds files app (All-listed files) inside)
              (Adds-both Own unlinked_app.effects emptied.effects _
                (prune_all-Adds (places resolve parent [] files) unlinked_app
                  (places-All [] files tt (All-listed files)))
                (remove_dir-Adds files emptied)) in
          subst (Adds Own app.effects)
            (sym (mark_deleted-effects now (record removed { jobs = meanwhile removed.jobs }))) all

  delete_file_found-Adds :
      (live : String → Option ProgressSnapshot) (meanwhile : List Job → List Job) (now : ℕ)
      (app : App)
      → Adds
          (IsOwn (owned_files job))
          app.effects
          (delete_file_found resolve parent live meanwhile dirs now job app).1.effects
  unfolding delete_file_found
  delete_file_found-Adds live meanwhile now app =
      let files = owned_files job in
      elim (Bool-cases (is_terminal job.status)) [
        | inr e ↦ rw e (Adds-none (IsOwn files) app.effects)
        | inl e ↦ elim (Bool-cases (is_imported job.import_status)) [
          | inl managed ↦ rw (e, managed) (Adds-none (IsOwn files) app.effects)
          | inr free ↦
              rw (e, free)
                (delete_files-Adds files live meanwhile now app
                  (first_unsafe resolve files (dirs.completed_dir ∷ job.job_dir ∷ [])) refl)
        ]
      ]

delete-eq :
    (resolve : String → List String) (dirs : Dirs) (with_file : Bool) (job : Job) (app : App)
    → find_job job.id app.jobs ≡ some job
    → delete resolve dirs job.id with_file app
      ≡ delete_at resolve dirs with_file job app (nonempty job.completed_path)
unfolding delete delete_found
delete-eq resolve dirs with_file job app h = ground (arith, h)

delete_file-eq :
    (resolve : String → List String) (parent : String → String)
    (live : String → Option ProgressSnapshot) (meanwhile : List Job → List Job) (dirs : Dirs)
    (now : ℕ) (job : Job) (app : App)
    → find_job job.id app.jobs ≡ some job
    → delete_file resolve parent live meanwhile dirs now job.id app
      ≡ delete_file_found resolve parent live meanwhile dirs now job app
unfolding delete_file
delete_file-eq resolve parent live meanwhile dirs now job app h = ground (arith, h)

-- A deletion, of a job or of its files, asks only for effects on the job's own files: `delete` unlinks at
-- most the job's completed file and `delete_file` at most that and its sidecars, each inside of the
-- completed folder or of the job's; the job's folder is removed when it is in the incomplete one; and
-- only folders of the unlinked files are pruned, strictly below the completed folder, up to their
-- category there.
pub deletions-IsOwn :
    (resolve : String → List String) (parent : String → String)
    (live : String → Option ProgressSnapshot) (meanwhile : List Job → List Job) (dirs : Dirs)
    (with_file : Bool) (now : ℕ) (job : Job) (app : App)
    → find_job job.id app.jobs ≡ some job
    → Adds
        (IsOwn resolve parent dirs job (own_file job))
        app.effects
        (delete resolve dirs job.id with_file app).1.effects
      × Adds
          (IsOwn resolve parent dirs job (owned_files job))
          app.effects
          (delete_file resolve parent live meanwhile dirs now job.id app).1.effects
deletions-IsOwn resolve parent live meanwhile dirs with_file now job app h = (
  subst (λ r. Adds (IsOwn resolve parent dirs job (own_file job)) app.effects r.1.effects)
      (sym (delete-eq resolve dirs with_file job app h))
      (delete_at-Adds resolve parent dirs job with_file app (nonempty job.completed_path)),
  subst (λ r. Adds (IsOwn resolve parent dirs job (owned_files job)) app.effects r.1.effects)
      (sym (delete_file-eq resolve parent live meanwhile dirs now job app h))
      (delete_file_found-Adds resolve parent dirs job live meanwhile now app),
)
