-- ===== src/Jobs/App/Table.antt =====
-- The laws of the table: what a lookup finds after a change.
use fetcharr.Base.{
  String, ◌≡◌, refl, none, some, List, [], ◌∷◌, map, str_eq, eq_iff, arith, if◌then◌else◌,
}
use mathlib.Core.Option
use fetcharr.Jobs.Rows.{Job}
use fetcharr.Jobs.App.{find_job, alter, delete_row}

-- A change that keeps the key of a row.
abbrev pub KeepsId : (Job → Job) → Type 0
KeepsId f = (j : Job) → (f j).id ≡ j.id

pub find_job-alter :
    (id : String) (f : Job → Job) (k : String) (jobs : List Job)
    → KeepsId f
    → find_job k (alter id f jobs)
      ≡ (if str_eq id k then Option.map f (find_job k jobs) else find_job k jobs)
unfolding find_job alter
find_job-alter id f k [] h = ground arith
find_job-alter id f k (j ∷ rest) h = ground (
  arith,
  find_job-alter id f k rest h,
  h j,
  eq_iff j.id id,
  eq_iff j.id k,
  eq_iff id k,
  eq_iff (f j).id k,
)

pub find_job-delete_row :
    (id k : String) (jobs : List Job)
    → find_job k (delete_row id jobs) ≡ (if str_eq id k then none else find_job k jobs)
unfolding find_job delete_row
find_job-delete_row id k [] = ground arith
find_job-delete_row id k (j ∷ rest) =
    ground (arith, find_job-delete_row id k rest, eq_iff j.id id, eq_iff j.id k, eq_iff id k)

-- The ids of a table, in order: an update neither adds nor drops a row.
pub ids-alter :
    (id : String) (f : Job → Job) (jobs : List Job)
    → KeepsId f
    → map (λ j. j.id) (alter id f jobs) ≡ map (λ j. j.id) jobs
unfolding alter
ids-alter id f [] h = refl
ids-alter id f (j ∷ rest) h = ground (arith, ids-alter id f rest h, h j)

pub find_job-id : (id : String) (jobs : List Job) (j : Job) → find_job id jobs ≡ some j → j.id ≡ id
unfolding find_job
find_job-id id [] j h = ground arith
find_job-id id (k ∷ rest) j h = ground (arith, find_job-id id rest j, eq_iff k.id id)

-- Every row but one is as it was.
abbrev pub OnlyChanges : String → List Job → List Job → Type 0
OnlyChanges id before after =
    (k : String) → find_job k after ≡ (if str_eq id k then find_job k after else find_job k before)

pub alter-OnlyChanges :
    (id : String) (f : Job → Job) (jobs : List Job)
    → KeepsId f
    → OnlyChanges id jobs (alter id f jobs)
alter-OnlyChanges id f jobs keeps k = ground (arith, find_job-alter id f k jobs keeps)

pub find_job-altered :
    (id : String) (f : Job → Job) (jobs : List Job) (job : Job)
    → KeepsId f
    → find_job id jobs ≡ some job
    → find_job id (alter id f jobs) ≡ some (f job)
find_job-altered id f jobs job keeps h =
    ground (arith, h, find_job-alter id f id jobs keeps, eq_iff id id)
