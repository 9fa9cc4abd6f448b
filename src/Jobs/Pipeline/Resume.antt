-- ===== src/Jobs/Pipeline/Resume.antt =====
-- Where a run of backend/app/jobs/pipeline.py, `execute`, ends, and where the next resumes.
use mathlib.Core.Path.{subst}
use fetcharr.Base.{
  String, Bool, true, false, ◌≡◌, refl, sym, ap, ◌∙◌, inl, inr, Option, List, [], ◌∷◌, ◌++◌, arith,
  append_nil, append_assoc, Bool-cases,
}
use fetcharr.Jobs.Status.{Step}
use fetcharr.Jobs.Rows.{Field}
use fetcharr.Jobs.Manager.{RunEnd, succeeded, interrupted, shut_down, broken}
use fetcharr.Jobs.Pipeline.{
  Action, checkpoint, Surroundings, Context, Run, Work, continued, did, stopped, cancel, shutdown,
  failure, act, steps_after, step_work, clean, step_ended, run_steps, execute,
}
use fetcharr.Jobs.Pipeline.Checkpoints.{
  checkpoints_of, checkpoints_of-append, step_work-checkpoints, clean-checkpoints,
}

abbrev pub is_success : RunEnd → Bool
is_success succeeded = true
is_success _ = false

abbrev pub is_nil : List Step → Bool
is_nil [] = true
is_nil (step ∷ rest) = false

-- Where a run stands: the steps it has checkpointed since `before`, and those that are left. It has
-- succeeded exactly when none is left.
pub record Reached (todo : List Step) (before : List Action) (end : RunEnd) (after : List Action)
    : Type 0 where
  pub made : List Step
  pub left : List Step
  pub same : checkpoints_of after ≡ checkpoints_of before ++ made
  pub whole : made ++ left ≡ todo
  pub ended : is_success end ≡ is_nil left

none_made :
    (todo : List Step) (before : List Action) (end : RunEnd) (after : List Action)
    → checkpoints_of after ≡ checkpoints_of before
    → is_success end ≡ is_nil todo
    → Reached todo before end after
none_made todo before end after same ended = record {
  made = [];
  left = todo;
  same = same ∙ sym (append_nil (checkpoints_of before));
  whole = refl;
  ended = ended;
}

one_more :
    (step : Step) (rest : List Step) (before middle after : List Action) (end : RunEnd)
    → checkpoints_of middle ≡ checkpoints_of before ++ step ∷ []
    → Reached rest middle end after
    → Reached (step ∷ rest) before end after
one_more step rest before middle after end h r = record {
  made = step ∷ r.made;
  left = r.left;
  same = r.same ∙ ap (λ l. l ++ r.made) h ∙ append_assoc (checkpoints_of before) (step ∷ []) r.made;
  whole = ap (λ l. step ∷ l) r.whole;
  ended = r.ended;
}

module _ (around : Surroundings) (context : Context) where
  -- The actions of a step, with its checkpoint when its work was done.
  continued-Reached :
      (step : Step) (rest : List Step) (before : List Action) (w : Work (List Field) × Run)
      (later : RunEnd × Run)
      → checkpoints_of w.1.actions ≡ checkpoints_of before
      → Reached rest (step_ended around context step w).1.actions later.0 later.1.actions
      → let r = continued around context (step_ended around context step w) later in
        Reached (step ∷ rest) before r.0 r.1.actions
  unfolding continued step_ended
  continued-Reached step rest before (did fields, run) later same reached =
      let marked = act (checkpoint step fields) run in
      one_more step rest before (clean around context step fields marked).actions later.1.actions
        later.0
        (clean-checkpoints around context step fields marked
          ∙ checkpoints_of-append run.actions (checkpoint step fields ∷ [])
          ∙ ap (λ l. l ++ step ∷ []) same)
        reached
  continued-Reached step rest before (stopped cancel, run) later same reached =
      none_made (step ∷ rest) before interrupted run.actions same refl
  continued-Reached step rest before (stopped shutdown, run) later same reached =
      none_made (step ∷ rest) before shut_down run.actions same refl
  continued-Reached step rest before (stopped (failure kind message), run) later same reached =
      none_made (step ∷ rest) before (broken kind message) run.actions same refl

  run_steps-Reached :
      (todo : List Step) (run : Run)
      → let r = run_steps around context todo run in Reached todo run.actions r.0 r.1.actions
  unfolding run_steps
  run_steps-Reached [] run = none_made [] run.actions succeeded run.actions refl refl
  run_steps-Reached (step ∷ rest) run = elim (Bool-cases (around.cancelled step)) [
    | inl e ↦
        let same : (interrupted, run) ≡ run_steps around context (step ∷ rest) run =
          ground (arith, e) in
        subst (λ r. Reached (step ∷ rest) run.actions r.0 r.1.actions) same
          (none_made (step ∷ rest) run.actions interrupted run.actions refl refl)
    | inr e ↦
        let work = step_work around context step run in
        let next = step_ended around context step work in
        let later = run_steps around context rest next.1 in
        let same : continued around context next later
            ≡ run_steps around context (step ∷ rest) run =
          ground (arith, e) in
        subst (λ r. Reached (step ∷ rest) run.actions r.0 r.1.actions) same
          (continued-Reached step rest run.actions work later
            (step_work-checkpoints around context step run) (run_steps-Reached rest next.1))
  ]

  -- A run checkpoints steps of those after the last completed one, in their order, each once and none
  -- left out between them, and it succeeds exactly when it has checkpointed all of them: so that the
  -- steps that are left are those with which the next run begins.
  pub execute-Reached :
      (completed_path : Option String)
      → Reached
          (steps_after context.last_completed_step)
          []
          (execute around context completed_path).0
          (execute around context completed_path).1.actions
  unfolding execute
  execute-Reached completed_path = run_steps-Reached (steps_after context.last_completed_step) _
