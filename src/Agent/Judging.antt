-- ===== src/Agent/Judging.antt =====
-- The node `reflect`: a run is promoted only by a passed evaluation, and retried only within its
-- budget.
use autonomous_software_engi.Prelude.{
  if◌then◌else◌, Bool-cases, Option-cases, is_some, ℕ, ◌<◌, String, ◌≡◌, refl, subst, ◌⊎◌, inl, inr,
  Bool, true, false, ◌&&◌, Option, none, some, List, [], arith, str_eq,
}
use autonomous_software_engi.Exec.{
  Ensures, Ensures-bind, Ensures-after, Ensures-pure, Ensures-weaken, Anything, pure, ◌>>=◌,
}
use autonomous_software_engi.Contracts.Types.{EvaluationReport}
use autonomous_software_engi.Contracts.Trace.{TestReport, ToolCall}
use autonomous_software_engi.Contracts.Run.{AgentRun, Exhausted, budget_exceeded, add_step}
use autonomous_software_engi.Llm.{Completion, completion_text}
use autonomous_software_engi.Agent.State.{AgentState}
use autonomous_software_engi.Agent.Services.{Services, Platform, write_store}
use autonomous_software_engi.Agent.Steps.{record_step, step_of}
use autonomous_software_engi.Agent.Verify.{files_of}
use autonomous_software_engi.Agent.Reflect.{
  Verdict, parse_reflection, repeats, has_passed, demoted, judge, focused, consult, give_up,
}
use autonomous_software_engi.Agent.Tracking.{Like, Like-refl}

-- The last evaluation of the run passed.
abbrev pub Verified : AgentRun → Type 0
Verified run = (report : EvaluationReport) × (run.evaluation ≡ some report) × (report.passed ≡ true)

-- What a verdict on a run rests on.
pub record Justified (run : AgentRun) (v : Verdict) : Type 0 where
  pub submit : str_eq v.decision "submit" ≡ true → Verified run
  pub retry :
      str_eq v.decision "submit" ≡ false
      → str_eq v.decision "give_up" ≡ false
      → run.iteration < run.config.budget.max_iterations

pub Verified-has_passed :
    (e : Option EvaluationReport) (run : AgentRun)
    → run.evaluation ≡ e
    → has_passed e ≡ true
    → Verified run
Verified-has_passed none run p h = cc
Verified-has_passed (some report) run p h = (report, p, h)

within_budget :
    (run : AgentRun) (spent : ℕ)
    → budget_exceeded run spent ≡ none
    → run.iteration < run.config.budget.max_iterations
unfolding budget_exceeded
within_budget run spent h = ground arith

demoted-not_submit : (v : Verdict) → str_eq (demoted v).decision "submit" ≡ false
unfolding demoted
demoted-not_submit v = elim (Bool-cases (str_eq v.decision "submit")) [
  | inl e ↦ rw e refl
  | inr e ↦ rw e e
]

pub focused-decision :
    (o : Option EvaluationReport) (v : Verdict) → (focused o v).decision ≡ v.decision
unfolding focused
focused-decision none v = refl
focused-decision (some e) v = ground arith

module _ {W I : Type 0} (services : Services W I) where
  pub record_step-Like :
      (run : AgentRun) (node model : String) (completion : Completion) (calls : List ToolCall)
      → Ensures Anything (record_step services run node model completion calls) (λ r p. Like run r)
  unfolding record_step write_store add_step ◌>>=◌
  record_step-Like run node model completion calls = record {
    at = λ p p' r _ e.
        let new = add_step (step_of services run node model completion calls) run in
        let same : new ≡ r = ground arith in
        subst (Like run) same
          (record { id = refl; config = refl; iteration = refl; evaluation = refl });
  }

  -- The model's opinion never promotes.
  consult-Ensures :
      (state : AgentState) (run : AgentRun) (r : TestReport) (files : List String) (repeated : Bool)
      → Ensures Anything
          (consult services state run r files repeated)
          (λ j p. Like run j.0 × (str_eq j.1.decision "submit" ≡ false))
  unfolding consult
  consult-Ensures state run r files repeated = Ensures-after _ _ λ completion.
      Ensures-bind _ _ (record_step-Like run "reflect" state.config.classifier_model completion [])
        λ stepped. Ensures-pure _ λ p like. (
          like,
          rw focused-decision
              (demoted-not_submit (parse_reflection services.texts (completion_text completion))),
        )

  given_up : (run : AgentRun) (reason : String) → Justified run (give_up services reason)
  given_up run reason = record { submit = λ h. cc; retry = λ h k. cc }

  -- What is left when neither a passed evaluation nor the budget decides.
  opinion-Ensures :
      (state : AgentState) (run : AgentRun) (repeated : Bool) (o : Option TestReport)
      → run.iteration < run.config.budget.max_iterations
      → Ensures {S = Platform W} {A = AgentRun × Verdict} Anything
          (if repeated
            then pure (
              run,
              give_up services "two identical patches in a row: the plan is wrong, not the edit",
            )
            else elim o [
              | none ↦ pure (run, give_up services "no test report")
              | some r ↦ consult services state run r (files_of state.patch) repeated
            ])
          (λ j p. Like run j.0 × Justified run j.1)
  opinion-Ensures state run true o within = Ensures-pure _ λ p _. (Like-refl run, given_up run _)
  opinion-Ensures state run false none within =
      Ensures-pure _ λ p _. (Like-refl run, given_up run _)
  opinion-Ensures state run false (some r) within =
      Ensures-weaken _ (λ p h. h)
        (λ j p h. (h.0, record { submit = λ e. cc (e, h.1); retry = λ _ _. within }))
        (consult-Ensures state run r (files_of state.patch) false)

  -- When `judge` returns: a verdict to submit rests on a passed evaluation of the run, a verdict
  -- that neither submits nor gives up on iterations left in its budget, and the run keeps its id,
  -- configuration, iteration and evaluation.
  pub judge-Ensures :
      (state : AgentState) (run : AgentRun) (spent : ℕ)
      → Ensures Anything (judge services state run spent) (λ j p. Like run j.0 × Justified run j.1)
  unfolding judge
  judge-Ensures state run spent =
      go (Bool-cases (is_some state.report && has_passed run.evaluation))
        (Option-cases (budget_exceeded run spent))
    where
      go :
          ((is_some state.report && has_passed run.evaluation) ≡ true)
            ⊎ ((is_some state.report && has_passed run.evaluation) ≡ false)
          → (budget_exceeded run spent ≡ none)
            ⊎ ((x : Exhausted) × (budget_exceeded run spent ≡ some x))
          → Ensures Anything
              (judge services state run spent)
              (λ j p. Like run j.0 × Justified run j.1)
      go (inl e) b = rw e (
          Ensures-pure _ λ p _. (
            Like-refl run,
            record {
              submit = λ _. Verified-has_passed run.evaluation run refl (ground arith);
              retry = λ h k. cc;
            },
          ))
      go (inr e) (inr (note, b)) = rw (e, b) (Ensures-pure _ λ p _. (Like-refl run, given_up run _))
      go (inr e) (inl b) =
          rw (e, b)
            (opinion-Ensures state run (repeats state.patch_hashes) state.report
              (within_budget run spent b))
