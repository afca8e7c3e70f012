-- ===== src/Agent/Verdicts.antt =====
-- The node `reflect`: the ways in which it comes to a verdict.
use autonomous_software_engi.Prelude.{
  if◌then◌else◌, Bool-cases, Option-cases, is_some, ℕ, ◌≡◌, refl, ◌⊎◌, inl, inr, Bool, true, false,
  ◌&&◌, Option, none, some, [], ◌∷◌,
}
use autonomous_software_engi.Exec.{ok, Ensures, Ensures-bind, Ensures-pure, Ensures-weaken, pure}
use autonomous_software_engi.Exec.Rules.{Ensures-from}
use autonomous_software_engi.Contracts.Trace.{TestReport}
use autonomous_software_engi.Contracts.Run.{AgentRun, Exhausted, budget_exceeded}
use autonomous_software_engi.Contracts.Limits.{WithinBudget, budget_exceeded-WithinBudget}
use autonomous_software_engi.Llm.{Completion, user_message}
use autonomous_software_engi.Agent.State.{AgentState}
use autonomous_software_engi.Agent.Services.{Services, Platform, CompletionRequest}
use autonomous_software_engi.Agent.Verify.{files_of}
use autonomous_software_engi.Agent.Reflect.{Verdict, repeats, has_passed, judge, consult, give_up}
use autonomous_software_engi.Agent.Tracking.{Like, Like-refl, call-world}
use autonomous_software_engi.Agent.Judging.{record_step-Like}
use autonomous_software_engi.Agent.Opinions.{
  Passing, Repeated, Opinion, repeats-Repeated, not_repeats-Repeated, Passing-test,
  not_Passing-test, demoted-Opinion,
}

-- The request that asks for the model's opinion.
abbrev pub opinion_request :
    {W I : Type 0} → Services W I → AgentState → TestReport → CompletionRequest
opinion_request services state report = record {
  model = state.config.classifier_model;
  system = services.texts.reflect_system;
  messages =
      user_message
        (services.texts.reflect_request report state.iteration none (files_of state.patch) false)
      ∷ [];
  tools = "";
  max_tokens = 512;
}

-- The ways to a verdict on a run, from the platform `start`; each has the conditions under which
-- those before it are closed.
pub data Judged {W I : Type 0} (services : Services W I) (state : AgentState) (run : AgentRun)
    (spent : ℕ) (start : Platform W) (v : Verdict) : Type 0 where
  passed : Passing state run → v.decision ≡ "submit" → Judged services state run spent start v
  exhausted :
      ¬ Passing state run
      → ¬ WithinBudget run spent
      → v.decision ≡ "give_up"
      → Judged services state run spent start v
  repeated :
      ¬ Passing state run
      → WithinBudget run spent
      → Repeated state.patch_hashes
      → v.decision ≡ "give_up"
      → Judged services state run spent start v
  untested :
      ¬ Passing state run
      → WithinBudget run spent
      → ¬ Repeated state.patch_hashes
      → state.report ≡ none
      → v.decision ≡ "give_up"
      → Judged services state run spent start v
  asked :
      ¬ Passing state run
      → WithinBudget run spent
      → ¬ Repeated state.patch_hashes
      → (report : TestReport) (completion : Completion) (after : W) → state.report ≡ some report
      → services.complete (opinion_request services state report) start.world
        ≡ (ok completion, after)
      → Opinion services.texts completion v
      → Judged services state run spent start v

module _ {W I : Type 0} (services : Services W I) (state : AgentState) (run : AgentRun) where
  consult-Judged :
      (spent : ℕ) (start : Platform W) (r : TestReport)
      → ¬ Passing state run
      → WithinBudget run spent
      → ¬ Repeated state.patch_hashes
      → state.report ≡ some r
      → Ensures
          (λ x. x ≡ start)
          (consult services state run r (files_of state.patch) false)
          (λ j p. Like run j.0 × Judged services state run spent start j.1)
  unfolding consult
  consult-Judged spent start r red within fresh tested =
      Ensures-from start _ _ λ completion after called.
        Ensures-bind {R = λ s p. Like run s} _ _
          (Ensures-weaken _ (λ p h. tt) (λ s p h. h)
            (record_step-Like services run "reflect" state.config.classifier_model completion []))
          λ stepped. Ensures-pure _ λ p like. (
            like,
            asked red within fresh r completion after.world tested
                (call-world _ start after completion called)
                (demoted-Opinion services.texts completion run.evaluation),
          )

  opinion-Judged :
      (spent : ℕ) (start : Platform W) (b : Bool) (o : Option TestReport)
      → ¬ Passing state run
      → WithinBudget run spent
      → repeats state.patch_hashes ≡ b
      → state.report ≡ o
      → Ensures {S = Platform W} {A = AgentRun × Verdict}
          (λ x. x ≡ start)
          (if b
            then pure (
              run,
              give_up services "two identical patches in a row: the plan is wrong, not the edit",
            )
            else elim o [
              | none ↦ pure (run, give_up services "no test report")
              | some r ↦ consult services state run r (files_of state.patch) b
            ])
          (λ j p. Like run j.0 × Judged services state run spent start j.1)
  opinion-Judged spent start true o red within again tested =
      Ensures-pure _
        λ p _. (Like-refl run, repeated red within (repeats-Repeated state.patch_hashes again) refl)
  opinion-Judged spent start false none red within again tested = Ensures-pure _ λ p _. (
    Like-refl run,
    untested red within (not_repeats-Repeated state.patch_hashes again) tested refl,
  )
  opinion-Judged spent start false (some r) red within again tested =
      consult-Judged spent start r red within (not_repeats-Repeated state.patch_hashes again) tested

  -- When `judge` returns, its verdict came about in one of five ways: there is a test
  -- report and the evaluation of the run passed, and the verdict is to submit; else a limit of the
  -- budget is reached, and it is to give up; else the two last patches are equal, and it is to give
  -- up; else there is no test report, and it is to give up; else the model was asked, and the
  -- verdict is to give up if its reply says so and to retry otherwise. The run keeps its id,
  -- configuration, iteration and evaluation.
  pub judge-Judged :
      (spent : ℕ) (start : Platform W)
      → Ensures
          (λ x. x ≡ start)
          (judge services state run spent)
          (λ j p. Like run j.0 × Judged services state run spent start j.1)
  unfolding judge
  judge-Judged spent start =
      go (Bool-cases (is_some state.report && has_passed run.evaluation))
        (Option-cases (budget_exceeded run spent))
    where
      exceeded :
          (note : Exhausted) → budget_exceeded run spent ≡ some note → ¬ WithinBudget run spent
      exceeded note b within = cc (b, (budget_exceeded-WithinBudget run spent).1 within)

      go :
          ((is_some state.report && has_passed run.evaluation) ≡ true)
            ⊎ ((is_some state.report && has_passed run.evaluation) ≡ false)
          → (budget_exceeded run spent ≡ none)
            ⊎ ((x : Exhausted) × (budget_exceeded run spent ≡ some x))
          → Ensures
              (λ x. x ≡ start)
              (judge services state run spent)
              (λ j p. Like run j.0 × Judged services state run spent start j.1)
      go (inl e) b =
          rw e (Ensures-pure _ λ p _. (Like-refl run, passed (Passing-test state run e) refl))
      go (inr e) (inr (note, b)) =
          rw (e, b)
            (Ensures-pure _ λ p _.
              (Like-refl run, exhausted (not_Passing-test state run e) (exceeded note b) refl))
      go (inr e) (inl b) =
          rw (e, b)
            (opinion-Judged spent start (repeats state.patch_hashes) state.report
              (not_Passing-test state run e) ((budget_exceeded-WithinBudget run spent).0 b) refl
              refl)
