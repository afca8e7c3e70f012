-- ===== src/Orchestrator/Guards.antt =====
-- Every operation of the orchestrator either raises and leaves the store as it was, or finds the
-- run in one of its states and saves the run's successor.
use autonomous_software_engi.Prelude.{
  Bool-cases, any, String, ◌≡◌, refl, sym, subst, ◌⊎◌, inl, inr, Bool, true, Option, none, some,
  List, [], ◌∷◌, arith,
}
use autonomous_software_engi.Exec.{
  Exec, Result, ok, err, Error, key_error, pure, modify, lift, lift-bind, ◌⋆◌, ◌>>=◌, ◌>>◌,
}
use autonomous_software_engi.Contracts.Types.{
  RunState, ingest_issue, retrieve_context, await_plan_approval, create_workspace, verify_patch,
  await_pr_approval, Issue, ContextItem, ChangePlan, EvaluationReport,
}
use autonomous_software_engi.Contracts.Run.{AgentRun}
use autonomous_software_engi.Store.{Store, save, get}
use autonomous_software_engi.Orchestrator.{
  not_expected, require, found, expect, state_eq, analyze, analyzed, approve_plan, review_plan,
  with_plan, record_evaluation, evaluated, approve_pr, review_pr,
}

-- What an operation on the run `run_id` has done to the store `s`.
pub data Outcome (run_id : String) (s : Store) (Allowed : RunState → Type 0)
    (Changes : AgentRun → AgentRun → Type 0) (r : Result AgentRun × Store) : Type 0 where
  refused : (e : Error) → r ≡ (err e, s) → Outcome run_id s Allowed Changes r
  done :
      (run next : AgentRun)
      → get run_id s ≡ some run
      → Allowed run.state
      → Changes run next
      → r ≡ (ok next, save next s)
      → Outcome run_id s Allowed Changes r

state_eq→eq : (a b : RunState) → state_eq a b ≡ true → a ≡ b
unfolding state_eq
state_eq→eq a b h = ground arith

abbrev pub Is : RunState → RunState → Type 0
Is a b = b ≡ a

abbrev pub Either : RunState → RunState → RunState → Type 0
Either a b c = (c ≡ a) ⊎ (c ≡ b)

-- The shape of all four: look up, test the state, compute the successor, save it.
pub guarded :
    (AgentRun → List RunState) → (AgentRun → Result AgentRun) → String → Exec Store AgentRun
guarded states next run_id = do
  run ← require run_id
  expect run (states run)
  new ← lift (next run)
  modify (save new)
  pure new

module _ {Allowed : RunState → Type 0} (states : List RunState)
    (sound : (c : RunState) → any (state_eq c) states ≡ true → Allowed c)
    (next : AgentRun → Result AgentRun) (run_id : String) (s : Store) where
  guarded_next :
      (run : AgentRun) (t : Result AgentRun)
      → get run_id s ≡ some run
      → any (state_eq run.state) states ≡ true
      → next run ≡ t
      → Outcome run_id s Allowed (λ a b. next a ≡ ok b) (guarded (λ _. states) next run_id s)
  unfolding guarded require found expect ◌>>=◌
  guarded_next run (err e) g a h = refused e (ground arith)
  guarded_next run (ok new) g a h = done run new g (sound run.state a) h (ground arith)

  guarded_found :
      (o : Option AgentRun)
      → get run_id s ≡ o
      → Outcome run_id s Allowed (λ a b. next a ≡ ok b) (guarded (λ _. states) next run_id s)
  unfolding guarded require found expect ◌>>=◌
  guarded_found none g = refused (key_error run_id) (rw (g, found))
  guarded_found (some run) g = elim (Bool-cases (any (state_eq run.state) states)) [
    | inl a ↦ guarded_next run (next run) g a refl
    | inr a ↦ refused (not_expected run states) (ground arith)
  ]

  guarded-Outcome :
      Outcome run_id s Allowed (λ a b. next a ≡ ok b) (guarded (λ _. states) next run_id s)
  guarded-Outcome = guarded_found (get run_id s) refl

  -- An operation that computes as the guarded step has its outcome.
  pub Outcome-guarded :
      (m : Exec Store AgentRun)
      → m s ≡ guarded (λ _. states) next run_id s
      → Outcome run_id s Allowed (λ a b. next a ≡ ok b) (m s)
  Outcome-guarded m e =
      subst (Outcome run_id s Allowed (λ a b. next a ≡ ok b)) (sym e) guarded-Outcome

only : (a c : RunState) → any (state_eq c) (a ∷ []) ≡ true → c ≡ a
only a c h = state_eq→eq c a (ground arith)

either : (a b c : RunState) → any (state_eq c) (a ∷ b ∷ []) ≡ true → (c ≡ a) ⊎ (c ≡ b)
either a b c h = ground (arith, state_eq→eq c a, state_eq→eq c b)

-- `approve_pr` either raises and leaves the store as it was, or finds the run awaiting approval of
-- its pull request and saves the reviewed run.
pub approve_pr-Outcome :
    (run_id : String) (approve : Bool) (reason : String) (s : Store)
    → Outcome run_id s
        (Is await_pr_approval)
        (λ run new. ok (review_pr approve reason run) ≡ ok new)
        (approve_pr run_id approve reason s)
approve_pr-Outcome run_id approve reason s =
    Outcome-guarded (await_pr_approval ∷ []) (only await_pr_approval)
      (λ run. ok (review_pr approve reason run)) run_id s (approve_pr run_id approve reason)
      (unfold approve_pr guarded ◌>>=◌ in refl)

-- `record_evaluation` either raises and leaves the store as it was, or finds the run being
-- verified or with a created workspace, and saves the evaluated run.
pub record_evaluation-Outcome :
    (run_id : String) (report : EvaluationReport) (s : Store)
    → Outcome run_id s
        (Either verify_patch create_workspace)
        (λ run new. ok (evaluated report run) ≡ ok new)
        (record_evaluation run_id report s)
record_evaluation-Outcome run_id report s =
    Outcome-guarded (verify_patch ∷ create_workspace ∷ []) (either verify_patch create_workspace)
      (λ run. ok (evaluated report run)) run_id s (record_evaluation run_id report)
      (unfold record_evaluation guarded ◌>>=◌ in refl)

-- What a verdict makes of a run with a plan; a run with none is an error.
abbrev pub reviewed_plan : Bool → String → AgentRun → Result AgentRun
reviewed_plan approve reason run =
    with_plan run.plan ⋆ λ plan. ok (review_plan approve reason run plan)

-- `approve_plan` either raises and leaves the store as it was, or finds the run awaiting approval
-- of the plan that it has, and saves the reviewed run.
pub approve_plan-Outcome :
    (run_id : String) (approve : Bool) (reason : String) (s : Store)
    → Outcome run_id s
        (Is await_plan_approval)
        (λ run new. reviewed_plan approve reason run ≡ ok new)
        (approve_plan run_id approve reason s)
approve_plan-Outcome run_id approve reason s =
    Outcome-guarded (await_plan_approval ∷ []) (only await_plan_approval)
      (reviewed_plan approve reason) run_id s (approve_plan run_id approve reason)
      (unfold approve_plan guarded in simp lift-bind (unfold ◌>>=◌ in refl))

-- What an analysis makes of a run, if retrieval and planner return.
abbrev pub analysis :
    (Issue → Result (List ContextItem))
    → (Issue → List ContextItem → Result ChangePlan)
    → AgentRun
    → Result AgentRun
analysis retrieve planner run = retrieve run.issue ⋆ λ context.
    planner run.issue context ⋆ λ plan. ok (analyzed context plan run)

-- `analyze` either raises and leaves the store as it was, or finds the run created or retrieving
-- context, and saves the run with the context and the plan that retrieval and planner return.
pub analyze-Outcome :
    (retrieve : Issue → Result (List ContextItem))
    (planner : Issue → List ContextItem → Result ChangePlan) (run_id : String) (s : Store)
    → Outcome run_id s
        (Either ingest_issue retrieve_context)
        (λ run new. analysis retrieve planner run ≡ ok new)
        (analyze retrieve planner run_id s)
analyze-Outcome retrieve planner run_id s =
    Outcome-guarded (ingest_issue ∷ retrieve_context ∷ []) (either ingest_issue retrieve_context)
      (analysis retrieve planner) run_id s (analyze retrieve planner run_id)
      (unfold analyze guarded in simp lift-bind (unfold ◌>>=◌ in refl))
