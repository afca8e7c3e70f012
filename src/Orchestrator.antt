-- ===== src/Orchestrator.antt =====
-- orchestrator.py: the workflow with two approval gates over the run store. The planner and the
-- retrieval of context are arguments, which may raise; `analyze` saves only after both return.
pub mod Reachable
pub mod Guards
mod Tests
use autonomous_software_engi.Prelude.{
  if◌then◌else◌, any, String, Bool, true, false, not, Option, none, some, List, [], ◌∷◌, map,
}
use autonomous_software_engi.Prelude.Text.{◌+s◌, join, sorted_set}
use autonomous_software_engi.Exec.{
  Exec, Error, Result, ok, err, key_error, invalid_transition, lift, pure, raise, raise_if, gets,
  modify, ◌>>=◌, ◌>>◌,
}
use autonomous_software_engi.Contracts.Types.{
  RunState, ingest_issue, reproduce_failure, retrieve_context, propose_plan, await_plan_approval,
  create_workspace, implement_patch, generate_tests, verify_patch, await_pr_approval, open_draft_pr,
  capture_review, completed, failed, RunState-discrete, approved, rejected, Issue, ContextItem,
  ChangePlan, EvaluationReport, RunConfig, structured, Value, bool, str, strs,
}
use autonomous_software_engi.Contracts.Run.{AgentRun, record_event}
use autonomous_software_engi.Store.{Store, save, get}

-- The values of `RunState`.
pub state_value : RunState → String
state_value ingest_issue = "ingest_issue"
state_value reproduce_failure = "reproduce_failure"
state_value retrieve_context = "retrieve_context"
state_value propose_plan = "propose_plan"
state_value await_plan_approval = "await_plan_approval"
state_value create_workspace = "create_workspace"
state_value implement_patch = "implement_patch"
state_value generate_tests = "generate_tests"
state_value verify_patch = "verify_patch"
state_value await_pr_approval = "await_pr_approval"
state_value open_draft_pr = "open_draft_pr"
state_value capture_review = "capture_review"
state_value completed = "completed"
state_value failed = "failed"

abbrev pub default_config : RunConfig
default_config = record {
  name = "default";
  planner_model = "claude-opus-5";
  coder_model = "claude-sonnet-5";
  classifier_model = "claude-haiku-4-5-20251001";
  tool_mode = structured;
  use_index = true;
  candidates = 1;
  budget = record {
    max_iterations = 6;
    max_tokens = 400_000;
    max_usd = 3_000_000;
    max_seconds = 900;
    max_tool_calls_per_iteration = 25;
  };
  seed = 0;
}

-- `AgentRun(issue=issue)`; the id comes from `new_id`, which draws it at random.
unfoldable pub new_run : String → Issue → AgentRun
new_run id issue = record {
  id = id;
  issue = issue;
  state = ingest_issue;
  task = none;
  config = default_config;
  base_sha = none;
  workspace = none;
  context = [];
  plan = none;
  iteration = 0;
  steps = 0;
  prompt_tokens = 0;
  output_tokens = 0;
  cost_usd = 0;
  patch = none;
  test_report = none;
  evaluation = none;
  outcome = none;
  pr_url = none;
  pr_number = none;
  events = [];
}

unfoldable pub create : String → Issue → Exec Store AgentRun
create id issue = do
  let run = record_event "run_created" [] (new_run id issue)
  modify (save run)
  pure run

found : String → Option AgentRun → Exec Store AgentRun
found run_id none = raise (key_error run_id)
found run_id (some run) = pure run

-- `_require`
unfoldable pub require : String → Exec Store AgentRun
unfolding found
require run_id = do run ← gets (get run_id); found run_id run

pub state_eq : RunState → RunState → Bool
state_eq a b = elim (RunState-discrete a b) [ yes _ ↦ true | no _ ↦ false ]

pub not_expected : AgentRun → List RunState → Error
not_expected run states = invalid_transition (
    "state "
    +s state_value run.state
    +s " cannot perform action; expected "
    +s join ", " (sorted_set (map state_value states)))

-- `_expect`
unfoldable pub expect : AgentRun → List RunState → Exec Store (Unit {0})
unfolding state_eq
expect run states = raise_if (not (any (state_eq run.state) states)) (not_expected run states)

paths_of : List ContextItem → List String
paths_of = map (λ (item : ContextItem). item.path)

-- The three recordings of `analyze` on the run, with the context and the plan that it is given.
pub analyzed : List ContextItem → ChangePlan → AgentRun → AgentRun
unfolding paths_of
analyzed context plan run =
    let run1 = record run { state = retrieve_context; context = context } in
    let run2 = record_event "context_retrieved" (("files", strs (paths_of context)) ∷ []) run1 in
    let run3 = record run2 { state = propose_plan; plan = some plan } in
    let run4 = record_event "plan_proposed" (("summary", str plan.summary) ∷ []) run3 in
    record run4 { state = await_plan_approval }

unfoldable pub analyze :
    (Issue → Result (List ContextItem))
    → (Issue → List ContextItem → Result ChangePlan)
    → String
    → Exec Store AgentRun
unfolding analyzed
analyze retrieve planner run_id = do
  run ← require run_id
  expect run (ingest_issue ∷ retrieve_context ∷ [])
  context ← lift (retrieve run.issue)
  plan ← lift (planner run.issue context)
  let done = analyzed context plan run
  modify (save done)
  pure done

review_payload : Bool → String → List (String × Value)
review_payload approve reason = ("approved", bool approve) ∷ ("reason", str reason) ∷ []

pub review_plan : Bool → String → AgentRun → ChangePlan → AgentRun
unfolding review_payload
review_plan approve reason run plan =
    let reviewed = record run {
      plan = some (record plan { approval = if approve then approved else rejected });
    } in
    let noted = record_event "plan_reviewed" (review_payload approve reason) reviewed in
    record noted { state = if approve then create_workspace else failed }

pub with_plan : Option ChangePlan → Result ChangePlan
with_plan none = err (invalid_transition "run has no plan")
with_plan (some plan) = ok plan

unfoldable pub approve_plan : String → Bool → String → Exec Store AgentRun
unfolding review_plan with_plan
approve_plan run_id approve reason = do
  run ← require run_id
  expect run (await_plan_approval ∷ [])
  plan ← lift (with_plan run.plan)
  let done = review_plan approve reason run plan
  modify (save done)
  pure done

pub evaluated : EvaluationReport → AgentRun → AgentRun
evaluated report run =
    let noted =
      record_event "patch_evaluated" (("passed", bool report.passed) ∷ [])
        (record run { evaluation = some report }) in
    record noted { state = if report.passed then await_pr_approval else failed }

-- The test that the report is an `EvaluationReport` is its type here.
unfoldable pub record_evaluation : String → EvaluationReport → Exec Store AgentRun
unfolding evaluated
record_evaluation run_id report = do
  run ← require run_id
  expect run (verify_patch ∷ create_workspace ∷ [])
  let done = evaluated report run
  modify (save done)
  pure done

pub review_pr : Bool → String → AgentRun → AgentRun
unfolding review_payload
review_pr approve reason run =
    let noted = record_event "pr_reviewed" (review_payload approve reason) run in
    let moved = record noted { state = if approve then open_draft_pr else failed } in
    if approve then moved else record moved { outcome = some "rejected" }

unfoldable pub approve_pr : String → Bool → String → Exec Store AgentRun
unfolding review_pr
approve_pr run_id approve reason = do
  run ← require run_id
  expect run (await_pr_approval ∷ [])
  let done = review_pr approve reason run
  modify (save done)
  pure done
