-- ===== src/Agent/State.antt =====
-- agent/state.py: the state that the workflow carries between nodes, and the updates that nodes
-- return. The source keeps dumps of the typed records; the model keeps the records.
use autonomous_software_engi.Prelude.{
  is_some, ℕ, String, Bool, not, ◌||◌, Option, none, some, List, [], ◌∷◌,
}
use autonomous_software_engi.Prelude.Dict.{Dict}
use autonomous_software_engi.Contracts.Types.{Task, RunConfig, ContextItem, ChangePlan}
use autonomous_software_engi.Contracts.Trace.{Patch, TestReport}

-- The planner's reproduction test.
pub record Reproduction : Type 0 where
  pub path : String
  pub code : String

-- A gate's decision, a dict that anybody may write: `approved` and `reason` may be missing, and
-- there may be other keys. `approved` is kept by its truth value.
pub record GateDecision : Type 0 where
  pub approved : Option Bool
  pub reason : Option String
  pub others : Bool

abbrev pub is_empty_decision : GateDecision → Bool
is_empty_decision d = not (is_some d.approved || is_some d.reason || d.others)

pub record AgentState : Type 0 where
  pub run_id : String
  pub repository : String
  pub remote : Option String
  pub task : Task
  pub config : RunConfig
  pub base_sha : String
  pub workspace : Option String
  pub context : List ContextItem
  pub repo_map : String
  pub plan : Option ChangePlan
  pub reproduction : Option Reproduction
  pub installed_tests : Dict String
  pub plan_decision : Option GateDecision
  pub pr_decision : Option GateDecision
  pub patch : Option Patch
  pub patch_hashes : List String
  pub report : Option TestReport
  pub iteration : ℕ
  pub focus : String
  pub decision : Option String
  pub outcome : Option String
  pub outcome_reason : String
  pub pr_url : Option String
  pub pr_number : Option ℕ
  pub started_at : ℕ
  pub notes : List String

unfoldable pub initial_state : String → String → Task → RunConfig → Option String → AgentState
initial_state run_id repository task config remote = record {
  run_id = run_id;
  repository = repository;
  remote = remote;
  task = task;
  config = config;
  base_sha = "";
  workspace = none;
  context = [];
  repo_map = "";
  plan = none;
  reproduction = none;
  installed_tests = [];
  plan_decision = none;
  pr_decision = none;
  patch = none;
  patch_hashes = [];
  report = none;
  iteration = 0;
  focus = "";
  decision = none;
  outcome = none;
  outcome_reason = "";
  pr_url = none;
  pr_number = none;
  started_at = 0;
  notes = [];
}

-- One key of an update, with its value. No node updates `run_id`, `repository`, `remote` or
-- `config`.
pub data Update : Type 0 where
  base_sha : String → Update
  started_at : ℕ → Update
  context : List ContextItem → Update
  repo_map : String → Update
  plan : Option ChangePlan → Update
  reproduction : Option Reproduction → Update
  plan_decision : GateDecision → Update
  pr_decision : GateDecision → Update
  workspace : String → Update
  task : Task → Update
  notes : List String → Update
  installed_tests : Dict String → Update
  iteration : ℕ → Update
  patch : Patch → Update
  patch_hashes : List String → Update
  report : TestReport → Update
  decision : String → Update
  focus : String → Update
  outcome : String → Update
  outcome_reason : String → Update
  pr_url : Option String → Update
  pr_number : Option ℕ → Update

unfoldable pub write : AgentState → Update → AgentState
write s (Update.base_sha v) = record s { base_sha = v }
write s (Update.started_at v) = record s { started_at = v }
write s (Update.context v) = record s { context = v }
write s (Update.repo_map v) = record s { repo_map = v }
write s (Update.plan v) = record s { plan = v }
write s (Update.reproduction v) = record s { reproduction = v }
write s (Update.plan_decision v) = record s { plan_decision = some v }
write s (Update.pr_decision v) = record s { pr_decision = some v }
write s (Update.workspace v) = record s { workspace = some v }
write s (Update.task v) = record s { task = v }
write s (Update.notes v) = record s { notes = v }
write s (Update.installed_tests v) = record s { installed_tests = v }
write s (Update.iteration v) = record s { iteration = v }
write s (Update.patch v) = record s { patch = some v }
write s (Update.patch_hashes v) = record s { patch_hashes = v }
write s (Update.report v) = record s { report = some v }
write s (Update.decision v) = record s { decision = some v }
write s (Update.focus v) = record s { focus = v }
write s (Update.outcome v) = record s { outcome = some v }
write s (Update.outcome_reason v) = record s { outcome_reason = v }
write s (Update.pr_url v) = record s { pr_url = v }
write s (Update.pr_number v) = record s { pr_number = v }

-- `merge` of agent/runner.py
unfoldable pub merge : AgentState → List Update → AgentState
unfolding write
merge s [] = s
merge s (u ∷ us) = merge (write s u) us
