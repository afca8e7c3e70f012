-- ===== src/Contracts/Run.antt =====
-- contracts.py: `AgentRun` and its methods `record`, `add_step` and `budget_exceeded`.
use autonomous_software_engi.Prelude.{
  leb, if◌then◌else◌, length, ℕ, ◌+◌, ◌*◌, String, Option, none, some, List, [], ◌∷◌, ◌++◌,
}
use autonomous_software_engi.Prelude.Dict.{Dict}
use autonomous_software_engi.Contracts.Types.{
  RunState, Issue, Task, RunConfig, ContextItem, ChangePlan, EvaluationReport, RunEvent, Value,
}
use autonomous_software_engi.Contracts.Trace.{Patch, TestReport, Step}

pub record AgentRun : Type 0 where
  pub id : String
  pub issue : Issue
  pub state : RunState
  pub task : Option Task
  pub config : RunConfig
  pub base_sha : Option String
  pub workspace : Option String
  pub context : List ContextItem
  pub plan : Option ChangePlan
  pub iteration : ℕ
  pub steps : ℕ
  pub prompt_tokens : ℕ
  pub output_tokens : ℕ
  pub cost_usd : ℕ
  pub patch : Option Patch
  pub test_report : Option TestReport
  pub evaluation : Option EvaluationReport
  pub outcome : Option String
  pub pr_url : Option String
  pub pr_number : Option ℕ
  pub events : List RunEvent

-- `AgentRun.record(kind, **payload)`
unfoldable pub record_event : String → Dict Value → AgentRun → AgentRun
record_event kind payload run = record run {
  events =
      run.events
      ++ record {
        sequence = length run.events + 1;
        state = run.state;
        kind = kind;
        payload = payload;
      }
        ∷ [];
}

unfoldable pub add_step : Step → AgentRun → AgentRun
add_step step run = record run {
  steps = run.steps + 1;
  prompt_tokens = run.prompt_tokens + step.prompt_tokens;
  output_tokens = run.output_tokens + step.output_tokens;
  cost_usd = run.cost_usd + step.cost_usd;
}

-- The four notes of `budget_exceeded`, with the two amounts that each text shows.
pub data Exhausted : Type 0 where
  iterations : ℕ → ℕ → Exhausted
  tokens : ℕ → ℕ → Exhausted
  cost : ℕ → ℕ → Exhausted
  elapsed : ℕ → ℕ → Exhausted

-- `elapsed_ms` is in milliseconds, so the limit in seconds counts a thousand times.
unfoldable pub budget_exceeded : AgentRun → ℕ → Option Exhausted
budget_exceeded run elapsed_ms =
    let budget = run.config.budget in
    if leb budget.max_iterations run.iteration
    then some (iterations run.iteration budget.max_iterations)
    else if leb budget.max_tokens (run.prompt_tokens + run.output_tokens)
    then some (tokens (run.prompt_tokens + run.output_tokens) budget.max_tokens)
    else if leb budget.max_usd run.cost_usd
    then some (cost run.cost_usd budget.max_usd)
    else if leb (budget.max_seconds * 1000) elapsed_ms
    then some (elapsed elapsed_ms budget.max_seconds)
    else none
