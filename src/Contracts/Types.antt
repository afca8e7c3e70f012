-- ===== src/Contracts/Types.antt =====
-- contracts.py: the plain data types. Times of creation are left out, since no modelled code reads
-- them. Money is in millionths of a dollar (the code rounds every cost to six places), ratios are
-- ten-thousandths, and durations milliseconds.
use autonomous_software_engi.Prelude.{
  ◌==◌, is_empty, ℕ, String, Bool, false, not, Option, List, str_eq,
}

pub data RunState : Type 0 where
  ingest_issue reproduce_failure retrieve_context propose_plan await_plan_approval : RunState
  create_workspace implement_patch generate_tests verify_patch await_pr_approval : RunState
  open_draft_pr capture_review completed failed : RunState

pub RunState-discrete : Discrete RunState
RunState-discrete = hlevel

pub data Decision : Type 0 where
  pending approved rejected : Decision

pub record Issue : Type 0 where
  pub repository : String
  pub number : ℕ
  pub title : String
  pub body : String
  pub labels : List String

pub record ContextItem : Type 0 where
  pub path : String
  pub reason : String
  pub score : ℕ
  pub symbols : List String

pub record PlanStep : Type 0 where
  pub description : String
  pub files : List String
  pub risk : String

pub record ChangePlan : Type 0 where
  pub summary : String
  pub steps : List PlanStep
  pub assumptions : List String
  pub approval : Decision

pub record CommandResult : Type 0 where
  pub command : List String
  pub cwd : String
  pub exit_code : ℕ
  pub stdout : String
  pub stderr : String
  pub duration_ms : ℕ
  pub timed_out : Bool

pub record CheckResult : Type 0 where
  pub name : String
  pub passed : Bool
  pub details : String
  pub command : Option CommandResult

pub record EvaluationReport : Type 0 where
  pub passed : Bool
  pub checks : List CheckResult
  pub mutation_score : Option ℕ
  pub changed_files : List String
  pub policy_violations : List String

-- The JSON values that event payloads and task metadata hold.
pub data Value : Type 0 where
  null : Value
  bool : Bool → Value
  num : ℕ → Value
  str : String → Value
  strs : List String → Value

-- `bool(value)`
pub truthy : Value → Bool
truthy null = false
truthy (bool b) = b
truthy (num n) = not (n == 0)
truthy (str s) = not (str_eq s "")
truthy (strs l) = not (is_empty l)

pub record RunEvent : Type 0 where
  pub sequence : ℕ
  pub state : RunState
  pub kind : String
  pub payload : List (String × Value)

pub data TaskSource : Type 0 where
  issue ci mutant eval manual : TaskSource

pub record Task : Type 0 where
  pub id : String
  pub source : TaskSource
  pub issue : Issue
  pub fail_to_pass : List String
  pub pass_to_pass : List String
  pub base_sha : Option String
  pub metadata : List (String × Value)

pub record Budget : Type 0 where
  pub max_iterations : ℕ
  pub max_tokens : ℕ
  pub max_usd : ℕ
  pub max_seconds : ℕ
  pub max_tool_calls_per_iteration : ℕ

pub data ToolMode : Type 0 where
  structured command_only : ToolMode

pub record RunConfig : Type 0 where
  pub name : String
  pub planner_model : String
  pub coder_model : String
  pub classifier_model : String
  pub tool_mode : ToolMode
  pub use_index : Bool
  pub candidates : ℕ
  pub budget : Budget
  pub seed : ℕ
