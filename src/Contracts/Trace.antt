-- ===== src/Contracts/Trace.antt =====
-- contracts.py: `Step`, `Patch`, `TestReport`, `Review` and `EvalResult`, the rows of the trace.
use autonomous_software_engi.Prelude.{
  ◌==◌, if◌then◌else◌, any, all, ℕ, String, Bool, ◌&&◌, ◌||◌, Option, List, [], ◌∷◌,
}
use autonomous_software_engi.Prelude.Text.{splitlines, starts_with, drop_chars, strip, sorted_set}
use autonomous_software_engi.Prelude.Dict.{Dict, values}
use autonomous_software_engi.Contracts.Types.{Value}
use autonomous_software_engi.Contracts.Paths.{looks_like_test}

pub record ToolCall : Type 0 where
  pub name : String
  pub arguments : Dict Value
  pub output : String
  pub exit_code : Option ℕ
  pub duration_ms : ℕ

pub record Step : Type 0 where
  pub run_id : String
  pub index : ℕ
  pub node : String
  pub model : Option String
  pub prompt_tokens : ℕ
  pub output_tokens : ℕ
  pub cached_tokens : ℕ
  pub cost_usd : ℕ
  pub tool_calls : List ToolCall
  pub thought : String

pub record Patch : Type 0 where
  pub run_id : String
  pub step_index : ℕ
  pub diff : String
  pub files : List String
  pub touched_tests : Bool
  pub sha256 : String

-- The paths of the header lines, `+++ b/…` and `--- a/…`.
header_paths : List String → List String
header_paths [] = []
header_paths (line ∷ rest) =
    let paths = header_paths rest in
    if starts_with line "+++ b/" || starts_with line "--- a/"
    then strip (drop_chars 6 line) ∷ paths
    else paths

-- `digest` stands for `hashlib.sha256(…).hexdigest()`.
unfoldable pub from_diff : (String → String) → String → ℕ → String → Patch
unfolding header_paths
from_diff digest run_id step_index diff =
    let files = sorted_set (header_paths (splitlines diff)) in
    record {
      run_id = run_id;
      step_index = step_index;
      diff = diff;
      files = files;
      touched_tests = any looks_like_test files;
      sha256 = digest diff;
    }

pub record TestReport : Type 0 where
  pub run_id : String
  pub step_index : ℕ
  pub fail_to_pass : Dict Bool
  pub pass_to_pass : Dict Bool
  pub total : ℕ
  pub passed : ℕ
  pub failed : ℕ
  pub errors : ℕ
  pub skipped : ℕ
  pub coverage_pct : Option ℕ
  pub mutation_score : Option ℕ
  pub stdout_tail : String

unfoldable pub green : TestReport → Bool
green r =
    r.failed == 0
    && r.errors == 0
    && all (λ b. b) (values r.fail_to_pass)
    && all (λ b. b) (values r.pass_to_pass)

failing_names : Dict Bool → List String
failing_names [] = []
failing_names ((name, passed) ∷ rest) =
    let names = failing_names rest in if passed then names else name ∷ names

-- `sorted` of the names of a dict, which are distinct.
unfoldable pub regressions : TestReport → List String
unfolding failing_names
regressions r = sorted_set (failing_names r.pass_to_pass)

pub data ReviewDecision : Type 0 where
  approved changes_requested commented merged closed : ReviewDecision

pub record Review : Type 0 where
  pub run_id : String
  pub pr_number : ℕ
  pub decision : ReviewDecision
  pub reviewer : String
  pub comments : List String

pub record EvalResult : Type 0 where
  pub suite : String
  pub task_id : String
  pub run_id : String
  pub config_name : String
  pub resolved : Bool
  pub cost_usd : ℕ
  pub steps : ℕ
  pub wall_ms : ℕ
  pub notes : String
