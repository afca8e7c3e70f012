-- ===== src/Evals/Suites.antt =====
-- evals/suites.py: `EvalTask` and `Suite`. Suites are read from files by pydantic, which is left out.
use autonomous_software_engi.Prelude.{
  if◌then◌else◌, is_empty, ℕ, String, not, Option, List, [], ◌∷◌,
}
use autonomous_software_engi.Prelude.Text.{◌+s◌}
use autonomous_software_engi.Prelude.Dict.{Dict, insert}
use autonomous_software_engi.Contracts.Types.{Task, eval, Value, str, strs, bool}

pub record EvalTask : Type 0 where
  pub id : String
  pub repository : String
  pub base_sha : Option String
  pub title : String
  pub body : String
  pub fail_to_pass : List String
  pub pass_to_pass : List String
  pub test_patch : Dict String
  pub expected_files : List String
  pub metadata : Dict Value

pub record Suite : Type 0 where
  pub name : String
  pub description : String
  pub tasks : List EvalTask

-- `{**old, **new}`
unfoldable pub updated_with : Dict Value → Dict Value → Dict Value
updated_with old [] = old
updated_with old ((key, value) ∷ new) = updated_with (insert key value old) new

-- `EvalTask.to_task`
unfoldable pub to_task : EvalTask → ℕ → Task
unfolding updated_with
to_task task number =
    let hidden = not (is_empty task.test_patch) in
    record {
      id = "task_" +s task.id;
      source = eval;
      issue = record {
        repository = task.repository;
        number = number;
        title = task.title;
        body = task.body;
        labels = [];
      };
      fail_to_pass = if hidden then [] else task.fail_to_pass;
      pass_to_pass = if hidden then [] else task.pass_to_pass;
      base_sha = task.base_sha;
      metadata =
          updated_with
            (("eval_task", str task.id)
              ∷ ("expected_files", strs task.expected_files)
              ∷ ("hidden_tests", bool hidden)
              ∷ [])
            task.metadata;
    }
