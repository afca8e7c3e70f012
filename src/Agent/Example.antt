-- ===== src/Agent/Example.antt =====
-- Concrete collaborators for the tests: a world without state, a model that edits nothing and asks
-- for no tools, a suite that passes, and a run that is stored as created.
use autonomous_software_engi.Prelude.{true, false, none, some, [], ◌∷◌}
use autonomous_software_engi.Exec.{ok}
use autonomous_software_engi.Contracts.Types.{
  Issue, Task, issue as from_issue, ChangePlan, pending, CommandResult,
}
use autonomous_software_engi.Contracts.Run.{AgentRun}
use autonomous_software_engi.Contracts.Trace.{TestReport}
use autonomous_software_engi.Llm.{Completion, text_block}
use autonomous_software_engi.Policy.{default_policy}
use autonomous_software_engi.Store.{save, empty_store}
use autonomous_software_engi.Testrun.{passed}
use autonomous_software_engi.Orchestrator.{new_run, default_config}
use autonomous_software_engi.Agent.State.{AgentState, initial_state}
use autonomous_software_engi.Agent.Services.{Services, Texts, Platform}

abbrev pub example_issue : Issue
example_issue = record {
  repository = "acme/shop";
  number = 7;
  title = "Total is off by one";
  body = "";
  labels = [];
}

abbrev pub example_task : Task
example_task = record {
  id = "task-1";
  source = from_issue;
  issue = example_issue;
  fail_to_pass = "tests/test_total.py::test_total" ∷ [];
  pass_to_pass = "tests/test_total.py::test_empty" ∷ [];
  base_sha = none;
  metadata = [];
}

abbrev pub example_plan : ChangePlan
example_plan = record { summary = "Fix the sum"; steps = []; assumptions = []; approval = pending }

abbrev pub example_texts : Texts
example_texts = record {
  planner_system = "plan";
  coder_system = "code";
  reflect_system = "reflect";
  plan_request = λ task context map'. "plan it";
  coder_request = λ task plan context map' report n focus. "code it";
  reflect_request = λ report n note files repeated. "reflect on it";
  parse_plan = λ text. ok (example_plan, none);
  decoded_reflection = λ text. [];
  lower = λ text. text;
  exhausted_text = λ note. "exhausted";
  pr_body = λ run steps notes. "body";
  branch_name = λ id n. "agent/7";
  sanitize_title = λ title n. title;
}

abbrev pub example_completion : Completion
example_completion = record {
  model = "model";
  content = text_block "done" ∷ [];
  stop_reason = "end_turn";
  usage = record {
    input_tokens = 10;
    output_tokens = 5;
    cache_read_tokens = 0;
    cache_write_tokens = 0;
  };
}

abbrev pub example_result : CommandResult
example_result = record {
  command = "pytest" ∷ [];
  cwd = "/work";
  exit_code = 0;
  stdout = "2 passed";
  stderr = "";
  duration_ms = 40;
  timed_out = false;
}

abbrev pub example_services : Services (Unit {0}) (Unit {0})
example_services = record {
  policy = default_policy;
  texts = example_texts;
  clock = λ w. (100, w);
  complete = λ request w. (ok example_completion, w);
  estimate_cost = λ model usage. 15;
  digest = λ text. text;
  index_loader = none;
  knowledge_retrieve = λ index item path w. (ok [], w);
  repo_map = λ index path w. (ok "", w);
  hybrid_retrieve = λ item path w. (ok [], w);
  head_sha = λ path w. (ok "abc", w);
  create_workspace = λ path id w. (ok "/work", w);
  diff = λ path w. (ok "--- a/shop/total.py\n+++ b/shop/total.py\n+return total\n", w);
  remove_workspace = λ path w. (ok tt, w);
  syntax_error = λ code. false;
  read_file = λ workspace path w. (ok none, w);
  exists = λ workspace path w. (ok false, w);
  write_file = λ workspace path text w. (ok tt, w);
  unlink = λ workspace path w. (ok tt, w);
  pytest = λ workspace names w. (
    ok (
      example_result,
      ("tests/test_total.py::test_total", passed)
          ∷ ("tests/test_total.py::test_empty", passed)
          ∷ [],
    ),
    w,
  );
  dispatch = λ workspace index tests use' w. (
    ok (record { name = "read"; arguments = []; output = ""; exit_code = none; duration_ms = 0 }),
    w,
  );
  delivery =
      some (λ request w. (ok (record { pr_url = "https://example.org/7"; pr_number = 7 }), w));
  cleanup_workspaces = true;
}

abbrev pub example_run : AgentRun
example_run = new_run "run-1" example_issue

abbrev pub example_state : AgentState
example_state = initial_state "run-1" "/repo" example_task default_config none

abbrev pub example_platform : Platform (Unit {0})
example_platform = record { store = save example_run empty_store; world = tt }

abbrev pub example_report : TestReport
example_report = record {
  run_id = "run-1";
  step_index = 1;
  fail_to_pass = ("test_total", true) ∷ [];
  pass_to_pass = [];
  total = 1;
  passed = 1;
  failed = 0;
  errors = 0;
  skipped = 0;
  coverage_pct = none;
  mutation_score = none;
  stdout_tail = "";
}
