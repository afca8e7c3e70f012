-- ===== src/Evals/Tests.antt =====
-- The theorems on evaluations at small suites.
use autonomous_software_engi.Prelude.{
  All, String, ◌≡◌, refl, Bool, true, false, none, List, [], ◌∷◌,
}
use autonomous_software_engi.Prelude.Dict.{insert, lookup}
use autonomous_software_engi.Exec.{Ensures, ok, ◌>>=◌}
use autonomous_software_engi.Contracts.Trace.{EvalResult}
use autonomous_software_engi.Contracts.Run.{record_event}
use autonomous_software_engi.Testrun.{passed}
use autonomous_software_engi.Store.{get, save}
use autonomous_software_engi.Orchestrator.{new_run, create, default_config}
use autonomous_software_engi.Orchestrator.Reachable.{Request, create_run, serve, handle}
use autonomous_software_engi.Agent.Example.{
  example_platform, example_services, example_issue, example_result,
}
use autonomous_software_engi.Agent.Runner.{auto_approve}
use autonomous_software_engi.Evals.Suites.{EvalTask, Suite}
use autonomous_software_engi.Evals.Grade.{GradeServices, grade}
use autonomous_software_engi.Evals.Graded.{Graded, grade-Graded}
use autonomous_software_engi.Evals.Runs.{EvalServices, run_suite}
use autonomous_software_engi.Evals.Honest.{EachHonest, run_suite-Honest}
use autonomous_software_engi.Evals.Report.{summarize}
use autonomous_software_engi.Evals.Counts.{Counts, attempts, summarize-Counts}
use autonomous_software_engi.Evals.Scored.{WellScored, serve-WellScored}

abbrev task : EvalTask
task = record {
  id = "total-1";
  repository = "/repo";
  base_sha = none;
  title = "Total is wrong";
  body = "";
  fail_to_pass = "tests/test_total.py::test_total" ∷ [];
  pass_to_pass = [];
  test_patch = ("tests/test_total.py", "def test_total(): ...") ∷ [];
  expected_files = "shop/total.py" ∷ [];
  metadata = [];
}

abbrev suite : Suite
suite = record { name = "shop"; description = ""; tasks = task ∷ [] }

-- A grader whose one test passes.
abbrev grader : GradeServices (Unit {0})
grader = record {
  is_dir = λ path w. true;
  create = λ repository sha w. (ok "/grade", w);
  remove = λ root w. (ok tt, w);
  git_apply = λ root diff w. (ok 0, w);
  write_file = λ root path text w. (ok tt, w);
  pytest =
      λ root names w. (ok (example_result, ("tests/test_total.py::test_total", passed) ∷ []), w);
}

abbrev services : EvalServices (Unit {0}) (Unit {0})
services = record {
  agent = example_services;
  repository = "/repo";
  grader = grader;
  gate = auto_approve;
  new_id = λ w. ("run-1", w);
  source_text = λ source. "eval";
  percent = λ shared total. "";
  write_results = λ results name config w. (ok tt, w);
}

grade-Graded_example :
    Ensures
      (λ x. x ≡ tt)
      (grade grader task "+return total" none)
      (λ g w. Graded grader task "+return total" tt g)
grade-Graded_example = grade-Graded grader task "+return total" none tt

run_suite-Honest_example :
    Ensures
      (λ x. x ≡ example_platform)
      (run_suite services suite default_config)
      (λ rs p. EachHonest services suite default_config 1 (task ∷ []) example_platform rs)
run_suite-Honest_example = run_suite-Honest services suite default_config example_platform

abbrev result_at : String → Bool → EvalResult
result_at config_name resolved = record {
  suite = "shop";
  task_id = "total-1";
  run_id = "run-1";
  config_name = config_name;
  resolved = resolved;
  cost_usd = 15;
  steps = 3;
  wall_ms = 100;
  notes = "";
}

abbrev results : List EvalResult
results = result_at "a" true ∷ result_at "b" false ∷ result_at "a" false ∷ []

summarize-Counts_example :
    All (Counts results) (summarize results) × (attempts (summarize results) ≡ 3)
summarize-Counts_example = summarize-Counts results

abbrev requests : List Request
requests = create_run "run-1" example_issue ∷ []

serve-WellScored_example :
    WellScored (record_event "run_created" [] (new_run "run-1" example_issue))
unfolding serve handle create get save insert lookup ◌>>=◌ record_event new_run
serve-WellScored_example =
    serve-WellScored requests "run-1"
      (record_event "run_created" [] (new_run "run-1" example_issue)) refl
