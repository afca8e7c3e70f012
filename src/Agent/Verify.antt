-- ===== src/Agent/Verify.antt =====
-- agent/nodes.py: the node `verify`. `evaluate_patch` is its part after the tests have run and the
-- installed tests have been read.
use autonomous_software_engi.Prelude.{
  if◌then◌else◌, is_some, all, select, is_empty, ℕ, String, Bool, true, false, not, ◌&&◌, Option,
  none, some, List, [], ◌∷◌, ◌++◌, str_eq,
}
use autonomous_software_engi.Prelude.Text.{◌+s◌, join, decimal}
use autonomous_software_engi.Prelude.Dict.{Dict, lookup}
use autonomous_software_engi.Exec.{Exec, pure, lift, ◌>>=◌, ◌>>◌}
use autonomous_software_engi.Contracts.Paths.{looks_like_test}
use autonomous_software_engi.Contracts.Types.{
  Task, CheckResult, EvaluationReport, verify_patch, bool, strs,
}
use autonomous_software_engi.Contracts.Trace.{Patch, TestReport, green}
use autonomous_software_engi.Contracts.Run.{AgentRun}
use autonomous_software_engi.Policy.{Policy, changed_files}
use autonomous_software_engi.Store.{add_report_row}
use autonomous_software_engi.Testrun.{report}
use autonomous_software_engi.Verification.{test_integrity, scope_check}
use autonomous_software_engi.Agent.State.{AgentState, Update}
use autonomous_software_engi.Agent.Services.{Services, Platform, call, write_store}
use autonomous_software_engi.Agent.Steps.{run_of, save_run, workspace_of}
use autonomous_software_engi.Agent.Implement.{task_is_tests}

unfoldable pub files_of : Option Patch → List String
files_of none = []
files_of (some patch) = patch.files

unfoldable pub diff_of : Option Patch → String
diff_of none = ""
diff_of (some patch) = patch.diff

-- The test files that the patch changes and that the platform did not install.
unfoldable pub agent_test_edits : Dict String → List String → List String
agent_test_edits installed files =
    select (λ path. looks_like_test path && not (is_some (lookup path installed))) files

unfoldable pub failed_check : String → CheckResult
failed_check details = record {
  name = "test-integrity";
  passed = false;
  details = details;
  command = none;
}

unfoldable pub integrity_check : Task → Option Patch → Dict String → List String → CheckResult
unfolding failed_check
integrity_check task patch installed tampered =
    let edits = agent_test_edits installed (files_of patch) in
    if not (is_empty edits) && not (task_is_tests task.metadata)
    then failed_check
        ("patch modifies test files, which this task does not allow: " +s join ", " edits)
    else if not (is_empty tampered)
    then failed_check ("reproduction test was modified or removed: " +s join ", " tampered)
    else test_integrity (diff_of patch)

unfoldable pub tests_check : TestReport → CheckResult
tests_check r = record {
  name = "tests";
  passed = green r;
  details =
      decimal r.passed
      +s " passed, "
      +s decimal r.failed
      +s " failed, "
      +s decimal r.errors
      +s " errors";
  command = none;
}

-- `[c.details for c in checks if not c.passed and c.name != "tests"]`
unfoldable pub violations : List CheckResult → List String
violations [] = []
violations (c ∷ cs) =
    let rest = violations cs in
    if not c.passed && not (str_eq c.name "tests") then c.details ∷ rest else rest

unfoldable pub evaluate_patch :
    Policy → Task → Option Patch → Dict String → List String → TestReport → EvaluationReport
unfolding tests_check violations
evaluate_patch policy task patch installed tampered r =
    let checks : List CheckResult =
      tests_check r
      ∷ scope_check (changed_files policy (files_of patch))
      ∷ integrity_check task patch installed tampered
      ∷ [] in
    record {
      passed = all (λ (check : CheckResult). check.passed) checks;
      checks = checks;
      mutation_score = none;
      changed_files = files_of patch;
      policy_violations = violations checks;
    }

-- The report of the targeted tests with the counts of the whole suite.
unfoldable pub with_full_suite : TestReport → TestReport → TestReport
with_full_suite r full = record r {
  failed = full.failed;
  errors = full.errors;
  stdout_tail = full.stdout_tail;
  total = full.total;
  passed = full.passed;
  skipped = full.skipped;
}

module _ {W I : Type 0} (services : Services W I) where
  -- `PytestRunner.report`
  unfoldable pub run_report :
      String → String → ℕ → List String → List String → Exec (Platform W) TestReport
  run_report workspace run_id index fail_to_pass pass_to_pass = do
    outcome ← call (services.pytest workspace (fail_to_pass ++ pass_to_pass))
    pure (report run_id index fail_to_pass pass_to_pass outcome.0 outcome.1)

  -- The targeted tests, and the whole suite behind them when no other tests are known.
  unfoldable pub full_report : String → AgentRun → Task → TestReport → Exec (Platform W) TestReport
  unfolding run_report
  full_report workspace run task r =
      if green r && not (is_empty task.fail_to_pass) && is_empty task.pass_to_pass
      then (do full ← run_report workspace run.id run.steps [] []; pure (with_full_suite r full))
      else pure r

  -- The installed tests that are gone or changed.
  unfoldable pub tampered_tests : String → Dict String → Exec (Platform W) (List String)
  tampered_tests workspace [] = pure []
  tampered_tests workspace ((path, digest) ∷ rest) = do
    content ← call (services.read_file workspace path)
    others ← tampered_tests workspace rest
    let changed : Bool = elim content [
      | none ↦ true
      | some text ↦ not (str_eq (services.digest text) digest)
    ]
    pure (if changed then path ∷ others else others)

  unfoldable pub verify : AgentState → Exec (Platform W) (List Update)
  unfolding run_report full_report tampered_tests
  verify state = do
    run ← run_of services state
    workspace ← lift (workspace_of state)
    targeted ← run_report workspace run.id run.steps state.task.fail_to_pass state.task.pass_to_pass
    r ← full_report workspace run state.task targeted
    write_store (add_report_row r)
    tampered ← tampered_tests workspace state.installed_tests
    let evaluation =
        evaluate_patch services.policy state.task state.patch state.installed_tests tampered r
    save_run services (some verify_patch)
        (some (
          "patch_verified",
          ("green", bool (green r))
              ∷ ("passed", bool evaluation.passed)
              ∷ ("violations", strs evaluation.policy_violations)
              ∷ [],
        ))
        (record run { test_report = some r; evaluation = some evaluation })
    pure (Update.report r ∷ [])
