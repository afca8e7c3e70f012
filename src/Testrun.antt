-- ===== src/Testrun.antt =====
-- testrun.py: a pytest run, given by its exit code, its output and the status of each test, turned
-- into a report. Running pytest and reading its JUnit file are a parameter of the agent.
pub mod Green
mod Tests
use autonomous_software_engi.Prelude.{
  ◌==◌, if◌then◌else◌, length, drop, is_empty, ℕ, suc, ◌+◌, ◌-◌, String, Bool, true, false, not,
  ◌&&◌, ◌||◌, Option, none, some, List, [], ◌∷◌,
}
use autonomous_software_engi.Prelude.Text.{◌+s◌, join, splitlines}
use autonomous_software_engi.Prelude.Dict.{Dict, lookup, insert}
use autonomous_software_engi.Contracts.Types.{CommandResult}
use autonomous_software_engi.Contracts.Trace.{TestReport}

-- The four statuses that `parse_junit` gives.
pub data TestStatus : Type 0 where
  passed failed error skipped : TestStatus

abbrev pub is_passed : TestStatus → Bool
is_passed passed = true
is_passed _ = false

abbrev pub is_failed : TestStatus → Bool
is_failed failed = true
is_failed _ = false

abbrev pub is_error : TestStatus → Bool
is_error error = true
is_error _ = false

abbrev pub is_skipped : TestStatus → Bool
is_skipped skipped = true
is_skipped _ = false

pub tally : (TestStatus → Bool) → Dict TestStatus → ℕ
tally p [] = 0
tally p ((name, s) ∷ rest) = let n = tally p rest in if p s then suc n else n

abbrev did_pass : Option TestStatus → Bool
did_pass none = false
did_pass (some s) = is_passed s

-- `{name: statuses.get(name) == "passed" for name in names}`, over what the dict already holds.
pub verdicts : Dict TestStatus → List String → Dict Bool → Dict Bool
verdicts statuses [] acc = acc
verdicts statuses (name ∷ rest) acc =
    verdicts statuses rest (insert name (did_pass (lookup name statuses)) acc)

unfoldable pub build_report :
    String → ℕ → Dict TestStatus → List String → List String → String → TestReport
unfolding tally verdicts
build_report run_id step_index statuses fail_to_pass pass_to_pass stdout_tail = record {
  run_id = run_id;
  step_index = step_index;
  fail_to_pass = verdicts statuses fail_to_pass [];
  pass_to_pass = verdicts statuses pass_to_pass [];
  total = length statuses;
  passed = tally is_passed statuses;
  failed = tally is_failed statuses;
  errors = tally is_error statuses;
  skipped = tally is_skipped statuses;
  coverage_pct = none;
  mutation_score = none;
  stdout_tail = stdout_tail;
}

-- The last `n` elements, `xs[-n:]`.
abbrev pub take_last {ℓ} : {A : Type ℓ} → ℕ → List A → List A
take_last n xs = drop (length xs - n) xs

unfoldable pub tail : String → String
tail text = join "\n" (take_last 100 (splitlines text))

-- `PytestRunner.report`, from what the run returned.
unfoldable pub report :
    String → ℕ → List String → List String → CommandResult → Dict TestStatus → TestReport
unfolding tail
report run_id step_index fail_to_pass pass_to_pass result statuses =
    let built =
      build_report run_id step_index statuses fail_to_pass pass_to_pass
        (tail (result.stdout +s "\n" +s result.stderr)) in
    if is_empty statuses && not (result.exit_code == 0 || result.exit_code == 5)
    then record built { errors = built.errors + 1 }
    else built
