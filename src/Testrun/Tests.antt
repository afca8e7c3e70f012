-- ===== src/Testrun/Tests.antt =====
-- The theorem on green reports at a concrete run.
use autonomous_software_engi.Prelude.{refl, [], ◌∷◌}
use autonomous_software_engi.Prelude.Dict.{Dict, lookup, insert}
use autonomous_software_engi.Contracts.Trace.{green}
use autonomous_software_engi.Testrun.{TestStatus, passed, skipped, build_report, report}
use autonomous_software_engi.Testrun.Green.{RunPassed, report-RunPassed}
use autonomous_software_engi.Agent.Example.{example_result}

abbrev statuses : Dict TestStatus
statuses = ("test_total", passed) ∷ ("test_slow", skipped) ∷ []

report-RunPassed_example : RunPassed ("test_total" ∷ []) [] example_result statuses
unfolding report build_report green lookup insert
report-RunPassed_example =
    report-RunPassed "run-1" 2 ("test_total" ∷ []) [] example_result statuses refl
