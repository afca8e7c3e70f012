-- ===== src/Agent/Tests.antt =====
-- The workflow's theorems at a concrete run.
use autonomous_software_engi.Prelude.{◌+◌, ◌*◌, ◌≡◌, refl, ◌↔◌, true, none, [], arith}
use autonomous_software_engi.Exec.{Ensures}
use autonomous_software_engi.Agent.State.{initial_state, merge}
use autonomous_software_engi.Agent.Reflect.{judge, reflect}
use autonomous_software_engi.Agent.Runner.{max_loops, run, rounds, auto_approve}
use autonomous_software_engi.Agent.Tracking.{Like, Stored}
use autonomous_software_engi.Agent.Verdicts.{Judged, judge-Judged}
use autonomous_software_engi.Agent.Promotion.{Reflected, reflect-Reflected}
use autonomous_software_engi.Agent.Loop.{Looped, rounds-Looped}
use autonomous_software_engi.Agent.Durable.{Followed, run-Followed}
use autonomous_software_engi.Agent.Submission.{Submits, run-Submits}
use autonomous_software_engi.Policy.{default_policy}
use autonomous_software_engi.Agent.Verify.{evaluate_patch}
use autonomous_software_engi.Agent.Evaluation.{Acceptable, evaluate_patch-Acceptable}
use autonomous_software_engi.Agent.Example.{
  example_platform, example_task, example_report, example_services, example_state, example_run,
}

run-Submits_example :
    Ensures
      (Stored example_state.run_id (λ r. Unit {0}))
      (run example_services auto_approve example_state)
      Submits
unfolding initial_state
run-Submits_example =
    run-Submits example_services auto_approve example_state (omega arith, omega arith) (λ e. cc)

rounds-Looped_example :
    Ensures
      (Stored example_state.run_id (λ r. r.config ≡ example_state.config))
      (rounds example_services 6 example_state)
      (Looped example_state)
unfolding initial_state
rounds-Looped_example = rounds-Looped example_services 6 example_state (omega arith) (omega arith)

reflect-Reflected_example :
    Ensures
      (Stored example_state.run_id
        (λ r. (r.config ≡ example_state.config) × (r.iteration ≡ example_state.iteration)))
      (reflect example_services example_state)
      (λ us p. Reflected example_state (merge example_state us) p)
reflect-Reflected_example = reflect-Reflected example_services example_state

judge-Judged_example :
    Ensures
      (λ x. x ≡ example_platform)
      (judge example_services example_state example_run 0)
      (λ j p.
        Like example_run j.0
        × Judged example_services example_state example_run 0 example_platform j.1)
judge-Judged_example = judge-Judged example_services example_state example_run 0 example_platform

evaluate_patch-Acceptable_example :
    ((evaluate_patch default_policy example_task none [] [] example_report).passed ≡ true)
    ↔ Acceptable default_policy example_task none [] [] example_report
evaluate_patch-Acceptable_example =
    evaluate_patch-Acceptable default_policy example_task none [] [] example_report

run-Followed_example :
    Ensures
      (λ p. p ≡ example_platform)
      (run example_services auto_approve example_state)
      (Followed example_services auto_approve example_state example_platform (6 + 3 * max_loops))
run-Followed_example =
    run-Followed example_services auto_approve example_state example_platform refl refl
