-- ===== src/Orchestrator/Tests.antt =====
-- The orchestrator's theorems at concrete requests.
use autonomous_software_engi.Prelude.{◌≡◌, true, none, some, List, [], ◌∷◌}
use autonomous_software_engi.Prelude.Dict.{lookup}
use autonomous_software_engi.Exec.{ok}
use autonomous_software_engi.Contracts.Types.{
  await_plan_approval, create_workspace, verify_patch, await_pr_approval, ingest_issue,
  retrieve_context, EvaluationReport,
}
use autonomous_software_engi.Store.{Store, save, get, empty_store}
use autonomous_software_engi.Orchestrator.{
  analyze, approve_plan, record_evaluation, evaluated, approve_pr, review_pr,
}
use autonomous_software_engi.Orchestrator.Guards.{
  Outcome, Is, Either, approve_pr-Outcome, record_evaluation-Outcome, reviewed_plan,
  approve_plan-Outcome, analysis, analyze-Outcome,
}
use autonomous_software_engi.Orchestrator.Reachable.{
  AllSound, Request, create_run, analyze_run, decide_plan, evaluate, decide_pr, serve,
  serve-AllSound,
}
use autonomous_software_engi.Agent.Example.{example_issue, example_plan, example_run}

abbrev passed_report : EvaluationReport
passed_report = record {
  passed = true;
  checks = [];
  mutation_score = none;
  changed_files = "shop/total.py" ∷ [];
  policy_violations = [];
}

abbrev requests : List Request
requests =
    create_run "run-1" example_issue
    ∷ analyze_run (λ issue. ok []) (λ issue context. ok example_plan) "run-1"
    ∷ decide_plan "run-1" true "looks right"
    ∷ evaluate "run-1" passed_report
    ∷ decide_pr "run-1" true "ship it"
    ∷ decide_pr "run-1" true "again"
    ∷ []

empty_store-AllSound : AllSound empty_store
unfolding get lookup
empty_store-AllSound = record { at = λ run_id run e. cc }

serve-AllSound_example : AllSound (serve requests empty_store)
serve-AllSound_example = serve-AllSound requests empty_store empty_store-AllSound

-- A store whose run awaits approval of its pull request, or of its plan.
abbrev awaiting_pr : Store
awaiting_pr = save (record example_run { state = await_pr_approval }) empty_store

abbrev awaiting_plan : Store
awaiting_plan =
    save (record example_run { state = await_plan_approval; plan = some example_plan }) empty_store

approve_pr-Outcome_example :
    Outcome "run-1" awaiting_pr
      (Is await_pr_approval)
      (λ run new. ok (review_pr true "ship it" run) ≡ ok new)
      (approve_pr "run-1" true "ship it" awaiting_pr)
approve_pr-Outcome_example = approve_pr-Outcome "run-1" true "ship it" awaiting_pr

record_evaluation-Outcome_example :
    Outcome "run-1" awaiting_pr
      (Either verify_patch create_workspace)
      (λ run new. ok (evaluated passed_report run) ≡ ok new)
      (record_evaluation "run-1" passed_report awaiting_pr)
record_evaluation-Outcome_example = record_evaluation-Outcome "run-1" passed_report awaiting_pr

approve_plan-Outcome_example :
    Outcome "run-1" awaiting_plan
      (Is await_plan_approval)
      (λ run new. reviewed_plan true "looks right" run ≡ ok new)
      (approve_plan "run-1" true "looks right" awaiting_plan)
approve_plan-Outcome_example = approve_plan-Outcome "run-1" true "looks right" awaiting_plan

analyze-Outcome_example :
    Outcome "run-1"
      (save example_run empty_store)
      (Either ingest_issue retrieve_context)
      (λ run new. analysis (λ issue. ok []) (λ issue context. ok example_plan) run ≡ ok new)
      (analyze
        (λ issue. ok [])
        (λ issue context. ok example_plan)
        "run-1"
        (save example_run empty_store))
analyze-Outcome_example =
    analyze-Outcome (λ issue. ok []) (λ issue context. ok example_plan) "run-1"
      (save example_run empty_store)
