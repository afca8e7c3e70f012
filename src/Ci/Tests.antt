-- ===== src/Ci/Tests.antt =====
-- The theorems on rollouts and red builds at concrete inputs.
use autonomous_software_engi.Prelude.{
  length, ◌≡◌, refl, ◌↔◌, inl, inr, true, false, none, some, [], ◌∷◌,
}
use autonomous_software_engi.Exec.{ok, Ensures}
use autonomous_software_engi.Contracts.Run.{AgentRun}
use autonomous_software_engi.Agent.Example.{example_platform, example_run}
use autonomous_software_engi.Ci.Canary.{
  Window, CanaryReport, default_slo, error_rate_above, next_step, evaluate_window, promote, climb,
  simulate,
}
use autonomous_software_engi.Ci.Ladder.{
  MeetsSlo, evaluate_window-MeetsSlo, promotions, simulate-promotions,
}
use autonomous_software_engi.Ci.Actions.{WorkflowRun, Job, FailureLog, GitHubApi}
use autonomous_software_engi.Ci.Triage.{Classification, flake, rules, TriageServices, route}
use autonomous_software_engi.Ci.Watcher.{check}
use autonomous_software_engi.Ci.Labels.{Routed, route-Routed}
use autonomous_software_engi.Ci.Watched.{Watched, check-Watched}

abbrev calm : Window
calm = record { requests = 200; errors = 1; p95_ms = 120 }

abbrev quiet_window : Window
quiet_window = record { requests = 3; errors = 0; p95_ms = 90 }

evaluate_window-MeetsSlo_example :
    ((evaluate_window default_slo (10 ∷ 50 ∷ 100 ∷ []) 10 calm).action ≡ promote)
    ↔ MeetsSlo default_slo calm
evaluate_window-MeetsSlo_example = evaluate_window-MeetsSlo default_slo (10 ∷ 50 ∷ 100 ∷ []) 10 calm

abbrev rollout : CanaryReport
rollout = record {
  image = "shop:2";
  steps = 10 ∷ 100 ∷ [];
  decisions = (climb default_slo (10 ∷ 100 ∷ []) 10 (calm ∷ quiet_window ∷ calm ∷ [])).0;
  final = (climb default_slo (10 ∷ 100 ∷ []) 10 (calm ∷ quiet_window ∷ calm ∷ [])).1;
}

simulate-promotions_example : promotions rollout.decisions ≡ length rollout.steps
unfolding simulate climb evaluate_window next_step error_rate_above
simulate-promotions_example =
    simulate-promotions default_slo (10 ∷ 100 ∷ []) "shop:2" (calm ∷ quiet_window ∷ calm ∷ [])
      rollout (elim [ inl e ↦ cc | inr m ↦ m ], (λ m. m, tt)) refl refl

abbrev failed_run : WorkflowRun
failed_run = record {
  id = 5;
  name = "tests";
  status = "completed";
  conclusion = some "failure";
  html_url = "https://example.org/runs/5";
  head_sha = "abc";
}

abbrev failed_job : Job
failed_job = record {
  id = 9;
  name = "unit";
  conclusion = some "failure";
  failed_step = some "pytest";
}

abbrev failure : FailureLog
failure = record {
  run = failed_run;
  job = failed_job;
  excerpt = "Connection reset by peer";
  total_lines = 1;
  truncated = false;
  scrubbed = 0;
}

abbrev network_blip : Classification
network_blip = record {
  kind = flake;
  reason = "transient network or runner failure";
  confidence = 7000;
  source = rules;
}

route-Routed_example :
    Routed "task-2" network_blip failure "acme/shop"
      (some 7)
      0
      (route "task-2" network_blip failure "acme/shop" (some 7) 0)
route-Routed_example = route-Routed "task-2" network_blip failure "acme/shop" (some 7) 0

abbrev example_api : GitHubApi (Unit {0})
example_api = record {
  head_sha = λ repository number w. (ok "abc", w);
  list_workflow_runs = λ repository sha w. (ok (failed_run ∷ []), w);
  list_jobs = λ repository id w. (
    ok (
        record {
          id = 9;
          name = "unit";
          conclusion = some "failure";
          steps = ("pytest", some "failure") ∷ [];
        }
        ∷ []),
    w,
  );
  job_log = λ repository id w. (ok "Connection reset by peer", w);
  rerun_workflow = λ repository id w. (ok tt, w);
  create_issue_comment = λ repository number body w. (ok tt, w);
  scrub_secrets = λ text. (text, 0);
}

abbrev example_triage : TriageServices (Unit {0})
example_triage = record {
  searches = λ kind text. true;
  llm = none;
  model_name = "model";
  triage_system = "classify";
  reply_of = λ text. ok (record { kind = "unknown"; reason = none; confidence = 0 });
}

abbrev delivered_run : AgentRun
delivered_run = record example_run { pr_number = some 7 }

check-Watched_example :
    Ensures
      (λ x. x ≡ example_platform)
      (check example_api example_triage "task-2" delivered_run 0 true)
      (λ o p. Watched example_api delivered_run example_platform 0 o p)
check-Watched_example =
    check-Watched example_api example_triage "task-2" delivered_run 0 true example_platform
