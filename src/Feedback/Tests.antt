-- ===== src/Feedback/Tests.antt =====
-- The theorems on feedback at a few reviews.
use autonomous_software_engi.Prelude.{◌≡◌, refl, true, false, some, List, [], ◌∷◌}
use autonomous_software_engi.Prelude.Text.{mem}
use autonomous_software_engi.Exec.{ok, ◌>>=◌}
use autonomous_software_engi.Contracts.Trace.{approved, changes_requested}
use autonomous_software_engi.Contracts.Run.{AgentRun}
use autonomous_software_engi.Agent.Example.{example_run}
use autonomous_software_engi.Feedback.Reviews.{
  StampedReview, RawReview, RawPull, Desk, ReviewApi, stamped, sync, sync_pull, sync_reviews,
  sync_end, add_new, parse_time, state_to_decision, terminal_decision, same_key,
}
use autonomous_software_engi.Feedback.Features.{TrajectoryFeatures}
use autonomous_software_engi.Feedback.Dataset.{LabeledTrajectory, human_label, agreement}
use autonomous_software_engi.Feedback.Agreement.{Tallied, agreement-Tallied}
use autonomous_software_engi.Feedback.Labels.{human_label-machine}
use autonomous_software_engi.Feedback.Again.{Steady, sync-again}

abbrev delivered : AgentRun
delivered = record example_run { pr_number = some 7 }

abbrev by_ada : StampedReview
by_ada = stamped delivered 7 changes_requested "ada" [] 10

abbrev by_ci : StampedReview
by_ci = stamped delivered 7 changes_requested "github-actions" [] 30

abbrev by_bob : StampedReview
by_bob = stamped delivered 7 approved "bob" [] 20

human_label-machine_example :
    human_label (by_ada ∷ by_ci ∷ by_bob ∷ []) ≡ human_label (by_ada ∷ by_bob ∷ [])
unfolding mem
human_label-machine_example = human_label-machine by_ci (by_ada ∷ []) (by_bob ∷ []) refl

abbrev features : TrajectoryFeatures
features = record {
  tests_green = true;
  no_test_edits = true;
  diff_lines = 3;
  retrieval_overlap = (1, 1);
  iterations = 1;
  regressions = 0;
  files_changed = 1;
  tool_calls = 4;
  gave_up = false;
}

abbrev dataset : List LabeledTrajectory
dataset =
    record {
      run_id = "run-1";
      pr_number = some 7;
      label = false;
      decision = changes_requested;
      features = features;
      config_name = "default";
    }
    ∷ []

agreement-Tallied_example :
    Tallied (λ f. 7_000) 5_000 dataset (agreement (λ f. 7_000) 5_000 dataset)
agreement-Tallied_example = agreement-Tallied (λ f. 7_000) 5_000 dataset

abbrev raws : List RawReview
raws = record { state = "APPROVED"; login = "bob"; body = ""; submitted_at = "2024-05-01" } ∷ []

abbrev pull : RawPull
pull = record { state = "closed"; merged_at = "2024-05-02"; closed_at = ""; merged_by = "bob" }

-- An API that answers the same each time.
abbrev api : ReviewApi (Unit {0})
api = record {
  list_pull_request_reviews = λ repository number d. (ok raws, d);
  get_pull_request = λ repository number d. (ok pull, d);
  upper = λ s. s;
  fromisoformat = λ s. ok 1;
  now = λ d. (ok 5, d);
}

abbrev desk : Desk (Unit {0})
desk = record { reviews = []; world = tt }

steady : Steady api delivered 7 raws pull
steady = record {
  numbered = refl;
  reviews_are = λ d. refl;
  pull_is = λ d. refl;
  timed = (refl, tt);
  pull_timed = λ decision e. refl;
}

sync-again_example :
    sync api delivered (sync api delivered desk).1 ≡ (ok [], (sync api delivered desk).1)
unfolding sync sync_pull sync_reviews sync_end add_new parse_time state_to_decision
    terminal_decision same_key ◌>>=◌
sync-again_example =
    sync-again api delivered 7 raws pull _ desk (sync api delivered desk).1 steady refl
