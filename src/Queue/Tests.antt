-- ===== src/Queue/Tests.antt =====
-- The theorems on the queue and its worker at concrete requests.
use autonomous_software_engi.Prelude.{◌≡◌, refl, false, none, List, [], ◌∷◌}
use autonomous_software_engi.Prelude.Member.{Distinct}
use autonomous_software_engi.Exec.{ok, err, value_error, ◌>>=◌}
use autonomous_software_engi.Store.{empty_store}
use autonomous_software_engi.Agent.Example.{example_issue, example_plan}
use autonomous_software_engi.Queue.{empty_queue, QueuedTask, pending, failed, first_claimable}
use autonomous_software_engi.Queue.Worker.{
  WorkerServices, Database, perform_task, run_once, HasStatus, run_once-HasStatus,
}
use autonomous_software_engi.Queue.Claims.{
  QueueRequest, enqueue_task, claim_task, complete_task, claims, IsNumbered, claims-Distinct,
}

abbrev work : List QueueRequest
work =
    enqueue_task "run-1" "analyze" "{}" 3
    ∷ enqueue_task "run-2" "analyze" "{}" 4
    ∷ claim_task 5
    ∷ claim_task 5
    ∷ complete_task 1 false
    ∷ claim_task 6
    ∷ []

empty_queue-IsNumbered : IsNumbered empty_queue
empty_queue-IsNumbered = record { below = tt }

claims-Distinct_example : Distinct (claims work empty_queue)
claims-Distinct_example = claims-Distinct work empty_queue empty_queue-IsNumbered

abbrev waiting : QueuedTask
waiting = record {
  id = 1;
  run_id = "run-1";
  kind = "review";
  payload = "{}";
  status = pending;
  attempts = 0;
  available_at = 3;
  locked_at = none;
}

abbrev database : Database
database = record {
  queue = record { tasks = waiting ∷ []; last_id = 1; deliveries = [] };
  store = empty_store;
}

abbrev worker : WorkerServices
worker = record {
  decode = λ text. ok (record { issue = ok example_issue; path = ok "shop" });
  retrieve = λ path issue. ok [];
  planner = λ issue context. ok example_plan;
}

run_once-HasStatus_example :
    HasStatus 1 failed (run_once worker 5 "run-9" database).1.queue.tasks
    × ((run_once worker 5 "run-9" database).0 ≡ err (value_error "unsupported task kind: review"))
unfolding first_claimable perform_task ◌>>=◌
run_once-HasStatus_example = run_once-HasStatus worker 5 "run-9" database waiting refl
