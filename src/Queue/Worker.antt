-- ===== src/Queue/Worker.antt =====
-- worker.py: `run_once`. The decoding of a payload, and the retrieval and the planner that `analyze`
-- calls for a repository's path, are parameters. The run store is the one of store.py, whose interface
-- the database's store shares.
use autonomous_software_engi.Prelude.{
  ◌==◌, if◌then◌else◌, All, ℕ, String, ◌≡◌, refl, Bool, true, false, Option, none, some, List, [],
  ◌∷◌, arith, str_eq,
}
use autonomous_software_engi.Prelude.Text.{◌+s◌}
use autonomous_software_engi.Exec.{
  Exec, Result, ok, err, value_error, pure, raise, lift, gets, ◌>>=◌,
}
use autonomous_software_engi.Contracts.Types.{Issue, ContextItem, ChangePlan}
use autonomous_software_engi.Contracts.Run.{AgentRun}
use autonomous_software_engi.Store.{Store, get}
use autonomous_software_engi.Orchestrator.{create, analyze}
use autonomous_software_engi.Queue.{
  TaskStatus, completed, failed, QueuedTask, TaskQueue, first_claimable, update_task, ended, claim,
  complete,
}

-- What a payload holds; each key may be missing or ill-formed.
pub record TaskPayload : Type 0 where
  pub issue : Result Issue
  pub path : Result String

pub record WorkerServices : Type 0 where
  pub decode : String → Result TaskPayload
  pub retrieve : String → Issue → Result (List ContextItem)
  pub planner : Issue → List ContextItem → Result ChangePlan

-- The database of the worker.
pub record Database : Type 0 where
  pub queue : TaskQueue
  pub store : Store

abbrev pub returned : {A : Type 0} → Result A → Bool
returned (ok a) = true
returned (err e) = false

abbrev pub reported : {A : Type 0} → Result A → Result Bool
reported (ok a) = ok true
reported (err e) = err e

module _ (services : WorkerServices) where
  -- The run of the task, or a new one with the id `new_id`, which is drawn at random.
  unfoldable pub run_for : String → TaskPayload → Option AgentRun → Exec Store AgentRun
  run_for new_id payload (some run) = pure run
  run_for new_id payload none = do issue ← lift payload.issue; create new_id issue

  -- The `try` block.
  unfoldable pub perform_task : String → QueuedTask → Exec Store AgentRun
  unfolding run_for
  perform_task new_id task = do
    payload ← lift (services.decode task.payload)
    if str_eq task.kind "analyze"
        then (do
          stored ← gets (get task.run_id)
          run ← run_for new_id payload stored
          path ← lift payload.path
          analyze (services.retrieve path) services.planner run.id)
        else raise (value_error ("unsupported task kind: " +s task.kind))

  -- The `try` block with its `finally`: the task is completed in either case.
  unfoldable pub attempt : String → QueuedTask → Database → Result Bool × Database
  attempt new_id task db =
      let (r, s) = perform_task new_id task db.store in
      (reported r, record { queue = complete task.id (returned r) db.queue; store = s })

  abbrev pub attempt_claimed :
      String → Database → Option QueuedTask × TaskQueue → Result Bool × Database
  attempt_claimed new_id db (none, q) = (ok false, db)
  attempt_claimed new_id db (some task, q) = attempt new_id task (record db { queue = q })

  unfoldable pub run_once : ℕ → String → Database → Result Bool × Database
  run_once now new_id db = attempt_claimed new_id db (claim now db.queue)

-- Every row with the id has the status.
abbrev pub HasStatus : ℕ → TaskStatus → List QueuedTask → Type 0
HasStatus id status = All (λ (t : QueuedTask). t.id ≡ id → t.status ≡ status)

updated-HasStatus :
    (id : ℕ) (succeeded : Bool) (ts : List QueuedTask)
    → HasStatus id (if succeeded then completed else failed) (update_task id (ended succeeded) ts)
unfolding update_task
updated-HasStatus id succeeded [] = tt
updated-HasStatus id succeeded (t ∷ ts) =
    by_id (t.id == id) refl (updated-HasStatus id succeeded ts)
  where
    by_id :
        (b : Bool)
        → (t.id == id) ≡ b
        → HasStatus id
            (if succeeded then completed else failed)
            (update_task id (ended succeeded) ts)
        → HasStatus id (if succeeded then completed else failed) (
            if b
            then ended succeeded t ∷ update_task id (ended succeeded) ts
            else t ∷ update_task id (ended succeeded) ts)
    by_id true e h = ((λ k. refl), h)
    by_id false e h = ((λ k. ground arith), h)

-- When a task is there to be claimed, `run_once` does not leave it running: it is completed exactly
-- if the work returned, and failed if it raised, and the error is passed on.
pub run_once-HasStatus :
    (services : WorkerServices) (now : ℕ) (new_id : String) (db : Database) (task : QueuedTask)
    → first_claimable now db.queue.tasks ≡ some task
    → HasStatus task.id
        (if returned (perform_task services new_id task db.store).0 then completed else failed)
        (run_once services now new_id db).1.queue.tasks
      × ((run_once services now new_id db).0
          ≡ reported (perform_task services new_id task db.store).0)
unfolding run_once claim attempt complete
run_once-HasStatus services now new_id db task h = rw h (updated-HasStatus task.id _ _, refl)
