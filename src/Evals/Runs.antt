-- ===== src/Evals/Runs.antt =====
-- evals/runner.py: `EvalRunner.run_suite`, and agent/service.py: the two methods it calls, wired to
-- the sequential runner.
use autonomous_software_engi.Prelude.{
  or_else, ℕ, ◌+◌, ◌-◌, String, Option, none, some, List, [], ◌∷◌, ◌++◌,
}
use autonomous_software_engi.Prelude.Text.{◌+s◌, join}
use autonomous_software_engi.Exec.{Exec, pure, ◌>>=◌, ◌>>◌}
use autonomous_software_engi.Contracts.Types.{Task, Issue, TaskSource, RunConfig, str}
use autonomous_software_engi.Contracts.Trace.{EvalResult, Patch}
use autonomous_software_engi.Contracts.Run.{AgentRun, record_event}
use autonomous_software_engi.Store.{save, get, add_result_row}
use autonomous_software_engi.Orchestrator.{new_run}
use autonomous_software_engi.Agent.State.{AgentState, initial_state}
use autonomous_software_engi.Agent.Services.{
  Services, Platform, Call, call, ask, read_store, write_store,
}
use autonomous_software_engi.Agent.Runner.{Gate, run}
use autonomous_software_engi.Evals.Suites.{EvalTask, Suite, to_task}
use autonomous_software_engi.Evals.Grade.{GradeResult, GradeServices, grade}

-- The agent's service with its repository, the grader, the gate, and where results are written.
-- `new_id` draws the id of a run, and `percent` prints an overlap.
pub record EvalServices (W I : Type 0) : Type 0 where
  pub agent : Services W I
  pub repository : String
  pub grader : GradeServices W
  pub gate : Gate W
  pub new_id : W → String × W
  pub source_text : TaskSource → String
  pub percent : ℕ → ℕ → String
  pub write_results : List EvalResult → String → String → Call W (Unit {0})

abbrev pub diff_of : Option Patch → String
diff_of none = ""
diff_of (some patch) = patch.diff

abbrev pub files_of : Option Patch → List String
files_of none = []
files_of (some patch) = patch.files

module _ {W I : Type 0} (services : EvalServices W I) where
  -- `AgentService.create_run`, for a task that is given
  unfoldable pub create_run : Issue → RunConfig → Task → Exec (Platform W) (AgentRun × AgentState)
  create_run issue config task = do
    id ← ask services.new_id
    let run =
        record_event "run_created"
          (("config", str config.name) ∷ ("source", str (services.source_text task.source)) ∷ [])
          (record (new_run id issue) { task = some task; config = config })
    write_store (save run)
    pure (run, initial_state run.id services.repository task config none)

  -- `AgentService.run_sequential`
  unfoldable pub run_sequential : AgentState → Exec (Platform W) AgentState
  run_sequential state = run services.agent services.gate state

  overlap_notes : Option (ℕ × ℕ) → List String
  overlap_notes none = []
  overlap_notes (some (shared, total)) =
      ("expected-file overlap " +s services.percent shared total) ∷ []

  unfoldable pub result_of :
      Suite → RunConfig → EvalTask → String → AgentRun → AgentState → GradeResult → ℕ → EvalResult
  unfolding overlap_notes
  result_of suite config task run_id finished final g wall_ms = record {
    suite = suite.name;
    task_id = task.id;
    run_id = run_id;
    config_name = config.name;
    resolved = g.resolved;
    cost_usd = finished.cost_usd;
    steps = finished.steps;
    wall_ms = wall_ms;
    notes = join "; " (
        (elim final.outcome [ none ↦ "unknown" | some outcome ↦ outcome ])
        ∷ (g.notes ++ overlap_notes g.expected_file_overlap));
  }

  -- One task of the suite.
  unfoldable pub run_task : Suite → RunConfig → ℕ → EvalTask → Exec (Platform W) EvalResult
  run_task suite config number task = do
    let given = to_task task number
    (run, state) ← create_run given.issue config given
    started ← ask services.agent.clock
    final ← run_sequential state
    ended ← ask services.agent.clock
    g ← call (grade services.grader task (diff_of final.patch) (some (files_of final.patch)))
    stored ← read_store (get run.id)
    let result = result_of suite config task run.id (or_else stored run) final g (ended - started)
    write_store (add_result_row result)
    pure result

  unfoldable pub run_tasks :
      Suite → RunConfig → ℕ → List EvalTask → Exec (Platform W) (List EvalResult)
  run_tasks suite config number [] = pure []
  run_tasks suite config number (task ∷ rest) = do
    result ← run_task suite config number task
    results ← run_tasks suite config (number + 1) rest
    pure (result ∷ results)

  -- `EvalRunner.run_suite`
  unfoldable pub run_suite : Suite → RunConfig → Exec (Platform W) (List EvalResult)
  run_suite suite config = do
    results ← run_tasks suite config 1 suite.tasks
    call (services.write_results results suite.name config.name)
    pure results
