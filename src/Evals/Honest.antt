-- ===== src/Evals/Honest.antt =====
-- The results of a suite, one for each of its tasks.
use autonomous_software_engi.Prelude.{ℕ, ◌+◌, ◌≡◌, refl, true, some, List, [], ◌∷◌}
use autonomous_software_engi.Exec.{ok, Ensures, Ensures-bind, Ensures-pure}
use autonomous_software_engi.Exec.Rules.{Ensures-from}
use autonomous_software_engi.Contracts.Types.{RunConfig}
use autonomous_software_engi.Contracts.Run.{AgentRun}
use autonomous_software_engi.Contracts.Trace.{EvalResult}
use autonomous_software_engi.Agent.State.{AgentState}
use autonomous_software_engi.Agent.Tracking.{call-world}
use autonomous_software_engi.Agent.Services.{Platform, ask}
use autonomous_software_engi.Evals.Suites.{EvalTask, Suite, to_task}
use autonomous_software_engi.Evals.Graded.{Graded, PassingRun, grade-Graded}
use autonomous_software_engi.Evals.Runs.{
  EvalServices, create_run, run_sequential, result_of, run_task, run_tasks, run_suite, diff_of,
  files_of,
}

module _ {W I : Type 0} (services : EvalServices W I) (suite : Suite) (config : RunConfig) where
  -- What a resolved task has seen, from the platform `start`: the run was made for it, the agent ran
  -- and left a final state, and from the platform that the grading began in, the patch of that final
  -- state had its passing test run.
  pub record Resolved (number : ℕ) (task : EvalTask) (start : Platform W) : Type 0 where
    pub run : AgentRun
    pub state : AgentState
    pub final : AgentState
    pub started : ℕ
    pub ended : ℕ
    pub made : Platform W
    pub timed : Platform W
    pub left : Platform W
    pub graded_from : Platform W
    pub creation :
        create_run services (to_task task number).issue config (to_task task number) start
        ≡ (ok (run, state), made)
    pub start_clock : ask services.agent.clock made ≡ (ok started, timed)
    pub agent_run : run_sequential services state timed ≡ (ok final, left)
    pub end_clock : ask services.agent.clock left ≡ (ok ended, graded_from)
    pub passing : PassingRun services.grader task (diff_of final.patch) graded_from.world

  -- The result belongs to the task, and counts it as resolved only if its tests passed on its patch.
  pub record Honest (number : ℕ) (task : EvalTask) (start : Platform W) (r : EvalResult)
      : Type 0 where
    pub of_suite : r.suite ≡ suite.name
    pub of_config : r.config_name ≡ config.name
    pub of_task : r.task_id ≡ task.id
    pub resolved : r.resolved ≡ true → Resolved number task start

  -- One result for each task, in their order, each from the platform that the tasks before it left.
  abbrev pub EachHonest : ℕ → List EvalTask → Platform W → List EvalResult → Type 0
  EachHonest number [] start [] = Unit
  EachHonest number (t ∷ ts) start (r ∷ rs) =
      Honest number t start r
      × ((next : Platform W) × (run_task services suite config number t start ≡ (ok r, next))
          × EachHonest (number + 1) ts next rs)
  EachHonest number _ start _ = ⊥

  run_task-Honest :
      (number : ℕ) (task : EvalTask) (start : Platform W)
      → Ensures
          (λ x. x ≡ start)
          (run_task services suite config number task)
          (λ r p. Honest number task start r)
  unfolding run_task result_of
  run_task-Honest number task start =
      Ensures-from start _ _ λ (new : AgentRun × AgentState) made creation.
        Ensures-from made _ _ λ started timed start_clock.
          Ensures-from timed _ _ λ final left agent_run.
            Ensures-from left _ _ λ ended graded_from end_clock.
              Ensures-from graded_from _ _ λ g graded grading.
                Ensures-from graded _ _ λ stored reading read.
                  Ensures-from reading _ _ λ written writing wrote. Ensures-pure _ λ p u.
                    let of_grade : Graded services.grader task (diff_of final.patch)
                        graded_from.world g =
                      (grade-Graded services.grader task (diff_of final.patch)
                          (some (files_of final.patch)) graded_from.world).at
                        graded_from.world graded.world g refl
                        (call-world _ graded_from graded g grading) in
                    record {
                      of_suite = refl;
                      of_config = refl;
                      of_task = refl;
                      resolved = λ e. record {
                        run = new.0;
                        state = new.1;
                        final = final;
                        started = started;
                        ended = ended;
                        made = made;
                        timed = timed;
                        left = left;
                        graded_from = graded_from;
                        creation = creation;
                        start_clock = start_clock;
                        agent_run = agent_run;
                        end_clock = end_clock;
                        passing = (of_grade.resolved e).1;
                      };
                    }

  run_tasks-Honest :
      (number : ℕ) (tasks : List EvalTask) (start : Platform W)
      → Ensures
          (λ x. x ≡ start)
          (run_tasks services suite config number tasks)
          (λ rs p. EachHonest number tasks start rs)
  unfolding run_tasks
  run_tasks-Honest number [] start = Ensures-pure _ λ p u. tt
  run_tasks-Honest number (task ∷ rest) start = Ensures-from start _ _ λ r next ran.
      Ensures-bind {R = λ rs p. EachHonest (number + 1) rest next rs} _ _
        (run_tasks-Honest (number + 1) rest next)
        λ rs. Ensures-pure _ λ p others.
          ((run_task-Honest number task start).at start next r refl ran, (next, ran, others))

  -- Running a suite that returns gives one result for each task, in their order, under the suite's
  -- and the configuration's names; a task counts as resolved only if, on the patch of the final state
  -- in which the agent's run for it ended, the grader's own test run of the targeted tests passed.
  pub run_suite-Honest :
      (start : Platform W)
      → Ensures
          (λ x. x ≡ start)
          (run_suite services suite config)
          (λ rs p. EachHonest 1 suite.tasks start rs)
  unfolding run_suite
  run_suite-Honest start =
      Ensures-bind {R = λ rs p. EachHonest 1 suite.tasks start rs} _ _
        (run_tasks-Honest 1 suite.tasks start)
        λ rs.
          Ensures-bind {R = λ u p. EachHonest 1 suite.tasks start rs} _ _
            (record { at = λ s s' a each e. each }) λ u. Ensures-pure _ λ p each. each
