-- ===== src/Lib.antt =====
-- Verification library of the autonomous software engineer platform (src/ase), a Python program that
-- takes an issue through a governed workflow: plan, approval, patch, verification, approval, draft
-- pull request.
--
-- How the parts interact. An `AgentRun` (src/ase/contracts.py) is the unit of work. It lives in a run
-- store (src/ase/store.py). Two programs move it: the control plane's `Orchestrator`
-- (src/ase/orchestrator.py), whose operations are guarded by the run's state, and the agent's
-- workflow (src/ase/agent), whose nodes read the run from the store, call their collaborators, and
-- save it again. The agent asks the policy engine (src/ase/policy.py) what is allowed. The agent's `verify`
-- builds its evaluation from a test report (src/ase/testrun.py), the policy, and the test-integrity
-- check (src/ase/verification.py); `reflect` decides by that evaluation. Once a pull request is open, the
-- watcher (src/ase/ci/watcher.py) looks at its checks and labels the stored run.
--
-- Where each part is modelled.
--   Contracts    src/ase/contracts.py: the records (Types, Trace), `AgentRun` and its methods (Run),
--                and paths as `looks_like_test` reads them (Paths); Limits holds a theorem.
--   Policy       src/ase/policy.py: `PolicyEngine`; Mapping is `Policy.from_mapping`; Commands, Paths
--                and Authority hold the theorems.
--   Store        src/ase/store.py: `MemoryRunStore`, and src/ase/persistence.py: `SQLiteRunStore` (Sqlite);
--                Rows, Refines and Answers hold the refinement.
--   Orchestrator src/ase/orchestrator.py; Guards and Reachable hold the theorems.
--   Llm          src/ase/llm/client.py: messages and completions.
--   Testrun      src/ase/testrun.py: reports; Green holds a theorem.
--   Verification src/ase/verification.py.
--   Agent        src/ase/agent/state.py (State), nodes.py (Services, Steps, Planning, Preparing,
--                Implement, Verify, Reflect, Deliver), prompts.py's parse_reflection (Reflect),
--                runner.py (Runner) and graph.py (Graph); Tracking, Evaluation, Judging, Opinions,
--                Verdicts, Promotion, Rounds, SameRun, Loop, Gates, Routes, Submission and Durable hold the theorems;
--                Example is test data.
--   Ci           src/ase/ci: canary.py (Canary), actions.py (Actions), triage.py (Triage) and watcher.py
--                (Watcher); Ladder, Labels and Watched hold the theorems.
--   Queue        src/ase/persistence.py: `TaskQueue`, and src/ase/worker.py: `run_once` (Worker);
--                Claims holds a theorem.
--   Sandbox      src/ase/sandbox.py: both back ends; Launches and Clip hold the theorems.
--   Tools        src/ase/agent/tools.py: the tools on files (Files), listing and search (Search), the
--                command tool and `dispatch` (Dispatch); Confined, Edited and Commands hold the theorems.
--   Knowledge    src/ase/repo_intelligence/chunks.py (Chunks); Windows and Whole hold the theorems.
--   Evals        src/ase/evals: suites.py (Suites), grade.py (Grade), runner.py with the two methods of
--                src/ase/agent/service.py that it calls (Runs), report.py (Report), and
--                src/ase/evaluation.py (Score); Graded, Honest, Counts and Scored hold the theorems.
--   Feedback     src/ase/feedback: reviews.py (Reviews), features.py (Features) and dataset.py
--                (Dataset); Labels, Agreement, Present and Again hold the theorems.
--   Exec         the monad of code that changes a state and may raise, with its rules; what was
--                written before a raise stays written.
--
-- How code corresponds to definitions. A function or method of the source is a definition of the same
-- name, or of the name that its comment gives. A method that mutates its object returns the new value.
-- Exceptions are values of `Error`. Sets of texts are lists; dicts are association lists in insertion
-- order. Money is counted in millionths of a dollar and time in milliseconds, both natural numbers.
--
-- What is a parameter. `Services` holds the agent's collaborators: the model service, git worktrees,
-- the sandbox, pytest, the file system of a worktree, retrieval and the delivery of pull requests.
-- Each is a function of a world `W` that it may change, and may raise. Nothing is assumed of them. The
-- planner and the retrieval of the orchestrator, `int` on a text, the GitHub API, and the regular
-- expressions of triage are parameters too; so are the index and Python's parser for the tools, the
-- process runner of the sandboxes, `git apply` and pytest for the grader, and the JSON that the
-- database holds, of which it is assumed that a model is read as it was written. Links are followed by
-- a parameter, and a worktree is its text files by path; a file that is read has every line end turned
-- into a line feed, as Python's text mode does. Shares that the code rounds to a float are kept as
-- fractions.
--
-- Bounds. Loops are structural: over the rounds of the runner (50, `MAX_LOOPS`), over the turns of an
-- iteration (the budget's `max_tool_calls_per_iteration`), over lists. The two loops of `_windows` take
-- fuel: the number of lines for the windows, and the most lines of a window for its halving; both are
-- proved to be enough.
--
-- What is not modelled: the HTTP API and the command line, process and network I/O, the parsing and
-- embedding of repositories, LangGraph and its checkpoints, the rendering of texts, the scorers
-- and their training (floats), mutation testing, and the harvest of tasks from git. Times of creation are left out except
-- where reviews are ordered by them. The orchestrator's `analyze` awaits its planner between reading and
-- saving the run; the model takes it as one step.
pub mod Prelude
pub mod Exec
pub mod Contracts
pub mod Policy
pub mod Store
pub mod Orchestrator
pub mod Llm
pub mod Testrun
pub mod Verification
pub mod Agent
pub mod Ci
pub mod Queue
pub mod Sandbox
pub mod Tools
pub mod Knowledge
pub mod Evals
pub mod Feedback
