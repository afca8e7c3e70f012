-- ===== src/Agent/Preparing.antt =====
-- agent/nodes.py: the node `create_workspace` and `_install_reproduction`.
use autonomous_software_engi.Prelude.{
  ◌==◌, if◌then◌else◌, is_empty, String, not, ◌||◌, Option, none, some, List, [], ◌∷◌, ◌++◌,
}
use Prim.Native.Char.{code}
use autonomous_software_engi.Prelude.Text.{◌+s◌, join, strip, ends_with, sorted_set}
use autonomous_software_engi.Prelude.Dict.{Dict}
use autonomous_software_engi.Exec.{Exec, pure, ◌>>=◌, ◌>>◌}
use autonomous_software_engi.Contracts.Paths.{looks_like_test}
use autonomous_software_engi.Contracts.Types.{Task, implement_patch, str, strs, CommandResult}
use autonomous_software_engi.Testrun.{TestStatus, is_failed, is_error}
use autonomous_software_engi.Agent.State.{AgentState, Update, Reproduction}
use autonomous_software_engi.Agent.Services.{Services, Platform, call}
use autonomous_software_engi.Agent.Steps.{run_of, save_run}

-- `s.lstrip("/")`
unfoldable pub drop_slashes : String → String
drop_slashes String.[] = ""
drop_slashes (String.◌∷◌ c s) =
    let rest = drop_slashes s in if code c == b'/' then rest else String.◌∷◌ c s

-- The names of the failing tests.
unfoldable pub failing : Dict TestStatus → List String
failing [] = []
failing ((name, status) ∷ rest) =
    let names = failing rest in if is_failed status || is_error status then name ∷ names else names

-- What `_install_reproduction` returns: the task, a note, and the digests of installed tests.
pub record Installed : Type 0 where
  pub task : Task
  pub note : String
  pub tests : Dict String

abbrev pub unchanged : Task → String → Installed
unchanged task note = record { task = task; note = note; tests = [] }

module _ {W I : Type 0} (services : Services W I) where
  -- The reproduction is kept only if it fails on the base commit.
  unfoldable pub keep_if_failing :
      String
      → Task
      → String
      → String
      → CommandResult × Dict TestStatus
      → Exec (Platform W) Installed
  keep_if_failing workspace task relative code' (result, statuses) =
      let names = sorted_set (failing statuses) in
      if is_empty names
      then (do
        call (services.unlink workspace relative)
        pure (unchanged task "reproduction test passed on the base commit and was dropped"))
      else pure (record {
        task = record task { fail_to_pass = task.fail_to_pass ++ names };
        note = "reproduction test installed: " +s join ", " names;
        tests = (relative, services.digest code') ∷ [];
      })

  unfoldable pub write_and_run : String → Task → String → String → Exec (Platform W) Installed
  unfolding keep_if_failing
  write_and_run workspace task relative code' = do
    there ← call (services.exists workspace relative)
    if there
        then pure (unchanged task ("reproduction test path already exists: " +s relative))
        else (do
          call (services.write_file workspace relative code')
          outcome ← call (services.pytest workspace (relative ∷ []))
          keep_if_failing workspace task relative code' outcome)

  unfoldable pub install_reproduction : String → Task → Reproduction → Exec (Platform W) Installed
  unfolding write_and_run drop_slashes failing
  install_reproduction workspace task reproduction =
      let relative = drop_slashes (strip reproduction.path) in
      if not (looks_like_test relative) || not (ends_with relative ".py")
      then pure (unchanged task ("reproduction test path rejected: " +s relative))
      else if services.syntax_error reproduction.code
      then pure (unchanged task "reproduction test rejected: it does not parse")
      else write_and_run workspace task relative reproduction.code

  -- The task, the notes and the digests after the planner's reproduction, if there is one.
  unfoldable pub prepare :
      String
      → AgentState
      → Option Reproduction
      → Exec (Platform W) (Task × List String × Dict String)
  prepare workspace state none = pure (state.task, state.notes, [])
  prepare workspace state (some reproduction) = do
    installed ← install_reproduction workspace state.task reproduction
    pure (installed.task, state.notes ++ installed.note ∷ [], installed.tests)

  unfoldable pub create_workspace : AgentState → Exec (Platform W) (List Update)
  unfolding prepare
  create_workspace state = do
    run ← run_of services state
    path ← call (services.create_workspace state.repository state.base_sha)
    prepared ← prepare path state state.reproduction
    let task = prepared.0
    let notes =
        if is_empty task.fail_to_pass
        then prepared.1 ++ "no failing test is known; the whole suite is the acceptance check" ∷ []
        else prepared.1
    save_run services (some implement_patch)
        (some
          ("workspace_created", ("path", str path) ∷ ("fail_to_pass", strs task.fail_to_pass) ∷ []))
        (record run { workspace = some path; task = some task })
    pure (
        Update.workspace path
        ∷ Update.task task
        ∷ Update.notes notes
        ∷ Update.installed_tests prepared.2
        ∷ [])
