-- ===== src/Agent/Implement.antt =====
-- agent/nodes.py: the node `implement`, the loop of model turns and tool calls.
use autonomous_software_engi.Prelude.{
  ◌==◌, if◌then◌else◌, or_else, is_empty, ℕ, zero, suc, ◌+◌, String, Bool, false, not, Option, none,
  some, List, [], ◌∷◌, ◌++◌, str_eq,
}
use autonomous_software_engi.Prelude.Text.{◌+s◌, decimal, take_chars}
use autonomous_software_engi.Prelude.Dict.{Dict, lookup}
use autonomous_software_engi.Exec.{Exec, pure, lift, ◌>>=◌, ◌>>◌}
use autonomous_software_engi.Contracts.Types.{
  ChangePlan, pending, verify_patch, Value, num, str, strs, truthy, structured, command_only,
  ToolMode,
}
use autonomous_software_engi.Contracts.Trace.{ToolCall, from_diff}
use autonomous_software_engi.Contracts.Run.{AgentRun, budget_exceeded, Exhausted}
use autonomous_software_engi.Llm.{
  Message, Completion, ToolUse, ToolResult, user_message, assistant_message, tool_results_message,
  completion_text, tool_uses,
}
use autonomous_software_engi.Store.{save, add_patch_row}
use autonomous_software_engi.Agent.State.{AgentState, Update}
use autonomous_software_engi.Agent.Services.{Services, Platform, call, write_store}
use autonomous_software_engi.Agent.Steps.{run_of, save_run, record_step, elapsed, workspace_of}
use autonomous_software_engi.Agent.Planning.{load_index}

-- `_fallback_plan`
abbrev pub fallback_plan : ChangePlan
fallback_plan = record {
  summary = "Resolve the issue with the smallest correct change";
  steps = record { description = "Implement the fix"; files = []; risk = "medium" } ∷ [];
  assumptions = [];
  approval = pending;
}

abbrev pub tool_list : ToolMode → String
tool_list command_only = "COMMAND_ONLY_TOOLS"
tool_list structured = "STRUCTURED_TOOLS"

-- `bool(exit_code)`
abbrev pub failed_code : Option ℕ → Bool
failed_code none = false
failed_code (some n) = not (n == 0)

abbrev pub result_of : ToolUse → ToolCall → ToolResult
result_of use' tool_call = record {
  tool_use_id = use'.id;
  content = if str_eq tool_call.output "" then "(no output)" else tool_call.output;
  is_error = failed_code tool_call.exit_code;
}

-- The blocks for the uses and their calls, pairwise; there are as many of the one as of the other.
unfoldable pub results_of : List ToolUse → List ToolCall → List ToolResult
results_of (u ∷ us) (c ∷ cs) = result_of u c ∷ results_of us cs
results_of _ _ = []

-- `task.metadata.get("task_is_tests", False)`
unfoldable pub task_is_tests : Dict Value → Bool
task_is_tests metadata = elim (lookup "task_is_tests" metadata) [ none ↦ false | some v ↦ truthy v ]

module _ {W I : Type 0} (services : Services W I) where
  unfoldable pub dispatch_all :
      String → Option I → Bool → List ToolUse → Exec (Platform W) (List ToolCall)
  dispatch_all workspace index tests [] = pure []
  dispatch_all workspace index tests (u ∷ us) = do
    first ← call (services.dispatch workspace index tests u)
    others ← dispatch_all workspace index tests us
    pure (first ∷ others)

  -- One turn: the model answers, its tool calls run, the step is recorded and the run saved.
  unfoldable pub turn :
      AgentState
      → String
      → Option I
      → AgentRun
      → List Message
      → Exec (Platform W) (AgentRun × Completion × List ToolCall)
  unfolding dispatch_all
  turn state workspace index run messages = do
    let model = state.config.coder_model
    completion ← call (
        services.complete (record {
          model = model;
          system = services.texts.coder_system;
          messages = messages;
          tools = tool_list state.config.tool_mode;
          max_tokens = 4096;
        }))
    calls ← dispatch_all workspace index (task_is_tests state.task.metadata) (tool_uses completion)
    stepped ← record_step services run "implement" model completion calls
    write_store (save stepped)
    pure (stepped, completion, calls)

  unfoldable pub exhausted_note : ℕ → Exhausted → String
  exhausted_note iteration note =
      "iteration " +s decimal iteration +s " stopped early: " +s services.texts.exhausted_text note

  -- The `for` loop over the turns that an iteration may take; it returns the run, the notes and the
  -- summary.
  unfoldable pub turns :
      ℕ
      → AgentState
      → String
      → Option I
      → ℕ
      → AgentRun
      → List Message
      → List String
      → Exec (Platform W) (AgentRun × List String × String)
  unfolding turn results_of exhausted_note
  turns zero state workspace index iteration run messages notes = pure (run, notes, "")
  turns (suc n) state workspace index iteration run messages notes = do
    done ← turn state workspace index run messages
    let stepped = done.0
    let completion = done.1
    spent ← elapsed services state
    let used = tool_uses completion
    let next =
        turns n state workspace index iteration stepped
          (messages
            ++ (assistant_message completion.content
                ∷ tool_results_message (results_of used done.2)
                ∷ []))
          notes
    if is_empty used
        then pure (stepped, notes, completion_text completion)
        else elim (budget_exceeded stepped spent) [
          | some note ↦ pure (stepped, notes ++ exhausted_note iteration note ∷ [], "")
          | none ↦ next
        ]

  unfoldable pub implement : AgentState → Exec (Platform W) (List Update)
  implement state = do
    run ← run_of services state
    workspace ← lift (workspace_of state)
    let iteration = state.iteration + 1
    index ← load_index services state
    let request =
        services.texts.coder_request state.task (or_else state.plan fallback_plan) state.context
          state.repo_map state.report iteration state.focus
    done ←
        turns state.config.budget.max_tool_calls_per_iteration state workspace index iteration
          (record run { iteration = iteration }) (user_message request ∷ []) state.notes
    let last = done.0
    diff ← call (services.diff workspace)
    let patch = from_diff services.digest last.id last.steps diff
    write_store (add_patch_row patch)
    save_run services (some verify_patch)
        (some (
          "patch_produced",
          ("iteration", num iteration)
              ∷ ("files", strs patch.files)
              ∷ ("summary", str (take_chars 500 done.2))
              ∷ [],
        ))
        (record last { patch = some patch })
    pure (
        Update.iteration iteration
        ∷ Update.patch patch
        ∷ Update.patch_hashes (state.patch_hashes ++ patch.sha256 ∷ [])
        ∷ Update.notes done.1
        ∷ [])
