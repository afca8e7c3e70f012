-- ===== src/Agent/Steps.antt =====
-- agent/nodes.py: the helpers `_run`, `_save`, `_record_step`, `_elapsed` and `_workspace`.
use autonomous_software_engi.Prelude.{
  ◌==◌, if◌then◌else◌, ℕ, ◌+◌, ◌-◌, String, Option, none, some, List, str_eq,
}
use autonomous_software_engi.Prelude.Text.{take_chars}
use autonomous_software_engi.Prelude.Dict.{Dict}
use autonomous_software_engi.Exec.{
  Exec, Result, ok, err, key_error, runtime_error, pure, lift, ◌>>=◌, ◌>>◌,
}
use autonomous_software_engi.Contracts.Types.{RunState, Value}
use autonomous_software_engi.Contracts.Trace.{ToolCall, Step}
use autonomous_software_engi.Contracts.Run.{AgentRun, record_event, add_step}
use autonomous_software_engi.Llm.{Completion, completion_text}
use autonomous_software_engi.Store.{save, get, add_step_row}
use autonomous_software_engi.Agent.State.{AgentState}
use autonomous_software_engi.Agent.Services.{Services, Platform, ask, read_store, write_store}

-- An event, by its kind and payload.
abbrev pub Event : Type 0
Event = String × Dict Value

unfoldable pub moved : Option RunState → AgentRun → AgentRun
moved none run = run
moved (some state) run = record run { state = state }

unfoldable pub noted : Option Event → AgentRun → AgentRun
noted none run = run
noted (some (kind, payload)) run = record_event kind payload run

unfoldable pub found : String → Option AgentRun → Result AgentRun
found run_id none = err (key_error run_id)
found run_id (some run) = ok run

unfoldable pub workspace_of : AgentState → Result String
workspace_of state = elim state.workspace [
  | none ↦ err (runtime_error "workspace has not been created")
  | some path ↦
      if str_eq path "" then err (runtime_error "workspace has not been created") else ok path
]

module _ {W I : Type 0} (services : Services W I) where
  -- `_run`
  unfoldable pub run_of : AgentState → Exec (Platform W) AgentRun
  run_of state = do stored ← read_store (get state.run_id); lift (found state.run_id stored)

  -- `_save`; the source mutates `run`, so the saved run is returned.
  unfoldable pub save_run : Option RunState → Option Event → AgentRun → Exec (Platform W) AgentRun
  save_run state event run = do
    let saved = noted event (moved state run)
    write_store (save saved)
    pure saved

  unfoldable pub step_of : AgentRun → String → String → Completion → List ToolCall → Step
  step_of run node model completion calls =
      let usage = completion.usage in
      record {
        run_id = run.id;
        index = run.steps + 1;
        node = node;
        model = some model;
        prompt_tokens = usage.input_tokens + usage.cache_read_tokens;
        output_tokens = usage.output_tokens;
        cached_tokens = usage.cache_read_tokens;
        cost_usd = services.estimate_cost model usage;
        tool_calls = calls;
        thought = take_chars 4000 (completion_text completion);
      }

  -- `_record_step`: the row is written, then the run in hand counts it; saving is the caller's.
  unfoldable pub record_step :
      AgentRun → String → String → Completion → List ToolCall → Exec (Platform W) AgentRun
  unfolding step_of
  record_step run node model completion calls = do
    let step = step_of run node model completion calls
    write_store (add_step_row step)
    pure (add_step step run)

  -- `started_at or clock()`; a clock that runs backwards counts as no time.
  unfoldable pub elapsed : AgentState → Exec (Platform W) ℕ
  elapsed state = do
    now ← ask services.clock
    if state.started_at == 0
        then (do start ← ask services.clock; pure (now - start))
        else pure (now - state.started_at)
