-- ===== src/Tools/Dispatch.antt =====
-- agent/tools.py: the tool that runs a command, and `AgentTools.dispatch`.
use autonomous_software_engi.Prelude.{
  if◌then◌else◌, ℕ, ◌-◌, String, Option, none, some, List, [], ◌∷◌, ◌++◌, str_eq,
}
use autonomous_software_engi.Contracts.Types.{Value, str, strs, null, truthy, CommandResult}
use autonomous_software_engi.Prelude.Text.{◌+s◌, strip, words}
use autonomous_software_engi.Prelude.Dict.{Dict, lookup}
use autonomous_software_engi.Contracts.Trace.{ToolCall}
use autonomous_software_engi.Exec.{
  Exec, Result, ok, err, ◌⋆◌, Error, tool_error, command_denied, value_error, external, pure, raise,
  lift, ◌>>=◌,
}
use autonomous_software_engi.Policy.Mapping.{to_int}
use autonomous_software_engi.Tools.Files.{
  Bench, ToolServices, clip_lines, or_text, read_file, edit_file,
}
use autonomous_software_engi.Tools.Search.{list_files, search_code}

abbrev pub max_output_lines : ℕ
max_output_lines = 100

-- The streams of a finished command, as the model sees them.
unfoldable pub shown_result : CommandResult → String
shown_result r =
    let both =
      if str_eq r.stderr ""
      then r.stdout
      else if str_eq r.stdout ""
      then "[stderr]\n" +s r.stderr
      else r.stdout +s "\n[stderr]\n" +s r.stderr in
    if r.timed_out then both +s "\n[timed out]" else both

texts_only : Value → Result (List String)
texts_only (strs items) = ok items
texts_only v = err (tool_error "argv must be a list of strings")

module _ {W : Type 0} (services : ToolServices W) where
  -- The argument list of `_run_command`: a list of texts, or a text that is one in JSON or is split
  -- at its white space.
  unfoldable pub command_argv : Option Value → Result (List String)
  unfolding texts_only
  command_argv none = texts_only null
  command_argv (some (str text)) = elim (services.json text) [
    | none ↦ ok (words text)
    | some v ↦ texts_only v
  ]
  command_argv (some v) = texts_only v

  -- `int(timeout) if timeout else None`
  unfoldable pub timeout_arg : Option Value → Result (Option ℕ)
  unfolding to_int
  timeout_arg none = ok none
  timeout_arg (some v) = if truthy v then (to_int services.parse v ⋆ λ n. ok (some n)) else ok none

  -- `_run_command`
  unfoldable pub run_command : Dict Value → Exec (Bench W) (String × Option ℕ)
  run_command arguments = do
    argv ← lift (command_argv (lookup "argv" arguments))
    timeout ← lift (timeout_arg (lookup "timeout" arguments))
    result ← services.sandbox argv timeout
    pure (
      clip_lines (or_text (strip (shown_result result)) "(no output)") max_output_lines,
      some result.exit_code,
    )

  -- The tool of a name.
  unfoldable pub handle : String → Dict Value → Exec (Bench W) (String × Option ℕ)
  handle name arguments =
      if str_eq name "read_file"
      then read_file services arguments
      else if str_eq name "list_files"
      then list_files services arguments
      else if str_eq name "search_code"
      then search_code services arguments
      else if str_eq name "edit_file"
      then edit_file services arguments
      else if str_eq name "run_command"
      then run_command arguments
      else raise (tool_error ("unknown tool: " +s name))

  -- `except (ToolError, CommandDenied, ValueError, OSError)`: the message of an error that is
  -- answered. An error of the file system or of starting a program is an `external` one.
  unfoldable pub answered : Error → Option String
  answered (tool_error m) = some m
  answered (command_denied m) = some m
  answered (value_error m) = some m
  answered (external m) = some m
  answered e = none

  -- What the model is told.
  unfoldable pub answer : Result (String × Option ℕ) → Result (String × Option ℕ)
  unfolding answered
  answer (ok out) = ok out
  answer (err e) = elim (answered e) [ none ↦ err e | some m ↦ ok ("error: " +s m, some 1) ]

  -- `AgentTools`: the bench, and its `calls`.
  pub record AgentTools : Type 0 where
    pub bench : Bench W
    pub calls : List ToolCall

  -- A reading of the clock.
  abbrev pub tick : Bench W → ℕ × Bench W
  tick b = let (now, world) = services.clock b.world in (now, record b { world = world })

  -- The call as it is recorded, once the tool has answered.
  unfoldable pub recorded :
      String
      → Dict Value
      → ℕ
      → Result (String × Option ℕ)
      → AgentTools
      → Result ToolCall × AgentTools
  recorded name arguments started (err e) tools = (err e, tools)
  recorded name arguments started (ok (output, exit_code)) tools =
      let (ended, bench) = tick tools.bench in
      let call : ToolCall = record {
        name = name;
        arguments = arguments;
        output = output;
        exit_code = exit_code;
        duration_ms = ended - started;
      } in
      (ok call, record { bench = bench; calls = tools.calls ++ (call ∷ []) })

  -- `AgentTools.dispatch`
  unfoldable pub dispatch : String → Dict Value → Exec AgentTools ToolCall
  unfolding handle answer recorded
  dispatch name arguments tools =
      let (started, bench) = tick tools.bench in
      let (result, bench') = handle name arguments bench in
      recorded name arguments started (answer result)
        (record { bench = bench'; calls = tools.calls })
