-- ===== src/Tools/Tests.antt =====
-- The tools at a small worktree.
use autonomous_software_engi.Prelude.{
  if◌then◌else◌, ℕ, ◌+◌, String, ◌≡◌, refl, ap, false, none, some, [], ◌∷◌, str_eq,
}
use autonomous_software_engi.Prelude.Dict.{Dict, keys}
use autonomous_software_engi.Prelude.Replace.{text_length}
use autonomous_software_engi.Prelude.Text.{mem}
use mathlib.Core.Bool.{false≢true}
use autonomous_software_engi.Contracts.Paths.{parts}
use autonomous_software_engi.Contracts.Types.{Value, str, strs}
use autonomous_software_engi.Exec.{ok, Ensures, command_denied, raise}
use autonomous_software_engi.Policy.{default_policy}
use autonomous_software_engi.Tools.Files.{Bench, ToolServices, text_arg, edit_file}
use autonomous_software_engi.Tools.Dispatch.{AgentTools, dispatch}
use autonomous_software_engi.Tools.Confined.{Touched, dispatch-Touched}
use autonomous_software_engi.Sandbox.{Host, completed, local_run}
use autonomous_software_engi.Tools.Commands.{Acted, dispatch-Acted}
use autonomous_software_engi.Tools.Edited.{Edit, edit_file-Edit}

-- A worktree without links, a sandbox that runs nothing, and no index.
abbrev services : ToolServices ℕ
services = record {
  policy = default_policy;
  task_is_tests = false;
  resolve = λ raw. if mem ".." (parts raw) then none else some raw;
  walk = λ files. keys files;
  root_parts = "/" ∷ "work" ∷ [];
  fnmatch = λ path pattern. str_eq path pattern;
  lower = λ s. s;
  show = λ v. "";
  parse = λ s. none;
  size = λ s. text_length s;
  syntax_error = λ s. none;
  json = λ s. none;
  search_index = none;
  sandbox = λ argv timeout. raise (command_denied "nothing runs");
  clock = λ now. (now, now + 1);
}

abbrev worktree : Dict String
worktree = ("src/a.py", "x = 1\ny = 2") ∷ []

abbrev tools : AgentTools services
tools = record { bench = record { files = worktree; world = 0 }; calls = [] }

abbrev arguments : Dict Value
arguments = ("path", str "src/a.py") ∷ ("search", str "y = 2") ∷ ("replace", str "y = 3") ∷ []

dispatch-Touched_example :
    Touched default_policy false worktree
      (dispatch services "edit_file" arguments tools).1.bench.files
dispatch-Touched_example =
    dispatch-Touched services "edit_file" arguments tools
      (λ e. false≢true (ap (λ s. str_eq s "run_command") e))

edit_file-Edit_example :
    Ensures
      (λ (b : Bench ℕ). worktree ≡ b.files)
      (edit_file services arguments)
      (λ out b.
        Edit services
          (text_arg services "search" arguments)
          (text_arg services "replace" arguments)
          worktree
          b.files)
edit_file-Edit_example = edit_file-Edit services arguments worktree

-- The same tools with a local sandbox on the worktree, whose programs do nothing.
abbrev host : Host (Bench ℕ)
host = record {
  root = "work" ∷ [];
  policy = default_policy;
  runner = λ what b. (ok (completed 0 "" ""), b);
  resolve = λ path. path;
  decode = λ b. "";
  environ = [];
  clock = λ b. (0, b);
}

abbrev sandboxed : ToolServices ℕ
sandboxed = record services { sandbox = λ argv timeout. local_run host argv none timeout }

abbrev sandboxed_tools : AgentTools sandboxed
sandboxed_tools = record { bench = record { files = worktree; world = 0 }; calls = [] }

dispatch-Acted_example :
    Acted sandboxed host
      (record { files = worktree; world = 1 })
      (dispatch sandboxed "run_command"
        (("argv", strs ("pytest" ∷ [])) ∷ [])
        sandboxed_tools).1.bench.files
dispatch-Acted_example =
    dispatch-Acted sandboxed host (λ argv timeout b. refl) "run_command"
      (("argv", strs ("pytest" ∷ [])) ∷ []) sandboxed_tools
