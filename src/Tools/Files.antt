-- ===== src/Tools/Files.antt =====
-- agent/tools.py: the state that the tools work on, their collaborators, and the tools that read or
-- edit files.
use autonomous_software_engi.Prelude.{
  ltb, leb, ◌==◌, if◌then◌else◌, or_else, is_some, length, take, drop, any, ℕ, zero, suc, ◌+◌, ◌-◌,
  String, Bool, not, ◌&&◌, ◌||◌, Option, none, some, List, [], ◌∷◌, str_eq,
}
use autonomous_software_engi.Prelude.Text.{
  ◌+s◌, join, decimal, splitlines, universal_newlines, starts_with, ends_with,
}
use autonomous_software_engi.Prelude.Dict.{Dict, lookup, insert, keys}
use autonomous_software_engi.Prelude.Replace.{count_text, replace_first, text_length}
use autonomous_software_engi.Exec.{
  Exec, Result, ok, err, tool_error, external, pure, raise_if, lift, gets, modify, ◌>>=◌, ◌>>◌,
}
use autonomous_software_engi.Contracts.Types.{Value, str, truthy, CommandResult}
use autonomous_software_engi.Contracts.Paths.{path_name}
use autonomous_software_engi.Policy.{Policy, write_path}
use autonomous_software_engi.Policy.Mapping.{to_int}

abbrev pub ignored_dirs : List String
ignored_dirs = ".git" ∷ ".venv" ∷ "node_modules" ∷ "__pycache__" ∷ ".ase-run" ∷ ".mypy_cache" ∷ []

abbrev pub max_file_bytes : ℕ
max_file_bytes = 200_000

-- The worktree, and the world outside it.
pub record Bench (W : Type 0) : Type 0 where
  pub files : Dict String
  pub world : W

-- `SearchHit` of the index, with the fields of its chunk that are shown.
pub record Hit : Type 0 where
  pub path : String
  pub start_line : ℕ
  pub end_line : ℕ
  pub symbol : Option String
  pub text : String
  pub reasons : List String

-- `resolve` is the path of `root / raw` from the root after all links are followed, if it does not
-- leave the root; `walk` is the sorted listing of a worktree, its directories included, and
-- `root_parts` the parts of the root's own path. `show` is `str` of a value that is no text, `parse`
-- is `int` of a text, `json` the value of a JSON text, `size` the bytes of a text, and
-- `clock` the time in milliseconds.
pub record ToolServices (W : Type 0) : Type 0 where
  pub policy : Policy
  pub task_is_tests : Bool
  pub resolve : String → Option String
  pub walk : Dict String → List String
  pub root_parts : List String
  pub fnmatch : String → String → Bool
  pub lower : String → String
  pub show : Value → String
  pub parse : String → Option ℕ
  pub size : String → ℕ
  pub syntax_error : String → Option String
  pub json : String → Option Value
  pub search_index : Option (String → ℕ → W → Result (List Hit) × W)
  pub sandbox : List String → Option ℕ → Exec (Bench W) CommandResult
  pub clock : W → ℕ × W

unfoldable pub is_file : String → Dict String → Bool
is_file path files = is_some (lookup path files)

-- `path.exists()`: a file, the root, or a directory of some file.
unfoldable pub exists_at : String → Dict String → Bool
unfolding is_file
exists_at path files =
    is_file path files
    || str_eq path "."
    || any (λ name. starts_with name (path +s "/")) (keys files)

-- Some directory above the path is a file, so that it cannot be made.
unfoldable pub is_blocked : String → Dict String → Bool
is_blocked path files = any (λ name. starts_with path (name +s "/")) (keys files)

-- `clip_lines`
unfoldable pub clip_lines : String → ℕ → String
clip_lines text limit =
    let lines = splitlines text in
    if leb (length lines) limit
    then text
    else join "\n" (
        ("... ["
          +s decimal (length lines - limit)
          +s " earlier lines omitted; full output is in the trace]")
        ∷ drop (length lines - limit) lines)

abbrev pub or_text : String → String → String
or_text s d = if str_eq s "" then d else s

-- `n:>width`
padding : ℕ → String
padding zero = ""
padding (suc n) = " " +s padding n

-- The lines `number` to `number + count - 1`, each with its number.
numbered : ℕ → ℕ → List String → List String
unfolding padding
numbered width number [] = []
numbered width number (line ∷ rest) =
    (padding (width - text_length (decimal number)) +s decimal number +s " | " +s line)
    ∷ numbered width (number + 1) rest

abbrev pub max_of : ℕ → ℕ → ℕ
max_of a b = if ltb a b then b else a

abbrev pub min_of : ℕ → ℕ → ℕ
min_of a b = if ltb b a then b else a

-- `lines[start - 1 : end]`
unfoldable pub line_range : ℕ → ℕ → List String → List String
line_range start end lines = drop (start - 1) (take end lines)

unfoldable pub read_lines : ℕ → ℕ → List String → Result String
unfolding numbered
read_lines from upto lines =
    let start = max_of 1 from in
    let end = min_of (length lines) upto in
    if ltb end start
    then err (tool_error "start_line is after end_line")
    else ok (
        or_text
          (join "\n" (numbered (text_length (decimal end)) start (line_range start end lines)))
          "(empty file)")

module _ {W : Type 0} (services : ToolServices W) where
  -- `str(value)`
  abbrev pub text_of : Value → String
  text_of (str s) = s
  text_of v = services.show v

  -- `str(arguments.get(key, ""))`
  unfoldable pub text_arg : String → Dict Value → String
  text_arg key arguments = elim (lookup key arguments) [ none ↦ "" | some v ↦ text_of v ]

  -- `int(arguments.get(key) or default)`
  unfoldable pub int_arg : String → ℕ → Dict Value → Result ℕ
  unfolding to_int
  int_arg key default arguments = elim (lookup key arguments) [
    | none ↦ ok default
    | some v ↦ if truthy v then to_int services.parse v else ok default
  ]

  -- `_resolve`, followed by `_relative`
  unfoldable pub resolve : String → Result String
  resolve raw =
      if str_eq raw "" || starts_with raw "/" || starts_with raw "~"
      then err (tool_error "paths must be relative to the repository root")
      else elim (services.resolve raw) [
        | none ↦ err (tool_error ("path escapes the repository: " +s raw))
        | some relative ↦ ok relative
      ]

  -- `_read_file`
  unfoldable pub read_file : Dict Value → Exec (Bench W) (String × Option ℕ)
  unfolding is_file
  read_file arguments = do
    path ← lift (resolve (text_arg "path" arguments))
    files ← gets (λ (b : Bench W). b.files)
    raise_if (not (is_file path files)) (tool_error ("no such file: " +s path))
    let text = or_else (lookup path files) ""
    raise_if (ltb max_file_bytes (services.size text))
        (tool_error "file is too large to read whole; pass a line range")
    let lines = splitlines (universal_newlines text)
    start ← lift (int_arg "start_line" 1 arguments)
    end ← lift (int_arg "end_line" (length lines) arguments)
    rendered ← lift (read_lines start end lines)
    pure (rendered, some 0)

  -- The text that an edit leaves: a new file, or one with its only occurrence replaced.
  unfoldable pub edited : String → String → String → Dict String → Result String
  unfolding exists_at is_file
  edited path search replace files =
      if str_eq search ""
      then (if exists_at path files
          then err (tool_error "file exists; provide a non-empty `search` to edit it")
          else ok replace)
      else if not (is_file path files)
      then err (tool_error ("no such file: " +s path))
      else let original = universal_newlines (or_else (lookup path files) "") in
        let n = count_text original search in
        if n == 0
        then err (
            tool_error
              "search text not found; re-read the file and copy the exact lines, including indentation")
        else if ltb 1 n
        then err
            (tool_error ("search text matches " +s decimal n +s " times; include more context"))
        else ok (replace_first search replace original)

  -- An edited Python file has to parse; the suffix of the name `.py` is empty.
  unfoldable pub parses : String → String → Result (Unit {0})
  parses path text =
      if ends_with (path_name path) ".py" && not (str_eq (path_name path) ".py")
      then elim (services.syntax_error text) [
        | none ↦ ok tt
        | some problem ↦ err (tool_error ("edit rejected, file would not parse: " +s problem))
      ]
      else ok tt

  -- `_edit_file`
  unfoldable pub edit_file : Dict Value → Exec (Bench W) (String × Option ℕ)
  edit_file arguments = do
    path ← lift (resolve (text_arg "path" arguments))
    let decision = write_path services.policy path services.task_is_tests
    raise_if (not decision.allowed) (tool_error (join "; " decision.reasons))
    files ← gets (λ (b : Bench W). b.files)
    updated ← lift (edited path (text_arg "search" arguments) (text_arg "replace" arguments) files)
    lift (parses path updated)
    raise_if (is_blocked path files) (external "File exists")
    modify (λ (b : Bench W). record b { files = insert path updated b.files })
    pure ("edited " +s path, some 0)
