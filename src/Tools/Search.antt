-- ===== src/Tools/Search.antt =====
-- agent/tools.py: the tools that list files and search them.
use autonomous_software_engi.Prelude.{
  leb, ◌==◌, if◌then◌else◌, length, take, any, is_empty, ℕ, zero, suc, ◌+◌, ◌-◌, ◌*◌, String, Bool,
  not, ◌||◌, Option, none, some, List, [], ◌∷◌, ◌++◌, str_eq,
}
use autonomous_software_engi.Contracts.Types.{Value, truthy}
use autonomous_software_engi.Prelude.Text.{
  ◌+s◌, join, mem, decimal, splitlines, universal_newlines, strip, contains, ends_with,
}
use autonomous_software_engi.Prelude.Dict.{Dict, lookup}
use autonomous_software_engi.Contracts.Paths.{parts, path_name}
use autonomous_software_engi.Exec.{
  Exec, Result, ok, err, ◌⋆◌, tool_error, external, pure, raise_if, lift, gets, ◌>>=◌, ◌>>◌,
}
use autonomous_software_engi.Tools.Files.{
  Bench, Hit, ToolServices, ignored_dirs, is_file, or_text, max_of, text_of, text_arg, int_arg,
}

abbrev pub max_listed : ℕ
max_listed = 200

-- The path with its line and the stripped line, for each line that holds the needle.
grep_lines : (String → String) → String → String → ℕ → List String → List String
grep_lines lower needle path number [] = []
grep_lines lower needle path number (line ∷ rest) =
    let later = grep_lines lower needle path (number + 1) rest in
    if contains (lower line) needle
    then (path +s ":" +s decimal number +s ": " +s strip line) ∷ later
    else later

-- What is shown of a hit.
rendered_hit : Hit → String
rendered_hit h =
    "### "
    +s h.path
    +s ":"
    +s decimal h.start_line
    +s "-"
    +s decimal h.end_line
    +s elim h.symbol [ none ↦ "" | some s ↦ if str_eq s "" then "" else "  [" +s s +s "]" ]
    +s "  ("
    +s join ", " h.reasons
    +s ")\n"
    +s join "\n" (take 25 (splitlines h.text))

rendered_hits : List Hit → List String
unfolding rendered_hit
rendered_hits [] = []
rendered_hits (h ∷ rest) = rendered_hit h ∷ rendered_hits rest

module _ {W : Type 0} (services : ToolServices W) where
  -- `any(part in IGNORED_DIRS for part in path.parts)`; the path starts at the file system's root.
  is_ignored : String → Bool
  is_ignored path =
      any (λ part. mem part ignored_dirs) services.root_parts
      || any (λ part. mem part ignored_dirs) (parts path)

  -- The loop of `_list_files`, with room for so many more matches.
  listed : String → Dict String → ℕ → List String → List String
  unfolding is_file is_ignored
  listed pattern files room [] = []
  listed pattern files zero (path ∷ rest) = []
  listed pattern files (suc room) (path ∷ rest) =
      let without = listed pattern files (suc room) rest in
      let further = listed pattern files room rest in
      if not (is_file path files) || is_ignored path
      then without
      else if services.fnmatch path pattern || services.fnmatch (path_name path) pattern
      then path ∷ (if room == 0 then "... (truncated at 200 files)" ∷ [] else further)
      else without

  -- `str(arguments.get("pattern") or "**/*.py")`
  pattern_of : Dict Value → String
  pattern_of arguments = elim (lookup "pattern" arguments) [
    | none ↦ "**/*.py"
    | some v ↦ if truthy v then text_of services v else "**/*.py"
  ]

  -- `_list_files`
  unfoldable pub list_files : Dict Value → Exec (Bench W) (String × Option ℕ)
  unfolding listed pattern_of
  list_files arguments = do
    files ← gets (λ (b : Bench W). b.files)
    pure (
      or_text (join "\n" (listed (pattern_of arguments) files max_listed (services.walk files)))
          "(no matches)",
      some 0,
    )

  -- The loop of `_grep` over the Python files, up to a number of matches that is not 0.
  grep_files : String → Dict String → ℕ → List String → Result (List String)
  unfolding grep_lines is_ignored
  grep_files needle files room [] = ok []
  grep_files needle files room (path ∷ rest) =
      let without = grep_files needle files room rest in
      let further = λ (n : ℕ). grep_files needle files n rest in
      if not (ends_with path ".py") || is_ignored path then without else elim (lookup path files) [
        | none ↦ err (external "Is a directory")
        | some text ↦
            let found =
              take room
                (grep_lines services.lower needle path 1 (splitlines (universal_newlines text))) in
            if leb room (length found)
            then ok found
            else further (room - length found) ⋆ λ later. ok (found ++ later)
      ]

  -- `_grep`; the limit is looked at only after a match, so that a limit of 0 shows one.
  unfoldable pub grep : String → ℕ → Dict String → Result String
  unfolding grep_files
  grep query k files =
      grep_files (services.lower query) files (max_of 1 (k * 4)) (services.walk files) ⋆ λ found.
      ok (or_text (join "\n" found) "(no results)")

  -- The search of the index, which leaves the files alone.
  unfoldable pub searched :
      (String → ℕ → W → Result (List Hit) × W) → String → ℕ → Exec (Bench W) (List Hit)
  searched search query k b =
      let (hits, world) = search query k b.world in (hits, record b { world = world })

  unfoldable pub search_with :
      Option (String → ℕ → W → Result (List Hit) × W)
      → String
      → ℕ
      → Exec (Bench W) (String × Option ℕ)
  unfolding grep searched rendered_hits
  search_with none query k = do
    files ← gets (λ (b : Bench W). b.files)
    found ← lift (grep query k files)
    pure (found, some 0)
  search_with (some search) query k = do
    hits ← searched search query k
    pure (if is_empty hits then "(no results)" else join "\n\n" (rendered_hits hits), some 0)

  -- `_search_code`
  unfoldable pub search_code : Dict Value → Exec (Bench W) (String × Option ℕ)
  unfolding search_with
  search_code arguments = do
    let query = strip (text_arg services "query" arguments)
    raise_if (str_eq query "") (tool_error "query is required")
    k ← lift (int_arg services "k" 6 arguments)
    search_with services.search_index query k
