-- ===== src/Tools/Confined.antt =====
-- What a tool may do to the worktree.
use autonomous_software_engi.Prelude.{
  ℕ, String, ◌≡◌, refl, ◌≢◌, Bool, true, false, Option, none, some, List, arith, str_eq, eq_iff,
}
use autonomous_software_engi.Prelude.Dict.{Dict, insert}
use autonomous_software_engi.Contracts.Types.{Value}
use autonomous_software_engi.Exec.{Result, ok, err}
use autonomous_software_engi.Exec.Relates.{
  Relates, Relates-after, Relates-guard, Relates-modify, Relates-if, Keeps-Relates, Relates-else,
  Relates-before, pure-Keeps, lift-Keeps, gets-Keeps, raise-Keeps,
}
use autonomous_software_engi.Policy.{Policy, write_path}
use autonomous_software_engi.Tools.Files.{Bench, Hit, ToolServices, read_file, edit_file}
use autonomous_software_engi.Tools.Search.{list_files, search_code, search_with, searched}
use autonomous_software_engi.Tools.Dispatch.{AgentTools, handle, dispatch, recorded, tick}

-- The files are as they were, or one file was written at a path that the policy lets be written.
pub data Touched (policy : Policy) (task_is_tests : Bool) (old new : Dict String) : Type 0 where
  kept : old ≡ new → Touched policy task_is_tests old new
  wrote :
      (path text : String)
      → (write_path policy path task_is_tests).allowed ≡ true
      → insert path text old ≡ new
      → Touched policy task_is_tests old new

module _ {W : Type 0} (services : ToolServices W) where
  -- The same of the files of a bench.
  abbrev BenchTouched : Bench W → Bench W → Type 0
  BenchTouched b c = Touched services.policy services.task_is_tests b.files c.files

  BenchTouched-refl : (b : Bench W) → BenchTouched b b
  BenchTouched-refl b = kept refl

  edit_file-Touched : (arguments : Dict Value) → Relates BenchTouched (edit_file services arguments)
  unfolding edit_file
  edit_file-Touched arguments = Relates-after BenchTouched-refl _ _ (lift-Keeps _) λ path.
      Relates-guard BenchTouched-refl _ _ _ λ allowed.
        Relates-after BenchTouched-refl _ _ (gets-Keeps _) λ files.
          Relates-after BenchTouched-refl _ _ (lift-Keeps _) λ text.
            Relates-after BenchTouched-refl _ _ (lift-Keeps _) λ ok_text.
              Relates-guard BenchTouched-refl _ _ _
                λ free. Relates-modify _ _ λ b. wrote path text (ground arith) refl

  read_file-Touched : (arguments : Dict Value) → Relates BenchTouched (read_file services arguments)
  unfolding read_file
  read_file-Touched arguments = Relates-after BenchTouched-refl _ _ (lift-Keeps _) λ path.
      Relates-after BenchTouched-refl _ _ (gets-Keeps _) λ files.
        Relates-guard BenchTouched-refl _ _ _ λ there.
          Relates-guard BenchTouched-refl _ _ _ λ small.
            Relates-after BenchTouched-refl _ _ (lift-Keeps _) λ start.
              Relates-after BenchTouched-refl _ _ (lift-Keeps _) λ end.
                Relates-after BenchTouched-refl _ _ (lift-Keeps _)
                  λ text. Keeps-Relates BenchTouched-refl _ (pure-Keeps _)

  list_files-Touched :
      (arguments : Dict Value) → Relates BenchTouched (list_files services arguments)
  unfolding list_files
  list_files-Touched arguments =
      Relates-after BenchTouched-refl _ _ (gets-Keeps _)
        λ files. Keeps-Relates BenchTouched-refl _ (pure-Keeps _)

  searched-Touched :
      (search_index : String → ℕ → W → Result (List Hit) × W) (query : String) (k : ℕ)
      → Relates BenchTouched (searched services search_index query k)
  unfolding searched
  searched-Touched search_index query k = record { at = λ b. kept refl }

  search_with-Touched :
      (index : Option (String → ℕ → W → Result (List Hit) × W)) (query : String) (k : ℕ)
      → Relates BenchTouched (search_with services index query k)
  unfolding search_with
  search_with-Touched none query k = Relates-after BenchTouched-refl _ _ (gets-Keeps _) λ files.
      Relates-after BenchTouched-refl _ _ (lift-Keeps _)
        λ found. Keeps-Relates BenchTouched-refl _ (pure-Keeps _)
  search_with-Touched (some search_index) query k =
      Relates-before _ _ (searched-Touched search_index query k) λ hits. pure-Keeps _

  search_code-Touched :
      (arguments : Dict Value) → Relates BenchTouched (search_code services arguments)
  unfolding search_code
  search_code-Touched arguments = Relates-guard BenchTouched-refl _ _ _ λ asked.
      Relates-after BenchTouched-refl _ _ (lift-Keeps _)
        λ k. search_with-Touched services.search_index _ k

  pub handle-Touched :
      (name : String) (arguments : Dict Value)
      → str_eq name "run_command" ≡ false
      → Relates BenchTouched (handle services name arguments)
  unfolding handle
  handle-Touched name arguments other = Relates-if _ _ _ (read_file-Touched arguments) (
      Relates-if _ _ _ (list_files-Touched arguments) (
        Relates-if _ _ _ (search_code-Touched arguments) (
          Relates-if _ _ _ (edit_file-Touched arguments)
            (Relates-else _ _ _ other (Keeps-Relates BenchTouched-refl _ (raise-Keeps _))))))

  pub recorded-bench :
      (name : String) (arguments : Dict Value) (started : ℕ) (r : Result (String × Option ℕ))
      (tools : AgentTools services)
      → (recorded services name arguments started r tools).1.bench.files ≡ tools.bench.files
  unfolding recorded
  recorded-bench name arguments started (ok (output, code)) tools = refl
  recorded-bench name arguments started (err e) tools = refl

  -- Every call of a tool but run_command leaves the worktree as it was, or writes one file that the
  -- policy lets be written, whether the call is answered with a result or with an error.
  pub dispatch-Touched :
      (name : String) (arguments : Dict Value) (tools : AgentTools services)
      → name ≢ "run_command"
      → Touched services.policy services.task_is_tests tools.bench.files
          (dispatch services name arguments tools).1.bench.files
  unfolding dispatch
  dispatch-Touched name arguments tools other =
      let started = tick services tools.bench in
      let step =
        (handle-Touched name arguments (ground (arith, eq_iff name "run_command", other))).at
          started.1 in
      rw (recorded-bench name arguments started.0 _ _) step
