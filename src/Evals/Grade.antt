-- ===== src/Evals/Grade.antt =====
-- evals/grade.py: `apply_patch` and `Grader.grade`.
use autonomous_software_engi.Prelude.{
  ◌==◌, if◌then◌else◌, length, select, is_empty, ℕ, String, Bool, true, false, not, ◌&&◌, Option,
  none, some, List, [], ◌∷◌, ◌++◌, str_eq,
}
use autonomous_software_engi.Prelude.Text.{◌+s◌, join, mem, decimal, strip, sorted_set}
use autonomous_software_engi.Prelude.Dict.{Dict}
use autonomous_software_engi.Exec.{Exec, Result, ok, err, pure, gets, ◌>>=◌, ◌>>◌}
use autonomous_software_engi.Contracts.Types.{CommandResult}
use autonomous_software_engi.Contracts.Trace.{TestReport, green, regressions}
use autonomous_software_engi.Testrun.{TestStatus, report}
use autonomous_software_engi.Evals.Suites.{EvalTask}

-- The overlap is kept as the number of shared files and the number of expected ones.
pub record GradeResult : Type 0 where
  pub task_id : String
  pub resolved : Bool
  pub applied : Bool
  pub fail_to_pass : Dict Bool
  pub pass_to_pass : Dict Bool
  pub expected_file_overlap : Option (ℕ × ℕ)
  pub notes : List String

-- The file system, the manager of worktrees, `git apply` and pytest in the sandbox of a worktree; a
-- worktree is given by its path.
pub record GradeServices (W : Type 0) : Type 0 where
  pub is_dir : String → W → Bool
  pub create : String → Option String → Exec W String
  pub remove : String → Exec W (Unit {0})
  pub git_apply : String → String → Exec W ℕ
  pub write_file : String → String → String → Exec W (Unit {0})
  pub pytest : String → List String → Exec W (CommandResult × Dict TestStatus)

abbrev pub noted : String → GradeResult → GradeResult
noted note g = record g { notes = g.notes ++ note ∷ [] }

abbrev pub note_if : Bool → String → GradeResult → GradeResult
note_if true note g = noted note g
note_if false note g = g

-- `set(expected) & set(files)`, over the length of the expected list.
unfoldable pub overlap : List String → Option (List String) → Option (ℕ × ℕ)
overlap expected none = none
overlap [] (some files) = none
overlap (e ∷ expected) (some files) =
    some (length (select (λ f. mem f files) (sorted_set (e ∷ expected))), length (e ∷ expected))

unfoldable pub after_last : {W A : Type 0} → Result A → Result (Unit {0}) × W → Result A × W
after_last r (ok u, w) = (r, w)
after_last r (err e, w) = (err e, w)

-- `try: … finally: …`; what the last part raises replaces what came before it.
unfoldable pub finally : {W A : Type 0} → Exec W A → Exec W (Unit {0}) → Exec W A
unfolding after_last
finally m last w = let (r, w') = m w in after_last r (last w')

-- `", ".join(regressions) or "none"`
abbrev or_none : List String → String
or_none [] = "none"
or_none (r ∷ rs) = join ", " (r ∷ rs)

-- The result with what the test report says.
unfoldable pub with_report : TestReport → GradeResult → GradeResult
with_report r g =
    note_if (not (green r))
      (decimal r.failed
        +s " failed, "
        +s decimal r.errors
        +s " errors; regressions: "
        +s or_none (regressions r))
      (record g {
        fail_to_pass = r.fail_to_pass;
        pass_to_pass = r.pass_to_pass;
        resolved = green r;
      })

-- The result before anything was tried.
unfoldable pub ungraded : EvalTask → Option (List String) → GradeResult
unfolding overlap
ungraded task patch_files = record {
  task_id = task.id;
  resolved = false;
  applied = false;
  fail_to_pass = [];
  pass_to_pass = [];
  expected_file_overlap = overlap task.expected_files patch_files;
  notes = [];
}

module _ {W : Type 0} (services : GradeServices W) where
  -- `apply_patch`
  unfoldable pub apply_patch : String → String → Exec W Bool
  apply_patch root diff =
      if str_eq (strip diff) ""
      then pure false
      else services.git_apply root diff >>= λ code. pure (code == 0)

  unfoldable pub write_tests : String → Dict String → Exec W (Unit {0})
  write_tests root [] = pure tt
  write_tests root ((path, content) ∷ rest) =
      services.write_file root path content >> write_tests root rest

  -- The tests of the task, once its patch is applied.
  unfoldable pub run_tests : EvalTask → GradeResult → String → Exec W GradeResult
  unfolding write_tests with_report
  run_tests task g root = do
    write_tests root task.test_patch
    (result, statuses) ← services.pytest root (task.fail_to_pass ++ task.pass_to_pass)
    let r = report ("grade-" +s task.id) 0 task.fail_to_pass task.pass_to_pass result statuses
    pure (
        with_report r (
          note_if (is_empty task.fail_to_pass && is_empty task.pass_to_pass)
            "task has no acceptance tests; running the whole suite" g))

  -- What is done in the worktree.
  unfoldable pub attempt : EvalTask → String → GradeResult → String → Exec W GradeResult
  attempt task diff g root = do
    applied ← apply_patch root diff
    if applied
        then run_tests task (record g { applied = true }) root
        else pure (noted "patch did not apply cleanly to the base commit" g)

  -- The same, with the worktree removed at the end however it ends.
  unfoldable pub attempt_once : EvalTask → String → GradeResult → String → Exec W GradeResult
  unfolding finally
  attempt_once task diff g root = finally (attempt task diff g root) (services.remove root)

  -- `Grader.grade`
  unfoldable pub grade : EvalTask → String → Option (List String) → Exec W GradeResult
  unfolding attempt_once
  grade task diff patch_files = do
    local ← gets (services.is_dir task.repository)
    if local
        then (services.create task.repository task.base_sha >>= λ root.
            attempt_once task diff (ungraded task patch_files) root)
        else pure (
            noted "repository is not a local path; only metadata grading is possible"
              (ungraded task patch_files))
