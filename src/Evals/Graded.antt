-- ===== src/Evals/Graded.antt =====
-- What a result that reads as resolved comes from.
use autonomous_software_engi.Prelude.{
  is_empty, String, ◌≡◌, refl, sym, ap, ◌∙◌, Bool, true, false, ◌&&◌, Option, List, ◌++◌, arith,
  str_eq,
}
use mathlib.Core.Bool.{false≢true}
use autonomous_software_engi.Prelude.Text.{strip}
use autonomous_software_engi.Prelude.Dict.{Dict}
use autonomous_software_engi.Exec.{
  Exec, Result, ok, err, Ensures, Ensures-pure, Ensures-if, Ensures-if_eq, Ensures-weaken,
}
use autonomous_software_engi.Exec.Rules.{Ensures-from, Ensures-gets}
use autonomous_software_engi.Contracts.Types.{CommandResult}
use autonomous_software_engi.Testrun.{TestStatus, report}
use autonomous_software_engi.Testrun.Green.{RunPassed, report-RunPassed}
use autonomous_software_engi.Evals.Suites.{EvalTask}
use autonomous_software_engi.Evals.Grade.{
  GradeResult, GradeServices, grade, attempt, attempt_once, ungraded, run_tests, finally,
  apply_patch, write_tests, after_last, note_if, with_report,
}

-- The test run that a grade from the world `before` rests on: in a worktree made at the base commit,
-- after `git apply` of the patch, which is not blank, has ended with 0 and the tests of the task were
-- written, pytest on the targeted tests returned a result and statuses that pass.
pub record PassingRun {W : Type 0} (services : GradeServices W) (task : EvalTask) (diff : String)
    (before : W) : Type 0 where
  pub root : String
  pub created : W
  pub patched : W
  pub written : W
  pub ended : W
  pub result : CommandResult
  pub statuses : Dict TestStatus
  pub made : services.create task.repository task.base_sha before ≡ (ok root, created)
  pub not_blank : str_eq (strip diff) "" ≡ false
  pub patch : services.git_apply root diff created ≡ (ok 0, patched)
  pub tests : write_tests services root task.test_patch patched ≡ (ok tt, written)
  pub ran :
      services.pytest root (task.fail_to_pass ++ task.pass_to_pass) written
      ≡ (ok (result, statuses), ended)
  pub passed : RunPassed task.fail_to_pass task.pass_to_pass result statuses

-- A grade of the task from the world `before`; resolved, only if the patch is marked as applied and
-- the test run passed that was made.
pub record Graded {W : Type 0} (services : GradeServices W) (task : EvalTask) (diff : String)
    (before : W) (g : GradeResult) : Type 0 where
  pub of_task : g.task_id ≡ task.id
  pub resolved : g.resolved ≡ true → (g.applied ≡ true) × PassingRun services task diff before

module _ {W A : Type 0} where
  after_last-ok :
      (r : Result A) (o : Result (Unit {0}) × W) (a : A) (w : W)
      → after_last r o ≡ (ok a, w)
      → r ≡ ok a
  unfolding after_last
  after_last-ok r (ok u, w') a w e = ap (λ (x : Result A × W). x.0) e
  after_last-ok r (err x, w') a w e = cc (ap (λ (x : Result A × W). x.0) e)

module _ {W A : Type 0} {P : W → Type 0} {Q : A → Type 0} where
  -- A result that comes out of `finally` came out of its first part.
  finally-Ensures :
      (m : Exec W A) (last : Exec W (Unit {0}))
      → Ensures P m (λ a w. Q a)
      → Ensures P (finally m last) (λ a w. Q a)
  unfolding finally
  finally-Ensures m last h = record {
    at = λ s s' a p e.
        h.at s (m s).1 a p (λ i. (after_last-ok (m s).0 (last (m s).1) a s' e i, (m s).1));
  }

-- A grade of the task whose patch was applied, and the same with a note.
abbrev Applied : EvalTask → GradeResult → Type 0
Applied task g = (g.task_id ≡ task.id) × (g.applied ≡ true)

note_if-Applied :
    (task : EvalTask) (b : Bool) (note : String) (g : GradeResult)
    → Applied task g
    → Applied task (note_if b note g)
note_if-Applied task true note g h = h
note_if-Applied task false note g h = h

-- A grade before any test was run.
abbrev Unresolved : EvalTask → GradeResult → Type 0
Unresolved task g = (g.task_id ≡ task.id) × (g.resolved ≡ false)

module _ {W : Type 0} (services : GradeServices W) (task : EvalTask) (diff : String) where
  -- A note changes neither the task nor the verdict.
  note_if-Graded :
      (before : W) (b : Bool) (note : String) (g : GradeResult)
      → Graded services task diff before g
      → Graded services task diff before (note_if b note g)
  note_if-Graded before true note g h = record { of_task = h.of_task; resolved = h.resolved }
  note_if-Graded before false note g h = h

  Unresolved-Graded :
      (before : W) (g : GradeResult) → Unresolved task g → Graded services task diff before g
  Unresolved-Graded before g u = record {
    of_task = u.0;
    resolved = λ e. absurd (false≢true (sym u.1 ∙ e));
  }

  with_report-Graded :
      (before : W) (g : GradeResult) (id : String) (result : CommandResult)
      (statuses : Dict TestStatus)
      → Applied task g
      → (RunPassed task.fail_to_pass task.pass_to_pass result statuses
          → PassingRun services task diff before)
      → Graded services task diff before
          (with_report (report id 0 task.fail_to_pass task.pass_to_pass result statuses) g)
  unfolding with_report
  with_report-Graded before g id result statuses h made = note_if-Graded before _ _ _ (record {
    of_task = h.0;
    resolved = λ e.
        (h.1, made (report-RunPassed id 0 task.fail_to_pass task.pass_to_pass result statuses e));
  })

  -- A patch that is applied is not blank, and `git apply` has ended with 0.
  apply_patch-Ensures :
      (root : String) (w : W)
      → Ensures
          (λ x. x ≡ w)
          (apply_patch services root diff)
          (λ applied x.
            applied ≡ true
            → (str_eq (strip diff) "" ≡ false) × (services.git_apply root diff w ≡ (ok 0, x)))
  unfolding apply_patch
  apply_patch-Ensures root w =
      Ensures-if_eq _ _ _ (λ blank. Ensures-pure _ λ x q e. absurd (false≢true e))
        λ not_blank. Ensures-from w _ _ λ code t ran. Ensures-pure _ λ x q e.
          let zero_code : code ≡ 0 = ground arith in
          (not_blank, ran ∙ (λ i. (ok (zero_code i), sym q i)))

  run_tests-Graded :
      (before created patched : W) (g : GradeResult) (root : String)
      → Applied task g
      → services.create task.repository task.base_sha before ≡ (ok root, created)
      → (str_eq (strip diff) "" ≡ false) × (services.git_apply root diff created ≡ (ok 0, patched))
      → Ensures
          (λ x. x ≡ patched)
          (run_tests services task g root)
          (λ r w. Graded services task diff before r)
  unfolding run_tests
  run_tests-Graded before created patched g root h made applied =
      Ensures-from patched _ _ λ u written wrote.
        Ensures-from written _ _ λ (out : CommandResult × Dict TestStatus) ended ran.
          Ensures-pure _ λ w q.
            with_report-Graded before
              (note_if (is_empty task.fail_to_pass && is_empty task.pass_to_pass)
                "task has no acceptance tests; running the whole suite" g)
              _ out.0 out.1 (note_if-Applied task _ _ g h)
              λ passed. record {
                root = root;
                created = created;
                patched = patched;
                written = written;
                ended = ended;
                result = out.0;
                statuses = out.1;
                made = made;
                not_blank = applied.0;
                patch = applied.1;
                tests = wrote;
                ran = ran;
                passed = passed;
              }

  attempt-Graded :
      (before created : W) (g : GradeResult) (root : String)
      → Unresolved task g
      → services.create task.repository task.base_sha before ≡ (ok root, created)
      → Ensures
          (λ x. x ≡ created)
          (attempt services task diff g root)
          (λ r w. Graded services task diff before r)
  unfolding attempt
  attempt-Graded before created g root u made = Ensures-from created _ _ λ applied patched tried.
      Ensures-if_eq applied _ _
        (λ (yes : applied ≡ true).
          run_tests-Graded before created patched _ root (u.0, refl) made
            ((apply_patch-Ensures root created).at created patched applied refl tried yes))
        (λ no. Ensures-pure _ λ w p. note_if-Graded before true _ g (Unresolved-Graded before g u))

  attempt_once-Graded :
      (files : Option (List String)) (before created : W) (root : String)
      → services.create task.repository task.base_sha before ≡ (ok root, created)
      → Ensures
          (λ x. x ≡ created)
          (attempt_once services task diff (ungraded task files) root)
          (λ r w. Graded services task diff before r)
  unfolding attempt_once ungraded
  attempt_once-Graded files before created root made =
      finally-Ensures (attempt services task diff (ungraded task files) root) (services.remove root)
        (attempt-Graded before created (ungraded task files) root (refl, refl) made)

  -- A grade that is returned is of its task, and reads as resolved only if the patch was applied in a
  -- worktree that was made at the base commit from the state the grading began in, the tests of the
  -- task were then written there, and what pytest returned next, of the targeted tests, passed.
  pub grade-Graded :
      (files : Option (List String)) (before : W)
      → Ensures
          (λ x. x ≡ before)
          (grade services task diff files)
          (λ g w. Graded services task diff before g)
  unfolding grade ungraded
  grade-Graded files before = Ensures-gets _ _ λ local.
      Ensures-if local _ _
        (Ensures-weaken _ (λ s h. h.1) (λ a s h. h)
          (Ensures-from before _ _
            λ root created made. attempt_once-Graded files before created root made))
        (Ensures-pure _ λ w p.
          note_if-Graded before true _ (ungraded task files)
            (Unresolved-Graded before (ungraded task files) (refl, refl)))
