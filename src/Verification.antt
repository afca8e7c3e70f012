-- ===== src/Verification.antt =====
-- verification.py: the test-integrity check of a diff, and `PatchVerifier.verify` over a sandbox.
use autonomous_software_engi.Prelude.{
  ◌==◌, if◌then◌else◌, any, all, select, is_empty, String, false, not, ◌&&◌, none, some, List, [],
  ◌∷◌, map, str_eq,
}
use autonomous_software_engi.Prelude.Text.{
  ◌+s◌, join, splitlines, starts_with, contains, drop_chars,
}
use autonomous_software_engi.Exec.{Exec, pure, ◌>>=◌}
use autonomous_software_engi.Contracts.Types.{CommandResult, CheckResult, EvaluationReport}
use autonomous_software_engi.Policy.{Policy, PolicyDecision, changed_files}

-- `text or default`
abbrev pub text_or : String → String → String
text_or s d = if str_eq s "" then d else s

abbrev pub suspicious : List String
suspicious = "@pytest.mark.skip" ∷ "pytest.skip(" ∷ ".skip(" ∷ "test.only(" ∷ "describe.only(" ∷ []

-- The added lines of a diff, without their mark.
unfoldable pub added_lines : List String → List String
added_lines [] = []
added_lines (line ∷ rest) =
    let lines = added_lines rest in
    if starts_with line "+" && not (starts_with line "+++")
    then drop_chars 1 line ∷ lines
    else lines

-- The suspicious tokens that some added line contains.
unfoldable pub integrity_findings : String → List String
integrity_findings diff =
    select (λ token. any (λ line. contains line token) (added_lines (splitlines diff))) suspicious

-- `found {findings}` shows the list as Python does.
quoted : String → String
quoted s = "'" +s s +s "'"

unfoldable pub test_integrity : String → CheckResult
unfolding quoted
test_integrity diff =
    let findings = integrity_findings diff in
    record {
      name = "test-integrity";
      passed = is_empty findings;
      details =
          if is_empty findings
          then "no skipped or focused tests added"
          else "found [" +s join ", " (map quoted findings) +s "]";
      command = none;
    }

pub record VerificationCommand : Type 0 where
  pub name : String
  pub argv : List String

abbrev pub default_commands : List VerificationCommand
default_commands =
    record { name = "lint"; argv = "ruff" ∷ "check" ∷ "." ∷ [] }
    ∷ record { name = "types"; argv = "mypy" ∷ "src" ∷ [] }
    ∷ record { name = "tests"; argv = "pytest" ∷ [] }
    ∷ []

-- The patch-policy check of both verifiers.
unfoldable pub scope_check : PolicyDecision → CheckResult
scope_check decision = record {
  name = "patch-policy";
  passed = decision.allowed;
  details = text_or (join "; " decision.reasons) "patch scope accepted";
  command = none;
}

-- `run` stands for `self.sandbox.run`, which may raise and changes the world `S`.
module _ {S : Type 0} (run : List String → Exec S CommandResult) where
  run_checks : List VerificationCommand → Exec S (List CheckResult)
  run_checks [] = pure []
  run_checks (item ∷ rest) = do
    result ← run item.argv
    others ← run_checks rest
    pure (
        record {
          name = item.name;
          passed = result.exit_code == 0;
          details = text_or result.stderr result.stdout;
          command = some result;
        }
        ∷ others)

  unfoldable pub verify : Policy → List String → List VerificationCommand → Exec S EvaluationReport
  unfolding run_checks
  verify policy changed commands =
      let decision = changed_files policy changed in
      let first = scope_check decision in
      if not decision.allowed
      then pure (record {
        passed = false;
        checks = first ∷ [];
        mutation_score = none;
        changed_files = changed;
        policy_violations = decision.reasons;
      })
      else (do
        results ← run_checks (if is_empty commands then default_commands else commands)
        let checks : List CheckResult = first ∷ results
        pure (record {
          passed = all (λ (item : CheckResult). item.passed) checks;
          checks = checks;
          mutation_score = none;
          changed_files = changed;
          policy_violations = [];
        }))
