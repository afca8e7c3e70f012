-- ===== src/Agent/Evaluation.antt =====
-- The evaluation of a patch: when it passes.
use autonomous_software_engi.Prelude.{
  is_empty, String, ◌≡◌, refl, ◌↔◌, ◌⊎◌, true, Option, List, [], ◌∷◌, arith,
}
use autonomous_software_engi.Prelude.Dict.{Dict}
use autonomous_software_engi.Contracts.Types.{Task}
use autonomous_software_engi.Contracts.Trace.{Patch, TestReport, green}
use autonomous_software_engi.Policy.{Policy}
use autonomous_software_engi.Policy.Paths.{InScope, changed_files-allowed_iff}
use autonomous_software_engi.Verification.{test_integrity, integrity_findings, scope_check}
use autonomous_software_engi.Agent.Implement.{task_is_tests}
use autonomous_software_engi.Agent.Verify.{
  files_of, diff_of, agent_test_edits, integrity_check, failed_check, tests_check, evaluate_patch,
}

-- What a passed evaluation of a patch says.
pub record Acceptable (policy : Policy) (task : Task) (patch : Option Patch)
    (installed : Dict String) (tampered : List String) (r : TestReport) : Type 0 where
  pub tests : green r ≡ true
  pub scope : InScope policy (files_of patch)
  pub no_edits :
      (agent_test_edits installed (files_of patch) ≡ []) ⊎ (task_is_tests task.metadata ≡ true)
  pub untouched : tampered ≡ []
  pub no_skips : integrity_findings (diff_of patch) ≡ []

is_empty→nil : {A : Type 0} (xs : List A) → is_empty xs ≡ true → xs ≡ []
is_empty→nil [] h = refl
is_empty→nil (x ∷ xs) h = cc

nil→is_empty : {A : Type 0} (xs : List A) → xs ≡ [] → is_empty xs ≡ true
nil→is_empty xs h = rw h refl

integrity_check-passed :
    (task : Task) (patch : Option Patch) (installed : Dict String) (tampered : List String)
    → (integrity_check task patch installed tampered).passed ≡ true
    → ((agent_test_edits installed (files_of patch) ≡ []) ⊎ (task_is_tests task.metadata ≡ true))
      × (tampered ≡ [])
      × (integrity_findings (diff_of patch) ≡ [])
unfolding integrity_check failed_check test_integrity
integrity_check-passed task patch installed tampered h = ground (
  arith,
  is_empty→nil (agent_test_edits installed (files_of patch)),
  is_empty→nil tampered,
  is_empty→nil (integrity_findings (diff_of patch)),
)

passed-integrity_check :
    (task : Task) (patch : Option Patch) (installed : Dict String) (tampered : List String)
    → ((agent_test_edits installed (files_of patch) ≡ []) ⊎ (task_is_tests task.metadata ≡ true))
    → tampered ≡ []
    → integrity_findings (diff_of patch) ≡ []
    → (integrity_check task patch installed tampered).passed ≡ true
unfolding integrity_check failed_check test_integrity
passed-integrity_check task patch installed tampered h k l = ground (
  arith,
  nil→is_empty (agent_test_edits installed (files_of patch)),
  nil→is_empty tampered k,
  nil→is_empty (integrity_findings (diff_of patch)) l,
)

-- An evaluation passes exactly if the tests are green, the patch is in scope for the policy, it edits
-- no test file unless the task is about tests, the installed tests are as they were, and the diff adds
-- no skipped or focused test.
pub evaluate_patch-Acceptable :
    (policy : Policy) (task : Task) (patch : Option Patch) (installed : Dict String)
    (tampered : List String) (r : TestReport)
    → ((evaluate_patch policy task patch installed tampered r).passed ≡ true)
      ↔ Acceptable policy task patch installed tampered r
unfolding evaluate_patch tests_check scope_check
evaluate_patch-Acceptable policy task patch installed tampered r = (
  λ h.
      let integrity = integrity_check-passed task patch installed tampered (ground arith) in
      record {
        tests = ground arith;
        scope = (changed_files-allowed_iff policy (files_of patch)).0 (ground arith);
        no_edits = integrity.0;
        untouched = integrity.1;
        no_skips = integrity.2;
      },
  λ h. ground (
    arith,
    h.tests,
    (changed_files-allowed_iff policy (files_of patch)).1 h.scope,
    passed-integrity_check task patch installed tampered h.no_edits h.untouched h.no_skips,
  ),
)
