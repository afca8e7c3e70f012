-- ===== src/Policy/Tests.antt =====
-- The policy's theorems at the default policy.
use autonomous_software_engi.Prelude.{
  ℕ, String, ◌≡◌, refl, ◌↔◌, ◌⊎◌, inl, inr, true, false, Option, none, [], ◌∷◌,
}
use autonomous_software_engi.Prelude.Text.{mem}
use autonomous_software_engi.Prelude.Dict.{Dict, lookup}
use autonomous_software_engi.Prelude.Member.{not_mem→not_Member}
use autonomous_software_engi.Contracts.Types.{str}
use autonomous_software_engi.Contracts.Paths.{looks_like_test}
use autonomous_software_engi.Policy.{Policy, default_policy, command, changed_files, write_path}
use autonomous_software_engi.Policy.Mapping.{
  Section, mapping, section, from_mapping, authority_updates, execution_updates,
}
use autonomous_software_engi.Policy.Commands.{Permitted, command-allowed_iff, command-git_option}
use autonomous_software_engi.Policy.Paths.{
  InScope, changed_files-allowed_iff, write_path-allowed_iff,
}
use autonomous_software_engi.Policy.Authority.{Opened, from_mapping-Opened}

command-allowed_iff_example :
    ((command default_policy ("/usr/bin/git" ∷ "push" ∷ [])).allowed ≡ true)
    ↔ Permitted default_policy "/usr/bin/git" ("push" ∷ [])
command-allowed_iff_example = command-allowed_iff default_policy "/usr/bin/git" ("push" ∷ [])

command-git_option_example :
    (command default_policy ("git" ∷ "--no-pager" ∷ "push" ∷ [])).allowed ≡ true
unfolding mem
command-git_option_example =
    command-git_option default_policy "--no-pager" "push" []
      (inr (inr (inr (inr (inr (inl refl))))))
      (not_mem→not_Member "--no-pager" default_policy.denied_git_subcommands refl)

changed_files-allowed_iff_example :
    ((changed_files default_policy ("a.py" ∷ ".git/config" ∷ [])).allowed ≡ true)
    ↔ InScope default_policy ("a.py" ∷ ".git/config" ∷ [])
changed_files-allowed_iff_example =
    changed_files-allowed_iff default_policy ("a.py" ∷ ".git/config" ∷ [])

write_path-allowed_iff_example :
    ((write_path default_policy "tests/test_a.py" false).allowed ≡ true) ↔ (
      InScope default_policy ("tests/test_a.py" ∷ [])
      × ((looks_like_test "tests/test_a.py" ≡ false) ⊎ (false ≡ true)))
write_path-allowed_iff_example = write_path-allowed_iff default_policy "tests/test_a.py" false

abbrev merging : Policy
merging = record default_policy { allow_merge = true }

abbrev merging_document : Dict Section
merging_document = ("authority", mapping (("merge_pull_request", str "allowed") ∷ [])) ∷ []

abbrev no_number : String → Option ℕ
no_number s = none

from_mapping-Opened_example : Opened merging_document merging
unfolding from_mapping section lookup authority_updates execution_updates
    autonomous_software_engi.Exec.Fallible.◌>>=◌
from_mapping-Opened_example = from_mapping-Opened no_number merging_document merging refl
