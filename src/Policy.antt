-- ===== src/Policy.antt =====
-- policy.py: `Policy` and the four decisions of `PolicyEngine`.
pub mod Mapping
pub mod Commands
pub mod Paths
pub mod Authority
mod Tests
use autonomous_software_engi.Prelude.{
  ltb, if◌then◌else◌, length, select, is_empty, ℕ, String, Bool, true, false, not, ◌&&◌, List, [],
  ◌∷◌, ◌++◌, str_eq,
}
use autonomous_software_engi.Prelude.Text.{◌+s◌, decimal, mem, sorted_set}
use autonomous_software_engi.Contracts.Paths.{parts, path_name, looks_like_test}

-- Sets of texts are lists; only membership in them is asked.
pub record Policy : Type 0 where
  pub allowed_commands : List String
  pub denied_git_subcommands : List String
  pub denied_paths : List String
  pub max_changed_files : ℕ
  pub max_command_seconds : ℕ
  pub network_enabled : Bool
  pub require_plan_approval : Bool
  pub require_pr_approval : Bool
  pub allow_merge : Bool
  pub allow_deploy : Bool

abbrev pub default_allowed_commands : List String
default_allowed_commands =
    "python" ∷ "python3" ∷ "pytest" ∷ "ruff" ∷ "mypy" ∷ "git" ∷ "npm" ∷ "npx" ∷ "coverage"
    ∷ "mutmut" ∷ []

abbrev pub default_policy : Policy
default_policy = record {
  allowed_commands = default_allowed_commands;
  denied_git_subcommands =
      "push" ∷ "reset" ∷ "clean" ∷ "checkout" ∷ "switch" ∷ "merge" ∷ "rebase" ∷ [];
  denied_paths = ".git" ∷ ".env" ∷ ".ssh" ∷ "node_modules" ∷ ".venv" ∷ [];
  max_changed_files = 25;
  max_command_seconds = 120;
  network_enabled = false;
  require_plan_approval = true;
  require_pr_approval = true;
  allow_merge = false;
  allow_deploy = false;
}

pub record PolicyDecision : Type 0 where
  pub allowed : Bool
  pub reasons : List String

abbrev pub shell_tokens : List String
shell_tokens = "sh" ∷ "bash" ∷ "zsh" ∷ "cmd" ∷ "powershell" ∷ "pwsh" ∷ []

-- One reason, if the test holds.
abbrev pub reason_if : Bool → String → List String
reason_if true r = r ∷ []
reason_if false r = []

-- `executable == "git" and len(argv) > 1 and argv[1] in denied_git_subcommands`
git_reasons : Policy → String → List String → List String
git_reasons p executable [] = []
git_reasons p executable (subcommand ∷ rest) =
    reason_if (str_eq executable "git" && mem subcommand p.denied_git_subcommands)
      ("git subcommand is denied: " +s subcommand)

-- `PolicyEngine.command`
unfoldable pub command : Policy → List String → PolicyDecision
unfolding git_reasons
command p [] = record { allowed = false; reasons = "empty command" ∷ [] }
command p (program ∷ args) =
    let executable = path_name program in
    let reasons : List String =
      reason_if (not (mem executable p.allowed_commands))
        ("command is not allowlisted: " +s executable)
      ++ (git_reasons p executable args
          ++ reason_if (mem executable shell_tokens) "shell interpreters are not allowed") in
    record { allowed = is_empty reasons; reasons = reasons }

-- `sorted(denied)[0]` for the denied parts of one path, and the reason that names it.
denied_reason : String → List String → List String
denied_reason value [] = []
denied_reason value (segment ∷ rest) =
    ("path contains denied segment " +s segment +s ": " +s value) ∷ []

pub denied_parts : Policy → String → List String
denied_parts p value = select (λ part. mem part p.denied_paths) (parts value)

path_reasons : Policy → List String → List String
unfolding denied_reason
path_reasons p [] = []
path_reasons p (value ∷ rest) =
    denied_reason value (sorted_set (denied_parts p value)) ++ path_reasons p rest

-- `PolicyEngine.changed_files`
unfoldable pub changed_files : Policy → List String → PolicyDecision
unfolding path_reasons
changed_files p paths =
    let reasons : List String =
      reason_if (ltb p.max_changed_files (length paths)) (
        "patch changes "
        +s decimal (length paths)
        +s " files; maximum is "
        +s decimal p.max_changed_files)
      ++ path_reasons p paths in
    record { allowed = is_empty reasons; reasons = reasons }

-- `PolicyEngine.write_path`
unfoldable pub write_path : Policy → String → Bool → PolicyDecision
write_path p path task_is_tests =
    let decision = changed_files p (path ∷ []) in
    if not decision.allowed
    then decision
    else if looks_like_test path && not task_is_tests
    then record {
      allowed = false;
      reasons = ("writes to test files are denied for this task: " +s path) ∷ [];
    }
    else record { allowed = true; reasons = [] }

abbrev granted : Bool → String → PolicyDecision
granted grant action = record {
  allowed = grant;
  reasons = if grant then [] else (action +s " is denied") ∷ [];
}

-- `PolicyEngine.authority`
unfoldable pub authority : Policy → String → PolicyDecision
authority p action =
    if str_eq action "merge_pull_request"
    then granted p.allow_merge action
    else if str_eq action "deploy_production"
    then granted p.allow_deploy action
    else if str_eq action "open_draft_pull_request"
    then granted true action
    else record { allowed = false; reasons = ("unknown action: " +s action) ∷ [] }
