-- ===== src/Policy/Mapping.antt =====
-- policy.py: `Policy.from_mapping`, the policy of a parsed `.ase/policy.yaml`.
use autonomous_software_engi.Prelude.{
  if◌then◌else◌, ℕ, String, Bool, false, not, Option, none, some, List, [], str_eq,
}
use autonomous_software_engi.Prelude.Text.{chars}
use autonomous_software_engi.Prelude.Dict.{Dict, lookup}
use autonomous_software_engi.Exec.{Result, ok, err, value_error, type_error}
use autonomous_software_engi.Exec.Fallible.{◌>>=◌}
use autonomous_software_engi.Contracts.Types.{Value, null, bool, num, str, strs, truthy}
use autonomous_software_engi.Policy.{Policy, default_policy}

-- A section of the document: a mapping, or some other value.
pub data Section : Type 0 where
  mapping : Dict Value → Section
  scalar : Value → Section

-- `data.get(name) or {}`, followed by the test that it is a mapping.
unfoldable pub section : String → Dict Section → Result (Dict Value)
section name document = elim (lookup name document) [
  | none ↦ ok []
  | some (mapping entries) ↦ ok entries
  | some (scalar v) ↦
      if truthy v then err (value_error "policy sections must be mappings") else ok []
]

abbrev pub equals_text : Value → String → Bool
equals_text (str s) t = str_eq s t
equals_text _ t = false

-- `int(value)`; `parse` stands for `int` on a text. Negative numbers are not in `Value`.
unfoldable pub to_int : (String → Option ℕ) → Value → Result ℕ
to_int parse (num n) = ok n
to_int parse (bool b) = ok (if b then 1 else 0)
to_int parse (str s) = elim (parse s) [ none ↦ err (value_error s) | some n ↦ ok n ]
to_int parse null = err (type_error "int() argument")
to_int parse (strs l) = err (type_error "int() argument")

-- `frozenset(str(item) for item in value)`; a text is iterated over by characters.
to_texts : Value → Result (List String)
to_texts (strs l) = ok l
to_texts (str s) = ok (chars s)
to_texts (num n) = err (type_error "object is not iterable")
to_texts (bool b) = err (type_error "object is not iterable")
to_texts null = err (type_error "object is not iterable")

-- `if key in section: updates[…] = …`: the new value if the key is there, else the old one.
module _ {ℓ} {A : Type ℓ} where
  abbrev pub updated : Option Value → A → (Value → A) → A
  updated none old convert = old
  updated (some v) old convert = convert v

  abbrev pub parsed : Option Value → A → (Value → Result A) → Result A
  parsed none old convert = ok old
  parsed (some v) old convert = convert v

-- The four updates that the authority section makes.
unfoldable pub authority_updates : Dict Value → Policy → Policy
authority_updates entries p = record p {
  require_pr_approval =
      updated (lookup "open_draft_pull_request" entries) p.require_pr_approval
        (λ v. not (equals_text v "automatic"));
  allow_merge =
      updated (lookup "merge_pull_request" entries) p.allow_merge (λ v. equals_text v "allowed");
  allow_deploy =
      updated (lookup "deploy_production" entries) p.allow_deploy (λ v. equals_text v "allowed");
  require_plan_approval =
      updated (lookup "plan" entries) p.require_plan_approval
        (λ v. not (equals_text v "automatic"));
}

-- The five updates that the execution section makes; a conversion may raise.
unfoldable pub execution_updates : (String → Option ℕ) → Dict Value → Policy → Result Policy
unfolding to_int to_texts
execution_updates parse entries p = do
  seconds ← parsed (lookup "max_seconds" entries) p.max_command_seconds (to_int parse)
  files ← parsed (lookup "max_changed_files" entries) p.max_changed_files (to_int parse)
  denied ← parsed (lookup "denied_paths" entries) p.denied_paths to_texts
  commands ← parsed (lookup "allowed_commands" entries) p.allowed_commands to_texts
  ok (record p {
    network_enabled =
        updated (lookup "network" entries) p.network_enabled (λ v. equals_text v "allowed");
    max_command_seconds = seconds;
    max_changed_files = files;
    denied_paths = denied;
    allowed_commands = commands;
  })

-- `Policy.from_mapping(data)`
unfoldable pub from_mapping : (String → Option ℕ) → Dict Section → Result Policy
from_mapping parse document = do
  authority ← section "authority" document
  execution ← section "execution" document
  execution_updates parse execution (authority_updates authority default_policy)
