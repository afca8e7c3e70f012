-- ===== src/Ci/Triage.antt =====
-- ci/triage.py: what a red build is, and what happens next. The patterns of the rules are regular
-- expressions, so that the rules' search is a parameter, as is the model's decoded reply. Confidence
-- is in ten-thousandths.
use autonomous_software_engi.Prelude.{
  ltb, ◌==◌, if◌then◌else◌, or_else, length, ℕ, ◌-◌, String, Bool, true, false, Option, none, some,
  List, [], ◌∷◌, str_eq,
}
use autonomous_software_engi.Prelude.Text.{◌+s◌, chars, drop_chars}
use autonomous_software_engi.Exec.{Exec, Result, pure, lift, ◌>>=◌}
use autonomous_software_engi.Contracts.Types.{Task, ci, num, str}
use autonomous_software_engi.Llm.{Completion, user_message, completion_text}
use autonomous_software_engi.Agent.Services.{Platform, Call, CompletionRequest, call}
use autonomous_software_engi.Ci.Actions.{FailureLog}

pub data FailureKind : Type 0 where
  flake lint test_regression env unknown : FailureKind

abbrev pub kind_value : FailureKind → String
kind_value flake = "flake"
kind_value lint = "lint"
kind_value test_regression = "test_regression"
kind_value env = "env"
kind_value unknown = "unknown"

pub data Source : Type 0 where
  rules model : Source

pub record Classification : Type 0 where
  pub kind : FailureKind
  pub reason : String
  pub confidence : ℕ
  pub source : Source

pub data ActionName : Type 0 where
  retry reenter escalate : ActionName

pub record Action : Type 0 where
  pub name : ActionName
  pub reason : String
  pub task : Option Task

-- The model's reply: its `kind` in lower case, and its reason if it gives one.
pub record Reply : Type 0 where
  pub kind : String
  pub reason : Option String
  pub confidence : ℕ

-- `searches kind text` says whether the pattern of the rule for that kind is found in the text.
pub record TriageServices (W : Type 0) : Type 0 where
  pub searches : FailureKind → String → Bool
  pub llm : Option (CompletionRequest → Call W Completion)
  pub model_name : String
  pub triage_system : String
  pub reply_of : String → Result Reply

-- The rules in their order, each with its reason.
abbrev pub triage_rules : List (FailureKind × String)
triage_rules =
    (flake, "transient network or runner failure")
    ∷ (env, "dependency or environment problem")
    ∷ (lint, "lint, formatting or type check failed")
    ∷ (test_regression, "tests failed")
    ∷ []

unfoldable pub first_rule :
    (FailureKind → String → Bool) → List (FailureKind × String) → String → Option Classification
first_rule searches [] excerpt = none
first_rule searches ((kind, reason) ∷ rest) excerpt =
    let later = first_rule searches rest excerpt in
    if searches kind excerpt
    then some (record { kind = kind; reason = reason; confidence = 7000; source = rules })
    else later

unfoldable pub classify_by_rules : (FailureKind → String → Bool) → String → Option Classification
unfolding first_rule
classify_by_rules searches excerpt = first_rule searches triage_rules excerpt

-- `FailureKind(text)`, with `unknown` for any other text.
unfoldable pub kind_of : String → FailureKind
kind_of text =
    if str_eq text "flake"
    then flake
    else if str_eq text "lint"
    then lint
    else if str_eq text "test_regression"
    then test_regression
    else if str_eq text "env"
    then env
    else unknown

-- `s[-n:]`
abbrev pub last_chars : ℕ → String → String
last_chars n s = drop_chars (length (chars s) - n) s

module _ {W : Type 0} (services : TriageServices W) where
  -- The model's part of `classify`.
  unfoldable pub ask_model :
      (CompletionRequest → Call W Completion) → FailureLog → Exec (Platform W) Classification
  ask_model complete log = do
    completion ← call (
        complete (record {
          model = services.model_name;
          system = services.triage_system;
          messages =
              user_message (
                "Job: "
                +s log.job.name
                +s " / "
                +s or_else log.job.failed_step "None"
                +s "\n\n"
                +s last_chars 6000 log.excerpt)
              ∷ [];
          tools = "";
          max_tokens = 300;
        }))
    reply ← lift (services.reply_of (completion_text completion))
    pure (record {
      kind = kind_of reply.kind;
      reason = or_else reply.reason "model classification";
      confidence = if ltb 10_000 reply.confidence then 10_000 else reply.confidence;
      source = model;
    })

  -- `Triage.classify`
  unfoldable pub classify : FailureLog → Exec (Platform W) Classification
  unfolding ask_model
  classify log = elim (classify_by_rules services.searches log.excerpt) [
    | some by_rules ↦ pure by_rules
    | none ↦ elim services.llm [
      | none ↦
          pure
            (record { kind = unknown; reason = "no rule matched"; confidence = 0; source = rules })
      | some complete ↦ ask_model complete log
    ]
  ]

abbrev pub is_flake : FailureKind → Bool
is_flake flake = true
is_flake _ = false

-- `kind in {LINT, TEST_REGRESSION}`
abbrev pub is_fixable : FailureKind → Bool
is_fixable lint = true
is_fixable test_regression = true
is_fixable _ = false

abbrev pub text_or_none : String → Option String
text_or_none s = if str_eq s "" then none else some s

-- `pr_number or 1`
abbrev pub number_or_one : Option ℕ → ℕ
number_or_one none = 1
number_or_one (some n) = if n == 0 then 1 else n

-- The task of a failure that the agent may fix; `id` stands for the id drawn at random.
unfoldable pub ci_task : String → Classification → FailureLog → String → Option ℕ → Task
ci_task id c log repository pr_number =
    let step = or_else log.job.failed_step "" in
    record {
      id = id;
      source = ci;
      issue = record {
        repository = repository;
        number = number_or_one pr_number;
        title =
            "CI failed: "
            +s log.job.name
            +s " ("
            +s (if str_eq step "" then "unknown step" else step)
            +s ")";
        body =
            "Workflow `"
            +s log.run.name
            +s "` failed ("
            +s kind_value c.kind
            +s ": "
            +s c.reason
            +s ").\nRun: "
            +s log.run.html_url
            +s "\n\nLog excerpt:\n```\n"
            +s last_chars 4000 log.excerpt
            +s "\n```";
        labels = "ci" ∷ kind_value c.kind ∷ [];
      };
      fail_to_pass = [];
      pass_to_pass = [];
      base_sha = text_or_none log.run.head_sha;
      metadata =
          ("workflow_run", num log.run.id)
          ∷ ("job", num log.job.id)
          ∷ ("kind", str (kind_value c.kind))
          ∷ [];
    }

-- `Triage.route`
unfoldable pub route : String → Classification → FailureLog → String → Option ℕ → ℕ → Action
route id c log repository pr_number retries_so_far =
    if (if is_flake c.kind then ltb retries_so_far 1 else false)
    then record { name = retry; reason = c.reason; task = none }
    else if is_fixable c.kind
    then record {
      name = reenter;
      reason = c.reason;
      task = some (ci_task id c log repository pr_number);
    }
    else record { name = escalate; reason = c.reason; task = none }
