-- ===== src/Ci/Watcher.antt =====
-- ci/watcher.py: one look at the checks of a delivered pull request.
use autonomous_software_engi.Prelude.{
  if◌then◌else◌, or_else, any, all, is_empty, ℕ, String, Bool, true, false, not, Option, none, some,
  [], ◌∷◌, str_eq,
}
use autonomous_software_engi.Prelude.Text.{◌+s◌}
use autonomous_software_engi.Exec.{Exec, pure, raise, value_error, ◌>>=◌, ◌>>◌}
use autonomous_software_engi.Contracts.Types.{Task}
use autonomous_software_engi.Contracts.Trace.{Review, ReviewDecision, commented, changes_requested}
use autonomous_software_engi.Contracts.Run.{AgentRun}
use autonomous_software_engi.Store.{add_review_row}
use autonomous_software_engi.Agent.Services.{Platform, call, write_store}
use autonomous_software_engi.Ci.Actions.{WorkflowRun, FailureLog, GitHubApi, first_failure}
use autonomous_software_engi.Ci.Triage.{
  Classification, Action, retry, reenter, escalate, TriageServices, classify, route, kind_value,
}

pub data CiStatus : Type 0 where
  green red pending unknown_status : CiStatus

pub record CiOutcome : Type 0 where
  pub run_id : String
  pub pr_number : ℕ
  pub head_sha : String
  pub status : CiStatus
  pub classification : Option Classification
  pub action : Option Action
  pub task : Option Task
  pub comment_posted : Bool
  pub rerun_requested : Bool

abbrev pub bare_outcome : AgentRun → ℕ → String → CiStatus → CiOutcome
bare_outcome run number head_sha status = record {
  run_id = run.id;
  pr_number = number;
  head_sha = head_sha;
  status = status;
  classification = none;
  action = none;
  task = none;
  comment_posted = false;
  rerun_requested = false;
}

abbrev pub is_completed : WorkflowRun → Bool
is_completed item = str_eq item.status "completed"

abbrev pub has_succeeded : WorkflowRun → Bool
has_succeeded item = elim item.conclusion [ none ↦ false | some c ↦ str_eq c "success" ]

-- The review that `_label` adds.
abbrev pub ci_review : AgentRun → ReviewDecision → String → Review
ci_review run decision comment = record {
  run_id = run.id;
  pr_number = or_else run.pr_number 0;
  decision = decision;
  reviewer = "github-actions";
  comments = comment ∷ [];
}

module _ {W : Type 0} (api : GitHubApi W) (triage : TriageServices W) where
  -- `_label`
  unfoldable pub label : AgentRun → ReviewDecision → String → Exec (Platform W) (Unit {0})
  label run decision comment = write_store (add_review_row (ci_review run decision comment))

  -- What is done about a classified failure.
  unfoldable pub act_on :
      String
      → ℕ
      → FailureLog
      → Classification
      → Action
      → Bool
      → CiOutcome
      → Exec (Platform W) CiOutcome
  act_on repository number log c action escalate_with_comment outcome = elim action.name [
    | retry ↦ (do
      call (api.rerun_workflow repository log.run.id)
      pure (record outcome { rerun_requested = true }))
    | reenter ↦ pure (record outcome { task = action.task })
    | escalate ↦
        if escalate_with_comment
        then (do
          call (
              api.create_issue_comment repository number (
                "CI failed and the agent could not classify the failure ("
                +s kind_value c.kind
                +s ": "
                +s c.reason
                +s "). A human should look at "
                +s log.run.html_url
                +s "."))
          pure (record outcome { comment_posted = true }))
        else pure outcome
  ]

  -- The part of `check` for a commit that failed. `id` is the id that a new task draws.
  unfoldable pub check_red : String → AgentRun → ℕ → String → ℕ → Bool → Exec (Platform W) CiOutcome
  unfolding label act_on
  check_red id run number head_sha retries_so_far escalate_with_comment = do
    let repository = run.issue.repository
    let outcome = bare_outcome run number head_sha red
    failure ← first_failure api repository head_sha
    elim failure [
      | none ↦ (do label run changes_requested "ci: failure without a job log"; pure outcome)
      | some log ↦ (do
        c ← classify triage log
        let action = route id c log repository (some number) retries_so_far
        label run changes_requested ("ci: " +s kind_value c.kind +s ": " +s c.reason)
        act_on repository number log c action escalate_with_comment
            (record outcome { classification = some c; action = some action }))
    ]

  -- `CiWatcher.check`
  unfoldable pub check : String → AgentRun → ℕ → Bool → Exec (Platform W) CiOutcome
  unfolding check_red label
  check id run retries_so_far escalate_with_comment = elim run.pr_number [
    | none ↦ raise (value_error "run has no pull request")
    | some number ↦ (do
      let repository = run.issue.repository
      head_sha ← call (api.head_sha repository number)
      runs ← call (api.list_workflow_runs repository head_sha)
      if is_empty runs
          then pure (bare_outcome run number head_sha unknown_status)
          else if any (λ item. not (is_completed item)) runs
          then pure (bare_outcome run number head_sha pending)
          else if all has_succeeded runs
          then (do label run commented "ci: success"; pure (bare_outcome run number head_sha green))
          else check_red id run number head_sha retries_so_far escalate_with_comment)
  ]
