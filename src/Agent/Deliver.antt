-- ===== src/Agent/Deliver.antt =====
-- agent/nodes.py: the nodes `apply_pr_decision` and `open_draft_pr`, and the three routes.
use autonomous_software_engi.Prelude.{
  if◌then◌else◌, or_else, is_empty, ℕ, String, Bool, false, not, Option, none, some, List, [], ◌∷◌,
  str_eq,
}
use autonomous_software_engi.Prelude.Text.{◌+s◌, join, decimal, take_chars}
use autonomous_software_engi.Exec.{Exec, pure, lift, ◌>>=◌, ◌>>◌}
use autonomous_software_engi.Contracts.Types.{
  open_draft_pr as open_state, failed, completed, Value, null, bool, str, strs,
}
use autonomous_software_engi.Contracts.Run.{AgentRun}
use autonomous_software_engi.Policy.{authority}
use autonomous_software_engi.Store.{steps_of}
use autonomous_software_engi.Agent.State.{AgentState, Update}
use autonomous_software_engi.Agent.Services.{Services, Platform, Published, call, read_store}
use autonomous_software_engi.Agent.Steps.{run_of, save_run, workspace_of}
use autonomous_software_engi.Agent.Planning.{decision_or_automatic, is_approved, reason_of}
use autonomous_software_engi.Agent.Verify.{files_of}
use autonomous_software_engi.Agent.Reflect.{cleanup}

abbrev pub optional_text : Option String → Value
optional_text none = null
optional_text (some s) = str s

abbrev pub url_of : Option Published → Option String
url_of none = none
url_of (some p) = some p.pr_url

abbrev pub number_of : Option Published → Option ℕ
number_of none = none
number_of (some p) = some p.pr_number

module _ {W I : Type 0} (services : Services W I) where
  unfoldable pub apply_pr_decision : AgentState → Exec (Platform W) (List Update)
  apply_pr_decision state = do
    run ← run_of services state
    let decision = decision_or_automatic state.pr_decision
    let ok = is_approved decision
    saved ←
        save_run services (some (if ok then open_state else failed))
          (some ("pr_reviewed", ("approved", bool ok) ∷ ("reason", str (reason_of decision)) ∷ []))
          run
    if ok then pure [] else (do
      save_run services none none (record saved { outcome = some "rejected" })
      cleanup services state
      pure (Update.outcome "rejected" ∷ Update.outcome_reason (reason_of decision) ∷ []))

  -- What is published for a run: nothing without a delivery service, or without changed files.
  unfoldable pub publish :
      AgentState
      → AgentRun
      → String
      → String
      → String
      → String
      → Exec (Platform W) (Option Published)
  publish state run workspace branch title body = elim services.delivery [
    | none ↦ pure none
    | some deliver ↦ if is_empty (files_of state.patch) then pure none else (do
      published ← call (
          deliver (record {
            remote =
                if str_eq (or_else state.remote "") ""
                then state.task.issue.repository
                else or_else state.remote "";
            base_sha = state.base_sha;
            branch = branch;
            workspace = workspace;
            files = files_of state.patch;
            message =
                "fix: "
                +s take_chars 60 state.task.issue.title
                +s " (#"
                +s decimal state.task.issue.number
                +s ")\n\nAgent run "
                +s run.id;
            title = title;
            body = body;
          }))
      pure (some published))
  ]

  unfoldable pub deliver_run : AgentState → AgentRun → String → Exec (Platform W) (List Update)
  unfolding publish
  deliver_run state run workspace = do
    rows ← read_store (steps_of run.id)
    let body = services.texts.pr_body run rows state.notes
    let branch = services.texts.branch_name run.id state.task.issue.number
    let title = services.texts.sanitize_title state.task.issue.title state.task.issue.number
    published ← publish state run workspace branch title body
    save_run services (some completed)
        (some (
          "draft_pr_opened",
          ("url", optional_text (url_of published)) ∷ ("branch", str branch) ∷ [],
        ))
        (record run {
          pr_url = url_of published;
          pr_number = number_of published;
          outcome = some "submitted";
        })
    cleanup services state
    pure (
        Update.outcome "submitted"
        ∷ Update.pr_url (url_of published)
        ∷ Update.pr_number (number_of published)
        ∷ [])

  unfoldable pub open_draft_pr : AgentState → Exec (Platform W) (List Update)
  unfolding deliver_run
  open_draft_pr state = do
    run ← run_of services state
    workspace ← lift (workspace_of state)
    let decision = authority services.policy "open_draft_pull_request"
    if not decision.allowed
        then (do
          save_run services (some failed)
              (some ("delivery_denied", ("reasons", strs decision.reasons) ∷ []))
              (record run { outcome = some "failed" })
          pure (Update.outcome "failed" ∷ Update.outcome_reason (join "; " decision.reasons) ∷ []))
        else deliver_run state run workspace

-- The nodes that a route may lead to.
pub data Route : Type 0 where
  to_implement to_pr_gate to_workspace to_delivery to_end : Route

abbrev pub says : Option String → String → Bool
says none word = false
says (some d) word = str_eq d word

unfoldable pub route_after_reflect : AgentState → Route
route_after_reflect state =
    if says state.decision "submit"
    then to_pr_gate
    else if says state.decision "retry"
    then to_implement
    else to_end

unfoldable pub route_after_plan_decision : AgentState → Route
route_after_plan_decision state = if says state.outcome "rejected" then to_end else to_workspace

unfoldable pub route_after_pr_decision : AgentState → Route
route_after_pr_decision state = if says state.outcome "rejected" then to_end else to_delivery
