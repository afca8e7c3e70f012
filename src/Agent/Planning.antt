-- ===== src/Agent/Planning.antt =====
-- agent/nodes.py: the nodes `intake`, `retrieve`, `propose_plan` and `apply_plan_decision`.
use autonomous_software_engi.Prelude.{
  if◌then◌else◌, or_else, is_some, String, Bool, true, false, Option, none, some, List, [], ◌∷◌,
  map, str_eq,
}
use autonomous_software_engi.Prelude.Text.{◌+s◌}
use autonomous_software_engi.Exec.{Exec, pure, lift, ◌>>=◌, ◌>>◌}
use autonomous_software_engi.Contracts.Types.{
  RunState, ingest_issue, retrieve_context, await_plan_approval, create_workspace, failed, approved,
  rejected, ChangePlan, ContextItem, bool, str, strs,
}
use autonomous_software_engi.Contracts.Run.{AgentRun}
use autonomous_software_engi.Llm.{user_message, completion_text}
use autonomous_software_engi.Agent.State.{AgentState, Update, GateDecision, is_empty_decision}
use autonomous_software_engi.Agent.Services.{Services, Platform, call, ask}
use autonomous_software_engi.Agent.Steps.{run_of, save_run, record_step}

-- `state.get(…) or {"approved": True, "reason": "policy: automatic"}`: an absent decision, and an
-- empty one, is an approval.
unfoldable pub decision_or_automatic : Option GateDecision → GateDecision
decision_or_automatic none = record {
  approved = some true;
  reason = some "policy: automatic";
  others = false;
}
decision_or_automatic (some d) =
    if is_empty_decision d
    then record { approved = some true; reason = some "policy: automatic"; others = false }
    else d

-- `bool(decision.get("approved"))`
unfoldable pub is_approved : GateDecision → Bool
is_approved d = or_else d.approved false

unfoldable pub reason_of : GateDecision → String
reason_of d = or_else d.reason ""

abbrev pub mark_plan : Bool → ChangePlan → ChangePlan
mark_plan ok plan = record plan { approval = if ok then approved else rejected }

-- `run.plan.approval = …`, if there is a plan.
unfoldable pub marked : Bool → AgentRun → AgentRun
marked ok run = elim run.plan [
  | none ↦ run
  | some plan ↦ record run { plan = some (mark_plan ok plan) }
]

module _ {W I : Type 0} (services : Services W I) where
  -- `task.base_sha or head_sha(repository)`
  unfoldable pub base_sha_of : AgentState → Exec (Platform W) String
  base_sha_of state = elim state.task.base_sha [
    | none ↦ call (services.head_sha state.repository)
    | some sha ↦ if str_eq sha "" then call (services.head_sha state.repository) else pure sha
  ]

  unfoldable pub intake : AgentState → Exec (Platform W) (List Update)
  unfolding base_sha_of
  intake state = do
    run ← run_of services state
    base_sha ← base_sha_of state
    save_run services (some ingest_issue)
        (some ("intake", ("base_sha", str base_sha) ∷ ("config", str state.config.name) ∷ []))
        (record run { task = some state.task; base_sha = some base_sha; config = state.config })
    now ← ask services.clock
    pure (Update.base_sha base_sha ∷ Update.started_at now ∷ [])

  -- The index of the base commit, if the configuration uses one and a loader is there.
  unfoldable pub load_index : AgentState → Exec (Platform W) (Option I)
  load_index state = elim services.index_loader [
    | none ↦ pure none
    | some loader ↦
        if state.config.use_index then call (loader state.repository state.base_sha) else pure none
  ]

  unfoldable pub retrieve_with :
      AgentState → Option I → Exec (Platform W) (List ContextItem × String)
  retrieve_with state (some index) = do
    context ← call (services.knowledge_retrieve index state.task.issue state.repository)
    map ← call (services.repo_map index (state.task.issue.title +s " " +s state.task.issue.body))
    pure (context, map)
  retrieve_with state none = do
    context ← call (services.hybrid_retrieve state.task.issue state.repository)
    pure (context, "")

  unfoldable pub retrieve : AgentState → Exec (Platform W) (List Update)
  unfolding retrieve_with
  retrieve state = do
    run ← run_of services state
    index ← load_index state
    found ← retrieve_with state index
    save_run services (some retrieve_context)
        (some (
          "context_retrieved",
          ("files", strs (map (λ (item : ContextItem). item.path) found.0))
              ∷ ("index", str (if is_some index then "knowledge" else "lexical"))
              ∷ [],
        ))
        (record run { context = found.0 })
    pure (Update.context found.0 ∷ Update.repo_map found.1 ∷ [])

  unfoldable pub propose_plan : AgentState → Exec (Platform W) (List Update)
  propose_plan state = do
    run ← run_of services state
    let model = state.config.planner_model
    let request = services.texts.plan_request state.task state.context state.repo_map
    completion ← call (
        services.complete (record {
          model = model;
          system = services.texts.planner_system;
          messages = user_message request ∷ [];
          tools = "";
          max_tokens = 2048;
        }))
    stepped ← record_step services run "plan" model completion []
    parsed ← lift (services.texts.parse_plan (completion_text completion))
    let plan = parsed.0
    saved ←
        save_run services (some RunState.propose_plan)
          (some ("plan_proposed", ("summary", str plan.summary) ∷ []))
          (record stepped { plan = some plan })
    save_run services
        (some
          (if services.policy.require_plan_approval then await_plan_approval else create_workspace))
        none saved
    pure (Update.plan (some plan) ∷ Update.reproduction parsed.1 ∷ [])

  unfoldable pub apply_plan_decision : AgentState → Exec (Platform W) (List Update)
  apply_plan_decision state = do
    run ← run_of services state
    let decision = decision_or_automatic state.plan_decision
    let ok = is_approved decision
    saved ←
        save_run services (some (if ok then create_workspace else failed))
          (some
            ("plan_reviewed", ("approved", bool ok) ∷ ("reason", str (reason_of decision)) ∷ []))
          (marked ok run)
    if ok then pure (Update.plan saved.plan ∷ []) else (do
      save_run services none none (record saved { outcome = some "rejected" })
      pure (Update.outcome "rejected" ∷ Update.outcome_reason (reason_of decision) ∷ []))
