-- ===== src/Agent/Graph.antt =====
-- agent/graph.py: the nodes and edges of the durable workflow. LangGraph, which runs one node after
-- the other and stops at an interrupt until a decision is given, is the step relation; its
-- checkpoints are left out. The gate is where the decision at an interrupt comes from.
use autonomous_software_engi.Prelude.{
  if◌then◌else◌, ℕ, ◌+◌, String, ◌≡◌, Bool, true, false, some, [], ◌∷◌,
}
use autonomous_software_engi.Exec.{Exec, ok, pure}
use autonomous_software_engi.Agent.State.{AgentState, Update, GateDecision, merge}
use autonomous_software_engi.Agent.Services.{Services, Platform}
use autonomous_software_engi.Agent.Planning.{intake, retrieve, propose_plan, apply_plan_decision}
use autonomous_software_engi.Agent.Preparing.{create_workspace}
use autonomous_software_engi.Agent.Implement.{implement}
use autonomous_software_engi.Agent.Verify.{verify}
use autonomous_software_engi.Agent.Reflect.{reflect}
use autonomous_software_engi.Agent.Deliver.{
  Route, apply_pr_decision, open_draft_pr, to_implement, to_end, route_after_reflect,
  route_after_plan_decision, route_after_pr_decision,
}
use autonomous_software_engi.Agent.Runner.{Gate, advance, decide}

-- The nodes, and `END`.
pub data Node : Type 0 where
  at_intake at_retrieve at_propose_plan at_plan_approval at_plan_decision at_workspace at_implement
        at_verify at_reflect at_pr_approval at_pr_decision at_delivery at_end :
      Node

-- The maps of the conditional edges; the routers give no other names.
abbrev pub after_plan : Route → Node
after_plan to_end = at_end
after_plan _ = at_workspace

abbrev pub after_reflect : Route → Node
after_reflect to_implement = at_implement
after_reflect to_end = at_end
after_reflect _ = at_pr_approval

abbrev pub after_pr : Route → Node
after_pr to_end = at_end
after_pr _ = at_delivery

abbrev pub automatic : GateDecision
automatic = record { approved = some true; reason = some "policy: automatic"; others = false }

module _ {W I : Type 0} (services : Services W I) (gate : Gate W) where
  -- `await_plan_approval` and `await_pr_approval`: asked for only where the policy requires it.
  unfoldable pub await_approval :
      Bool → String → (GateDecision → Update) → AgentState → Exec (Platform W) AgentState
  await_approval required kind key state =
      if required then decide gate kind key state else pure (merge state (key automatic ∷ []))

  -- What a node does to the state.
  unfoldable pub act : Node → AgentState → Exec (Platform W) AgentState
  act at_intake = advance (intake services)
  act at_retrieve = advance (retrieve services)
  act at_propose_plan = advance (propose_plan services)
  act at_plan_approval =
      await_approval services.policy.require_plan_approval "plan" Update.plan_decision
  act at_plan_decision = advance (apply_plan_decision services)
  act at_workspace = advance (create_workspace services)
  act at_implement = advance (implement services)
  act at_verify = advance (verify services)
  act at_reflect = advance (reflect services)
  act at_pr_approval = await_approval services.policy.require_pr_approval "pr" Update.pr_decision
  act at_pr_decision = advance (apply_pr_decision services)
  act at_delivery = advance (open_draft_pr services)
  act at_end = pure

  -- The edges, from a node and the state after it.
  unfoldable pub node_after : Node → AgentState → Node
  node_after at_intake state = at_retrieve
  node_after at_retrieve state = at_propose_plan
  node_after at_propose_plan state = at_plan_approval
  node_after at_plan_approval state = at_plan_decision
  node_after at_plan_decision state = after_plan (route_after_plan_decision state)
  node_after at_workspace state = at_implement
  node_after at_implement state = at_verify
  node_after at_verify state = at_reflect
  node_after at_reflect state = after_reflect (route_after_reflect state)
  node_after at_pr_approval state = at_pr_decision
  node_after at_pr_decision state = after_pr (route_after_pr_decision state)
  node_after at_delivery state = at_end
  node_after at_end state = at_end

  -- From a state and a platform, the graph has come to a node after so many nodes, each of which
  -- returned.
  pub data Reached (start : AgentState) (from : Platform W)
      : ℕ → Node → AgentState → Platform W → Type 0 where
    begun : Reached start from 0 at_intake start from
    stepped :
        {n : ℕ} {node : Node} {state after : AgentState} {p q : Platform W}
        → Reached start from n node state p
        → act node state p ≡ (ok after, q)
        → Reached start from (n + 1) (node_after node after) after q
