-- ===== src/Agent/Runner.antt =====
-- agent/runner.py: `SequentialRunner` and its gates. A gate is a function of the kind of decision
-- and the state, which may consult the world.
use autonomous_software_engi.Prelude.{
  if◌then◌else◌, ℕ, zero, suc, String, Bool, true, false, some, List, [], ◌∷◌,
}
use autonomous_software_engi.Prelude.Text.{◌+s◌}
use autonomous_software_engi.Exec.{Exec, pure, ◌>>=◌}
use autonomous_software_engi.Agent.State.{AgentState, Update, GateDecision, merge}
use autonomous_software_engi.Agent.Services.{Services, Platform, Call, call}
use autonomous_software_engi.Agent.Planning.{intake, retrieve, propose_plan, apply_plan_decision}
use autonomous_software_engi.Agent.Preparing.{create_workspace}
use autonomous_software_engi.Agent.Implement.{implement}
use autonomous_software_engi.Agent.Verify.{verify}
use autonomous_software_engi.Agent.Reflect.{reflect}
use autonomous_software_engi.Agent.Deliver.{
  apply_pr_decision, open_draft_pr, to_implement, to_end, route_after_reflect,
  route_after_plan_decision, route_after_pr_decision,
}
use autonomous_software_engi.Exec.{ok}

abbrev pub max_loops : ℕ
max_loops = 50

abbrev pub Gate : Type 0 → Type 0
Gate W = String → AgentState → Call W GateDecision

module _ {W : Type 0} where
  -- `AutoApprove` and `RejectAll`
  unfoldable pub auto_approve : Gate W
  auto_approve kind state w = (
    ok (record { approved = some true; reason = some ("auto-approved " +s kind); others = false }),
    w,
  )

  unfoldable pub reject_all : Gate W
  reject_all kind state w = (
    ok (record { approved = some false; reason = some ("rejected " +s kind); others = false }),
    w,
  )

  -- `state = merge(state, node(state))`
  unfoldable pub advance :
      (AgentState → Exec (Platform W) (List Update)) → AgentState → Exec (Platform W) AgentState
  advance node state = do updates ← node state; pure (merge state updates)

  unfoldable pub decide :
      Gate W → String → (GateDecision → Update) → AgentState → Exec (Platform W) AgentState
  decide gate kind key state = do
    decision ← call (gate kind state)
    pure (merge state (key decision ∷ []))

module _ {W I : Type 0} (services : Services W I) where
  -- One round of the loop.
  unfoldable pub round : AgentState → Exec (Platform W) AgentState
  unfolding advance
  round state = do
    implemented ← advance (implement services) state
    verified ← advance (verify services) implemented
    advance (reflect services) verified

  -- The `for` loop: the state, and whether the run ends in it. After the last round the loop falls
  -- through to the gate, whatever the route.
  unfoldable pub rounds : ℕ → AgentState → Exec (Platform W) (AgentState × Bool)
  rounds zero state = pure (state, false)
  rounds (suc n) state = do
    done ← round state
    let again = rounds n done
    elim (route_after_reflect done) [
      | to_implement ↦ again
      | to_end ↦ pure (done, true)
      | _ ↦ pure (done, false)
    ]

  -- The part of `run` behind the loop.
  unfoldable pub finish : Gate W → AgentState → Exec (Platform W) AgentState
  unfolding decide advance
  finish gate state = do
    decided ← decide gate "pr" Update.pr_decision state
    reviewed ← advance (apply_pr_decision services) decided
    elim (route_after_pr_decision reviewed) [
      | to_end ↦ pure reviewed
      | _ ↦ advance (open_draft_pr services) reviewed
    ]

  -- The part of `run` behind the plan's gate.
  unfoldable pub build : Gate W → AgentState → Exec (Platform W) AgentState
  build gate state = do
    prepared ← advance (create_workspace services) state
    looped ← rounds max_loops prepared
    if looped.1 then pure looped.0 else finish gate looped.0

  -- `SequentialRunner.run`
  unfoldable pub run : Gate W → AgentState → Exec (Platform W) AgentState
  run gate state = do
    taken ← advance (intake services) state
    retrieved ← advance (retrieve services) taken
    planned ← advance (propose_plan services) retrieved
    decided ← decide gate "plan" Update.plan_decision planned
    reviewed ← advance (apply_plan_decision services) decided
    elim (route_after_plan_decision reviewed) [ to_end ↦ pure reviewed | _ ↦ build gate reviewed ]
