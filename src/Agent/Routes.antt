-- ===== src/Agent/Routes.antt =====
-- The routes that end a run by a rejection, and the states on the way to the loop.
use autonomous_software_engi.Prelude.{
  if◌then◌else◌, ℕ, ◌+◌, ◌≤◌, ◌<◌, String, ◌≡◌, refl, sym, ap, ◌∙◌, ◌↔◌, false, Option, none, some,
  arith, str_eq, eq_iff,
}
use mathlib.Core.Path.{subst₂}
use autonomous_software_engi.Contracts.Types.{RunConfig}
use mathlib.Core.Bool.{false≢true}
use autonomous_software_engi.Exec.{Exec, Ensures}
use autonomous_software_engi.Agent.State.{AgentState}
use autonomous_software_engi.Agent.Deliver.{
  says, Route, to_implement, to_pr_gate, to_workspace, to_delivery, to_end,
  route_after_plan_decision, route_after_pr_decision,
}
use autonomous_software_engi.Agent.Runner.{max_loops}
use autonomous_software_engi.Agent.SameRun.{SameRun}

pub rejected-not_submitted : {o : Option String} → o ≡ some "rejected" → o ≡ some "submitted" → ⊥
rejected-not_submitted e h = false≢true (
    ap (λ (x : Option String). elim x [ none ↦ false | some s ↦ str_eq s "submitted" ]) (sym e ∙ h))

pub gave_up-not_submitted : {o : Option String} → o ≡ some "gave_up" → o ≡ some "submitted" → ⊥
gave_up-not_submitted e h = false≢true (
    ap (λ (x : Option String). elim x [ none ↦ false | some s ↦ str_eq s "submitted" ]) (sym e ∙ h))

-- A route by a test of the outcome ends exactly on a rejection.
ends_iff :
    (o : Option String) (r : Route)
    → (r ≡ to_end → ⊥)
    → ((if says o "rejected" then to_end else r) ≡ to_end) ↔ (o ≡ some "rejected")
ends_iff none r ne = (λ e. absurd (ne e), λ e. cc)
ends_iff (some s) r ne = ground (arith, eq_iff s "rejected")

pub pr_end : (t : AgentState) → (route_after_pr_decision t ≡ to_end) ↔ (t.outcome ≡ some "rejected")
unfolding route_after_pr_decision
pr_end t = ends_iff t.outcome to_delivery (λ e. cc)

pub plan_end :
    (t : AgentState) → (route_after_plan_decision t ≡ to_end) ↔ (t.outcome ≡ some "rejected")
unfolding route_after_plan_decision
plan_end t = ends_iff t.outcome to_workspace (λ e. cc)

module _ {S A : Type 0} {P : S → Type 0} {Q : A → S → Type 0} where
  -- The runner's test of a route.
  pub Ensures-route :
      (r : Route) (m n : Exec S A)
      → (r ≡ to_end → Ensures P m Q)
      → ((r ≡ to_end → ⊥) → Ensures P n Q)
      → Ensures P (elim r [ to_end ↦ m | _ ↦ n ]) Q
  Ensures-route to_end m n h k = h refl
  Ensures-route to_implement m n h k = k (λ e. cc)
  Ensures-route to_pr_gate m n h k = k (λ e. cc)
  Ensures-route to_workspace m n h k = k (λ e. cc)
  Ensures-route to_delivery m n h k = k (λ e. cc)

-- A state on the way to the loop.
pub record Ready (s t : AgentState) : Type 0 where
  pub same : SameRun s t
  pub iteration : t.iteration ≡ s.iteration
  pub outcome : t.outcome ≡ s.outcome
  pub decided : t.plan_decision ≡ s.plan_decision

-- The iterations that the budget leaves are fewer than the rounds of the runner's loop, and some.
abbrev pub WithinLoops : AgentState → Type 0
WithinLoops s =
    (s.config.budget.max_iterations ≤ s.iteration + max_loops)
    × (s.iteration < s.config.budget.max_iterations)

pub WithinLoops-move :
    (s t : AgentState)
    → t.iteration ≡ s.iteration
    → t.config ≡ s.config
    → WithinLoops s
    → WithinLoops t
WithinLoops-move s t e f h =
    subst₂
      (λ (i : ℕ) (c : RunConfig).
        (c.budget.max_iterations ≤ i + max_loops) × (i < c.budget.max_iterations))
      (sym e) (sym f) h

pub WithinLoops-Ready : (s t : AgentState) → Ready s t → WithinLoops s → WithinLoops t
WithinLoops-Ready s t ready h = WithinLoops-move s t ready.iteration ready.same.config h
