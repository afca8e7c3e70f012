-- ===== src/Ci/Canary.antt =====
-- ci/canary.py: the decisions of a canary rollout. Error rates are in ten-thousandths and compared
-- by cross-multiplication; latencies are natural numbers of a common unit. A reason is its kind with
-- the numbers that its text shows.
use autonomous_software_engi.Prelude.{
  ltb, ◌==◌, if◌then◌else◌, last?, ℕ, ◌*◌, String, Bool, false, not, Option, none, some, List, [],
  ◌∷◌,
}
use autonomous_software_engi.Prelude.Text.{join}
use autonomous_software_engi.Exec.{Result, ok, err, authority_denied, not_implemented, value_error}
use autonomous_software_engi.Policy.{Policy, authority}

pub record Slo : Type 0 where
  pub max_error_rate : ℕ
  pub max_p95_ms : ℕ
  pub min_requests : ℕ
  pub window_s : ℕ

abbrev pub default_slo : Slo
default_slo = record { max_error_rate = 100; max_p95_ms = 500; min_requests = 50; window_s = 120 }

pub record Window : Type 0 where
  pub requests : ℕ
  pub errors : ℕ
  pub p95_ms : ℕ

-- `window.error_rate > rate`; without requests the rate is zero.
unfoldable pub error_rate_above : Window → ℕ → Bool
error_rate_above w rate =
    if w.requests == 0 then false else ltb (rate * w.requests) (w.errors * 10_000)

pub data CanaryAction : Type 0 where
  promote hold rollback : CanaryAction

pub data Reason : Type 0 where
  few_requests : ℕ → Reason
  error_rate : ℕ → ℕ → Reason
  latency : ℕ → ℕ → Reason
  full_traffic : Reason
  stepping_up : Reason

pub record CanaryDecision : Type 0 where
  pub action : CanaryAction
  pub weight : ℕ
  pub reason : Reason

-- The element after the first occurrence of the weight; there is none at the end of the list, and
-- none for a weight that is not in it.
unfoldable pub next_step : ℕ → List ℕ → Option ℕ
next_step weight [] = none
next_step weight (x ∷ []) = none
next_step weight (x ∷ y ∷ rest) =
    let later = next_step weight (y ∷ rest) in if x == weight then some y else later

-- `CanaryController.evaluate`
unfoldable pub evaluate_window : Slo → List ℕ → ℕ → Window → CanaryDecision
evaluate_window slo steps weight w =
    if ltb w.requests slo.min_requests
    then record { action = hold; weight = weight; reason = few_requests w.requests }
    else if error_rate_above w slo.max_error_rate
    then record { action = rollback; weight = 0; reason = error_rate w.errors w.requests }
    else if ltb slo.max_p95_ms w.p95_ms
    then record { action = rollback; weight = 0; reason = latency w.p95_ms slo.max_p95_ms }
    else elim (next_step weight steps) [
      | none ↦ record { action = promote; weight = 100; reason = full_traffic }
      | some next ↦ record { action = promote; weight = next; reason = stepping_up }
    ]

pub data Final : Type 0 where
  promoted rolled_back on_hold : Final

pub record CanaryReport : Type 0 where
  pub image : String
  pub steps : List ℕ
  pub decisions : List CanaryDecision
  pub final : Final

-- `weight == self.steps[-1]`
abbrev pub is_weight : Option ℕ → ℕ → Bool
is_weight none weight = false
is_weight (some top) weight = weight == top

abbrev pub is_top : List ℕ → ℕ → Bool
is_top steps weight = is_weight (last? steps) weight

-- The weight of the next round: a promotion changes it.
abbrev pub next_weight : CanaryAction → ℕ → ℕ → ℕ
next_weight promote weight decided = decided
next_weight hold weight decided = weight
next_weight rollback weight decided = weight

-- What a round makes of the rest of the loop, which an early return drops.
abbrev pub settle :
    CanaryAction → Bool → CanaryDecision → List CanaryDecision × Final → List CanaryDecision × Final
settle rollback top d rest = (d ∷ [], rolled_back)
settle promote top d rest = if top then (d ∷ [], promoted) else (d ∷ rest.0, rest.1)
settle hold top d rest = (d ∷ rest.0, rest.1)

-- The loop of `simulate` from a weight: the decisions it takes, and the final word.
unfoldable pub climb : Slo → List ℕ → ℕ → List Window → List CanaryDecision × Final
climb slo steps weight [] = ([], on_hold)
climb slo steps weight (w ∷ ws) =
    let d = evaluate_window slo steps weight w in
    settle d.action (is_top steps weight) d
      (climb slo steps (next_weight d.action weight d.weight) ws)

-- `CanaryController.simulate`; an empty ladder is an index error.
unfoldable pub simulate : Slo → List ℕ → String → List Window → Result CanaryReport
simulate slo [] image windows = err (value_error "list index out of range")
simulate slo (first ∷ rest) image windows =
    let run = climb slo (first ∷ rest) first windows in
    ok (record { image = image; steps = first ∷ rest; decisions = run.0; final = run.1 })

-- `CanaryController.deploy`
unfoldable pub deploy : Policy → String → Result (Unit {0})
deploy p image =
    let decision = authority p "deploy_production" in
    if not decision.allowed
    then err (authority_denied (join "; " decision.reasons))
    else err (not_implemented "deployment backends are not part of this release")
