-- ===== src/Contracts/Limits.antt =====
-- The budget of a run: when it is not exceeded.
use autonomous_software_engi.Prelude.{ℕ, ◌+◌, ◌*◌, ◌<◌, ◌≡◌, ◌↔◌, none, arith}
use autonomous_software_engi.Contracts.Run.{AgentRun, budget_exceeded}

-- All four amounts are below their limits.
pub record WithinBudget (run : AgentRun) (elapsed_ms : ℕ) : Type 0 where
  pub iterations : run.iteration < run.config.budget.max_iterations
  pub tokens : run.prompt_tokens + run.output_tokens < run.config.budget.max_tokens
  pub cost : run.cost_usd < run.config.budget.max_usd
  pub time : elapsed_ms < run.config.budget.max_seconds * 1000

-- The budget is not exceeded exactly if iterations, tokens, cost and time are all below their limits.
pub budget_exceeded-WithinBudget :
    (run : AgentRun) (elapsed_ms : ℕ)
    → (budget_exceeded run elapsed_ms ≡ none) ↔ WithinBudget run elapsed_ms
unfolding budget_exceeded
budget_exceeded-WithinBudget run elapsed_ms = (
  λ h. record {
    iterations = ground arith;
    tokens = ground arith;
    cost = ground arith;
    time = ground arith;
  },
  λ h. ground (arith, h.iterations, h.tokens, h.cost, h.time),
)
