-- ===== src/Contracts/Tests.antt =====
-- The theorem on budgets at a concrete run.
use autonomous_software_engi.Prelude.{◌≡◌, ◌↔◌, none}
use autonomous_software_engi.Contracts.Run.{budget_exceeded}
use autonomous_software_engi.Contracts.Limits.{WithinBudget, budget_exceeded-WithinBudget}
use autonomous_software_engi.Agent.Example.{example_run}

budget_exceeded-WithinBudget_example :
    (budget_exceeded example_run 1000 ≡ none) ↔ WithinBudget example_run 1000
budget_exceeded-WithinBudget_example = budget_exceeded-WithinBudget example_run 1000
