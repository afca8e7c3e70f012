-- ===== src/Evals/Score.antt =====
-- evaluation.py: `score_trajectory`. The completeness is kept in thirds, and the total in
-- ten-thousandths, rounded as the code rounds it.
use autonomous_software_engi.Prelude.{
  ◌==◌, if◌then◌else◌, ℕ, ◌+◌, ◌*◌, ◌/◌, String, Bool, true, false, ◌&&◌, Option, none, some, List,
  [], ◌∷◌, map,
}
use autonomous_software_engi.Prelude.Text.{mem}
use autonomous_software_engi.Contracts.Types.{RunEvent, EvaluationReport}
use autonomous_software_engi.Contracts.Run.{AgentRun}

pub record TrajectoryScore : Type 0 where
  pub evidence_thirds : ℕ
  pub state_validity : Bool
  pub evaluation_passed : Bool

abbrev pub observed : List RunEvent → List String
observed events = map (λ (e : RunEvent). e.kind) events

abbrev one_if : Bool → ℕ
one_if b = if b then 1 else 0

-- `ordered == list(range(n, n + len(ordered)))`
unfoldable pub in_order : ℕ → List RunEvent → Bool
in_order n [] = true
in_order n (e ∷ events) = e.sequence == n && in_order (n + 1) events

abbrev pub report_passed : Option EvaluationReport → Bool
report_passed none = false
report_passed (some report) = report.passed

unfoldable pub score_trajectory : AgentRun → TrajectoryScore
unfolding in_order
score_trajectory run = record {
  evidence_thirds =
      one_if (mem "run_created" (observed run.events))
      + one_if (mem "context_retrieved" (observed run.events))
      + one_if (mem "plan_proposed" (observed run.events));
  state_validity = in_order 1 run.events;
  evaluation_passed = report_passed run.evaluation;
}

-- `TrajectoryScore.total`
unfoldable pub score_total : TrajectoryScore → ℕ
score_total s =
    (4_000 * s.evidence_thirds + 1) / 3
    + (if s.state_validity then 3_000 else 0)
    + (if s.evaluation_passed then 3_000 else 0)
