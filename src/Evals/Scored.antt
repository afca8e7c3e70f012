-- ===== src/Evals/Scored.antt =====
-- What the score of a run that the orchestrator keeps says.
use autonomous_software_engi.Prelude.{
  ℕ, ◌+◌, ◌≤◌, String, ◌≡◌, refl, ap, ◌∙◌, subst, ◌↔◌, ◌⊎◌, inl, inr, true, some, List, [], ◌∷◌,
  arith,
}
use autonomous_software_engi.Prelude.Dict.{lookup}
use autonomous_software_engi.Contracts.Types.{RunState, RunEvent, await_pr_approval, open_draft_pr}
use autonomous_software_engi.Contracts.Run.{AgentRun}
use autonomous_software_engi.Store.{get, empty_store}
use autonomous_software_engi.Orchestrator.Reachable.{
  Numbered, Verified, Evidence, IsSound, AllSound, Request, serve, serve-AllSound,
}
use autonomous_software_engi.Evals.Score.{
  TrajectoryScore, score_trajectory, score_total, in_order, report_passed,
}

-- The numbers are in order exactly if they are consecutive.
pub in_order-Numbered :
    (n : ℕ) (events : List RunEvent) → (in_order n events ≡ true) ↔ Numbered n events
unfolding in_order
in_order-Numbered n [] = ((λ h. tt), (λ h. refl))
in_order-Numbered n (e ∷ events) =
    let ih = in_order-Numbered (n + 1) events in
    ((λ h. (ground arith, ih.0 (ground arith))), (λ h. ground (arith, h.0, ih.1 h.1)))

-- The states behind the verification of the patch.
abbrev pub AfterVerification : RunState → Type 0
AfterVerification s = (s ≡ await_pr_approval) ⊎ (s ≡ open_draft_pr)

at_gate : (s : RunState) (run : AgentRun) → AfterVerification s → Evidence s run → Verified run
at_gate s run (inl e) h = (subst (λ x. Evidence x run) e h).1
at_gate s run (inr e) h = (subst (λ x. Evidence x run) e h).1

-- What a score is worth at least.
pub record WellScored (run : AgentRun) : Type 0 where
  pub valid : (score_trajectory run).state_validity ≡ true
  pub verified : AfterVerification run.state → (score_trajectory run).evaluation_passed ≡ true
  pub at_least : AfterVerification run.state → 6_000 ≤ score_total (score_trajectory run)
  pub at_most : score_total (score_trajectory run) ≤ 10_000

score_total-bounds :
    (s : TrajectoryScore)
    → s.evidence_thirds ≤ 3
    → (score_total s ≤ 10_000)
      × (s.state_validity ≡ true → s.evaluation_passed ≡ true → 6_000 ≤ score_total s)
unfolding score_total
score_total-bounds s h = (ground (arith, h), λ v p. ground (arith, v, p))

IsSound-WellScored : (run : AgentRun) → IsSound run → WellScored run
unfolding score_trajectory
IsSound-WellScored run h =
    let valid = (in_order-Numbered 1 run.events).1 h.numbered in
    let thirds : (score_trajectory run).evidence_thirds ≤ 3 = ground arith in
    let bounds = score_total-bounds (score_trajectory run) thirds in
    let passed : AfterVerification run.state → (score_trajectory run).evaluation_passed ≡ true =
      λ a.
        let (report, is, ok_report) = at_gate run.state run a h.evidence in
        ap report_passed is ∙ ok_report in
    record {
      valid = valid;
      verified = passed;
      at_least = λ a. bounds.1 valid (passed a);
      at_most = bounds.0;
    }

empty-AllSound : AllSound empty_store
unfolding get lookup
empty-AllSound = record { at = λ run_id run e. cc }

-- After any requests to the orchestrator from an empty store, every stored run scores as valid, one
-- that has come to the approval of its pull request scores as passed and at least 0.6 in total, and
-- none above 1.
pub serve-WellScored :
    (requests : List Request) (run_id : String) (run : AgentRun)
    → get run_id (serve requests empty_store) ≡ some run
    → WellScored run
serve-WellScored requests run_id run e =
    IsSound-WellScored run ((serve-AllSound requests empty_store empty-AllSound).at run_id run e)
