-- ===== src/Agent/Submission.antt =====
-- What a submitted run guarantees: both gates approved, and the stored evaluation passed.
use autonomous_software_engi.Prelude.{◌≡◌, sym, ap, ◌∙◌, ◌⊎◌, inl, inr, true, some, List}
use autonomous_software_engi.Exec.{
  Exec, Ensures, Ensures-bind, Ensures-pure, Ensures-given, Ensures-weaken, Ensures-if_eq,
}
use autonomous_software_engi.Agent.State.{AgentState, Update, write, merge}
use autonomous_software_engi.Agent.Services.{Services, Platform}
use autonomous_software_engi.Agent.Planning.{
  intake, retrieve, propose_plan, apply_plan_decision, decision_or_automatic, is_approved,
}
use autonomous_software_engi.Agent.Preparing.{create_workspace}
use autonomous_software_engi.Agent.Deliver.{
  apply_pr_decision, open_draft_pr, to_end, route_after_plan_decision, route_after_pr_decision,
}
use autonomous_software_engi.Agent.Runner.{Gate, max_loops, advance, decide, finish, build, run}
use autonomous_software_engi.Agent.Tracking.{Stored, Quiet-Ensures, call-Quiet}
use autonomous_software_engi.Agent.Judging.{Verified}
use autonomous_software_engi.Agent.Loop.{rounds-Looped}
use autonomous_software_engi.Agent.SameRun.{SameRun, merge-SameRun, Stored-move, advance-Ensures}
use autonomous_software_engi.Agent.Gates.{
  Configured, Prepared, Reviewed, PrReviewed, Opened, intake-Prepared, retrieve-Prepared,
  propose_plan-Prepared, create_workspace-Prepared, apply_plan_decision-Reviewed,
  apply_pr_decision-PrReviewed, open_draft_pr-Opened,
}
use autonomous_software_engi.Agent.Routes.{
  rejected-not_submitted, gave_up-not_submitted, pr_end, plan_end, Ensures-route, Ready,
  WithinLoops, WithinLoops-move, WithinLoops-Ready,
}

-- Both gates approved, and the evaluation that the store holds for the run passed.
pub record Guaranteed {W : Type 0} (t : AgentState) (p : Platform W) : Type 0 where
  pub plan : is_approved (decision_or_automatic t.plan_decision) ≡ true
  pub pr : is_approved (decision_or_automatic t.pr_decision) ≡ true
  pub stored : Stored t.run_id Verified p

-- The final state, if it says `submitted`, is guaranteed.
abbrev pub Submits : {W : Type 0} → AgentState → Platform W → Type 0
Submits t p = t.outcome ≡ some "submitted" → Guaranteed t p

module _ {W I : Type 0} (services : Services W I) where
  -- Behind the gate of the pull request.
  delivered-Submits :
      (d s : AgentState)
      → SameRun d s
      → is_approved (decision_or_automatic d.plan_decision) ≡ true
      → (route_after_pr_decision s ≡ to_end → ⊥)
      → Ensures (PrReviewed d s) (advance (open_draft_pr services) s) Submits
  delivered-Submits d s same plan goes = record {
    at = λ p p' u h e.
        let (same', opened) =
          (advance-Ensures {P = PrReviewed d s} {Q = λ t p. SameRun s t × Opened s t p}
              (open_draft_pr services) s
              (Ensures-weaken _ (λ p h. Stored-move p same h.stored)
                (λ us p h. (merge-SameRun s us, h)) (open_draft_pr-Opened services s))).at
            p p' u h e in
        λ _. record {
          plan =
              ap (λ o. is_approved (decision_or_automatic o)) (opened.decided ∙ h.decided) ∙ plan;
          pr =
              ap (λ o. is_approved (decision_or_automatic o)) (opened.pr_decided ∙ h.pr_decided)
              ∙ approved h.verdict;
          stored = Stored-move p' same' opened.stored;
        };
  }
    where
      approved :
          (s.outcome ≡ some "rejected") ⊎ (is_approved (decision_or_automatic d.pr_decision) ≡ true)
          → is_approved (decision_or_automatic d.pr_decision) ≡ true
      approved (inl h) = absurd (goes ((pr_end s).1 h))
      approved (inr h) = h

  finish-Submits :
      (gate : Gate W) (s : AgentState)
      → is_approved (decision_or_automatic s.plan_decision) ≡ true
      → Ensures (Stored s.run_id Verified) (finish services gate s) Submits
  unfolding finish decide merge write
  finish-Submits gate s plan =
      Ensures-bind _ _
        (Ensures-bind {R = λ d p. Stored s.run_id Verified p} _ _ (Quiet-Ensures (call-Quiet _))
          λ d.
            Ensures-pure
              {Q = λ t p.
                (is_approved (decision_or_automatic t.plan_decision) ≡ true)
                × Stored t.run_id Verified p}
              _ λ p h. (plan, h))
        λ d. Ensures-given _ λ plan'.
          Ensures-bind _ _
            (advance-Ensures {Q = λ t p. SameRun d t × PrReviewed d t p}
              (apply_pr_decision services) d
              (Ensures-weaken _ (λ p h. h) (λ us p h. (merge-SameRun d us, h))
                (apply_pr_decision-PrReviewed services d)))
            λ t. Ensures-given _ λ same.
              Ensures-route (route_after_pr_decision t) _ _
                (λ e. Ensures-pure _ λ p h k. absurd (rejected-not_submitted ((pr_end t).0 e) k))
                (λ goes. delivered-Submits d t same plan' goes)

  -- A node that only prepares leaves the state ready for the next.
  prepare-Ready :
      {P : Platform W → Type 0} (node : AgentState → Exec (Platform W) (List Update))
      (s : AgentState)
      → Ensures P (node s) (λ us p. Prepared s (merge s us) p)
      → Ensures P (advance node s) (λ t p. Ready s t × Configured t p)
  prepare-Ready node s h = advance-Ensures node s (
      Ensures-weaken _ (λ p h. h)
        (λ us p h.
          let same = merge-SameRun s us in
          let (r, there, key, config) = Stored-move p same h.stored in
          (
            record {
              same = same;
              iteration = h.iteration;
              outcome = h.outcome;
              decided = h.decided;
            },
            (r, there, key, config ∙ sym same.config),
          ))
        h)

  build-Submits :
      (gate : Gate W) (s : AgentState)
      → WithinLoops s
      → is_approved (decision_or_automatic s.plan_decision) ≡ true
      → (s.outcome ≡ some "submitted" → ⊥)
      → Ensures (Configured s) (build services gate s) Submits
  unfolding build
  build-Submits gate s within plan fresh =
      Ensures-bind _ _
        (prepare-Ready (create_workspace services) s (create_workspace-Prepared services s))
        λ t. Ensures-given _ λ ready.
          let within' = WithinLoops-Ready s t ready within in
          Ensures-bind _ _ (rounds-Looped services max_loops t within'.0 within'.1) λ end.
            Ensures-if_eq end.1 _ _
              (λ _. Ensures-pure _ λ p h k. absurd (unsubmitted t end.0 ready h.outcome k))
              (λ falls. record {
                at = λ p p' u h e.
                    (finish-Submits gate end.0 (
                        ap (λ o. is_approved (decision_or_automatic o)) (h.decided ∙ ready.decided)
                        ∙ plan)).at
                      p p' u (Stored-move p h.same (h.verified falls)) e;
              })
    where
      unsubmitted :
          (t u : AgentState)
          → Ready s t
          → (u.outcome ≡ some "gave_up") ⊎ (u.outcome ≡ t.outcome)
          → u.outcome ≡ some "submitted"
          → ⊥
      unsubmitted t u ready (inl e) k = gave_up-not_submitted e k
      unsubmitted t u ready (inr e) k = fresh (sym ready.outcome ∙ sym e ∙ k)

  -- A state behind the plan's gate.
  Reviewed-Submits :
      (gate : Gate W) (s t : AgentState)
      → WithinLoops s
      → (s.outcome ≡ some "submitted" → ⊥)
      → SameRun s t
      → (route_after_plan_decision t ≡ to_end → ⊥)
      → Ensures (Reviewed s t) (build services gate t) Submits
  Reviewed-Submits gate s t within fresh same goes = record {
    at = λ p p' u h e.
        let (approved, kept) = verdict h.verdict in
        let (r, there, key, config) = Stored-move p same h.stored in
        (build-Submits gate t (WithinLoops-move s t h.iteration same.config within)
            (ap (λ o. is_approved (decision_or_automatic o)) h.decided ∙ approved)
            (λ k. fresh (sym kept ∙ k))).at
          p p' u (r, there, key, config ∙ sym same.config) e;
  }
    where
      verdict :
          (t.outcome ≡ some "rejected")
            ⊎ ((is_approved (decision_or_automatic s.plan_decision) ≡ true)
                × (t.outcome ≡ s.outcome))
          → (is_approved (decision_or_automatic s.plan_decision) ≡ true) × (t.outcome ≡ s.outcome)
      verdict (inl e) = absurd (goes ((plan_end t).1 e))
      verdict (inr h) = h

  -- The plan's gate changes nothing else.
  decide_plan :
      (gate : Gate W) (s : AgentState)
      → WithinLoops s
      → (s.outcome ≡ some "submitted" → ⊥)
      → Ensures
          (Configured s)
          (decide gate "plan" Update.plan_decision s)
          (λ t p. (WithinLoops t × (t.outcome ≡ some "submitted" → ⊥)) × Configured t p)
  unfolding decide merge write
  decide_plan gate s within fresh =
      Ensures-bind {R = λ _ p. Configured s p} _ _ (Quiet-Ensures (call-Quiet _))
        λ d. Ensures-pure _ λ p h. ((within, fresh), h)

  -- For a stored run, a state that is not yet submitted, and a budget whose iterations left are
  -- some and fit the runner's rounds: if the run returns and its final state says `submitted`, the
  -- decisions on the plan and on the pull request both approve, and the store holds the run with
  -- an evaluation that passed. Nothing is assumed of the collaborators.
  pub run-Submits :
      (gate : Gate W) (s : AgentState)
      → WithinLoops s
      → (s.outcome ≡ some "submitted" → ⊥)
      → Ensures (Stored s.run_id (λ r. Unit {0})) (run services gate s) Submits
  unfolding run
  run-Submits gate s within fresh =
      Ensures-bind _ _ (prepare-Ready (intake services) s (intake-Prepared services s)) λ a.
        Ensures-given _ λ ra.
          Ensures-bind _ _ (prepare-Ready (retrieve services) a (retrieve-Prepared services a)) λ b.
            Ensures-given _ λ rb.
              Ensures-bind _ _
                (prepare-Ready (propose_plan services) b (propose_plan-Prepared services b))
                λ c. Ensures-given _ λ rc.
                  let within' =
                    WithinLoops-Ready b c rc
                      (WithinLoops-Ready a b rb (WithinLoops-Ready s a ra within)) in
                  Ensures-bind _ _
                    (decide_plan gate c within'
                      (λ e. fresh (sym ra.outcome ∙ sym rb.outcome ∙ sym rc.outcome ∙ e)))
                    λ d.
                      Ensures-given _ λ (kept : WithinLoops d × (d.outcome ≡ some "submitted" → ⊥)).
                        Ensures-bind _ _
                          (advance-Ensures {Q = λ t p. SameRun d t × Reviewed d t p}
                            (apply_plan_decision services) d
                            (Ensures-weaken _ (λ p h. h) (λ us p h. (merge-SameRun d us, h))
                              (apply_plan_decision-Reviewed services d)))
                          λ t. Ensures-given _ λ same.
                            Ensures-route (route_after_plan_decision t) _ _
                              (λ e.
                                Ensures-pure _
                                  λ p h k. absurd (rejected-not_submitted ((plan_end t).0 e) k))
                              (λ goes. Reviewed-Submits gate d t kept.0 kept.1 same goes)
