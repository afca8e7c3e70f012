-- ===== src/Agent/Gates.antt =====
-- What each node outside the loop keeps of what the guarantee on a submitted run rests on, node by node.
use autonomous_software_engi.Prelude.{
  ◌≡◌, refl, sym, ◌∙◌, subst, ◌⊎◌, inl, inr, Bool, true, Option, none, some, [], arith,
}
use autonomous_software_engi.Exec.{
  Ensures, Ensures-bind, Ensures-after, Ensures-pure, Ensures-given, Ensures-known, Ensures-weaken,
  Ensures-if, Ensures-if_eq, Anything,
}
use autonomous_software_engi.Contracts.Types.{RunState}
use autonomous_software_engi.Contracts.Run.{AgentRun}
use autonomous_software_engi.Store.{get}
use autonomous_software_engi.Agent.State.{AgentState, merge}
use autonomous_software_engi.Agent.Services.{Services, Platform}
use autonomous_software_engi.Agent.Steps.{Event, save_run}
use autonomous_software_engi.Agent.Planning.{
  intake, retrieve, propose_plan, apply_plan_decision, decision_or_automatic, is_approved, marked,
}
use autonomous_software_engi.Agent.Preparing.{create_workspace}
use autonomous_software_engi.Agent.Deliver.{apply_pr_decision, open_draft_pr}
use autonomous_software_engi.Agent.Runner.{run}
use autonomous_software_engi.Agent.Tracking.{
  Like, Like-refl, saved-Like, Stored, run_of-Ensures, save_run-Ensures, Quiet-Ensures, ask-Quiet,
}
use autonomous_software_engi.Agent.Judging.{Verified, record_step-Like}
use autonomous_software_engi.Agent.Promotion.{save_run-Stored, Verified-Like, cleanup-Quiet}

-- The configuration of the state is the stored run's.
abbrev pub Configured : {W : Type 0} → AgentState → Platform W → Type 0
Configured s p = Stored s.run_id (λ r. r.config ≡ s.config) p

-- A node that only prepares: it leaves what the loop and the gates depend on.
pub record Prepared {W : Type 0} (s t : AgentState) (p : Platform W) : Type 0 where
  pub iteration : t.iteration ≡ s.iteration
  pub outcome : t.outcome ≡ s.outcome
  pub decided : t.plan_decision ≡ s.plan_decision
  pub stored : Configured s p

-- The plan's verdict: an approved one goes on, any other ends in a rejection.
pub record Reviewed {W : Type 0} (s t : AgentState) (p : Platform W) : Type 0 where
  pub iteration : t.iteration ≡ s.iteration
  pub decided : t.plan_decision ≡ s.plan_decision
  pub stored : Configured s p
  pub verdict :
      (t.outcome ≡ some "rejected")
      ⊎ ((is_approved (decision_or_automatic s.plan_decision) ≡ true) × (t.outcome ≡ s.outcome))

-- The verdict on the pull request keeps the stored evaluation.
pub record PrReviewed {W : Type 0} (s t : AgentState) (p : Platform W) : Type 0 where
  pub decided : t.plan_decision ≡ s.plan_decision
  pub pr_decided : t.pr_decision ≡ s.pr_decision
  pub stored : Stored s.run_id Verified p
  pub verdict :
      (t.outcome ≡ some "rejected") ⊎ (is_approved (decision_or_automatic s.pr_decision) ≡ true)

-- A draft pull request is opened for the verified run, which completes.
pub record Opened {W : Type 0} (s t : AgentState) (p : Platform W) : Type 0 where
  pub decided : t.plan_decision ≡ s.plan_decision
  pub pr_decided : t.pr_decision ≡ s.pr_decision
  pub stored : Stored s.run_id Verified p

marked-Like : (approve : Bool) (r : AgentRun) → Like r (marked approve r)
unfolding marked
marked-Like approve r = ground arith

module _ {W I : Type 0} (services : Services W I) where
  -- A save of a run with the state's configuration.
  save_run-Configured :
      {P : Platform W → Type 0} (state : AgentState) (s : Option RunState) (e : Option Event)
      (run : AgentRun)
      → run.id ≡ state.run_id
      → run.config ≡ state.config
      → Ensures P (save_run services s e run) (λ _ p. Configured state p)
  save_run-Configured state s e run key config =
      Ensures-weaken _ (λ p h. h) (λ _ p (r, there, k, like). (r, there, k, like.config ∙ config))
        (save_run-Stored services s e run run key (Like-refl run))

  -- The saved run keeps its id and its configuration.
  saved-Kept :
      (state : AgentState) (s : Option RunState) (e : Option Event) (run : AgentRun)
      → run.id ≡ state.run_id
      → run.config ≡ state.config
      → Ensures Anything
          (save_run services s e run)
          (λ saved p. (saved.id ≡ state.run_id) × (saved.config ≡ state.config))
  saved-Kept state s e run key config =
      Ensures-weaken _ (λ p h. h)
        (λ saved p h.
          let like = subst (Like run) (sym h.0) (saved-Like s e run) in
          (like.id ∙ key, like.config ∙ config))
        (save_run-Ensures services s e run)

  -- Both: what is known of the saved run, and that it is stored.
  save_run-Both :
      (state : AgentState) (s : Option RunState) (e : Option Event) (run : AgentRun)
      → run.id ≡ state.run_id
      → run.config ≡ state.config
      → Ensures Anything (save_run services s e run) (λ saved p.
        ((saved.id ≡ state.run_id) × (saved.config ≡ state.config)) × Configured state p)
  save_run-Both state s e run key config = record {
    at = λ p p' saved a h. (
      (saved-Kept state s e run key config).at p p' saved a h,
      (save_run-Configured {P = Anything} state s e run key config).at p p' saved a h,
    );
  }

  pub intake-Prepared :
      (s : AgentState)
      → Ensures
          (Stored s.run_id (λ r. Unit {0}))
          (intake services s)
          (λ us p. Prepared s (merge s us) p)
  unfolding intake merge
  intake-Prepared s = Ensures-bind _ _ (run_of-Ensures services s) λ run.
      Ensures-known _ λ (known : (run.id ≡ s.run_id) × Unit {0}). Ensures-after _ _ λ sha.
        Ensures-bind _ _ (save_run-Configured s _ _ _ known.0 refl) λ _.
          Ensures-bind _ _ (Quiet-Ensures (ask-Quiet _)) λ now.
            Ensures-pure _
              λ p h. record { iteration = refl; outcome = refl; decided = refl; stored = h }

  pub retrieve-Prepared :
      (s : AgentState)
      → Ensures (Configured s) (retrieve services s) (λ us p. Prepared s (merge s us) p)
  unfolding retrieve merge
  retrieve-Prepared s = Ensures-bind _ _ (run_of-Ensures services s) λ run.
      Ensures-known _ λ (known : (run.id ≡ s.run_id) × (run.config ≡ s.config)).
        Ensures-after _ _ λ index. Ensures-after _ _ λ found.
          Ensures-bind _ _ (save_run-Configured s _ _ _ known.0 known.1) λ _.
            Ensures-pure _
              λ p h. record { iteration = refl; outcome = refl; decided = refl; stored = h }

  pub propose_plan-Prepared :
      (s : AgentState)
      → Ensures (Configured s) (propose_plan services s) (λ us p. Prepared s (merge s us) p)
  unfolding propose_plan merge
  propose_plan-Prepared s = Ensures-bind _ _ (run_of-Ensures services s) λ run.
      Ensures-known _ λ (known : (run.id ≡ s.run_id) × (run.config ≡ s.config)).
        Ensures-after _ _ λ completion.
          Ensures-bind _ _
            (record_step-Like services run "plan" s.config.planner_model completion [])
            λ stepped. Ensures-known _ λ like. Ensures-after _ _ λ parsed.
              Ensures-bind {R = λ saved p. (saved.id ≡ s.run_id) × (saved.config ≡ s.config)} _ _
                (saved-Kept s _ _ _ (like.id ∙ known.0) (like.config ∙ known.1))
                λ saved.
                  Ensures-known _ λ (kept : (saved.id ≡ s.run_id) × (saved.config ≡ s.config)).
                    Ensures-bind _ _ (save_run-Configured s _ _ _ kept.0 kept.1) λ _.
                      Ensures-pure _ λ p h. record {
                        iteration = refl;
                        outcome = refl;
                        decided = refl;
                        stored = h;
                      }

  pub create_workspace-Prepared :
      (s : AgentState)
      → Ensures (Configured s) (create_workspace services s) (λ us p. Prepared s (merge s us) p)
  unfolding create_workspace merge
  create_workspace-Prepared s = Ensures-bind _ _ (run_of-Ensures services s) λ run.
      Ensures-known _ λ (known : (run.id ≡ s.run_id) × (run.config ≡ s.config)).
        Ensures-after _ _ λ path. Ensures-after _ _ λ prepared.
          Ensures-bind _ _ (save_run-Configured s _ _ _ known.0 known.1) λ _.
            Ensures-pure _
              λ p h. record { iteration = refl; outcome = refl; decided = refl; stored = h }

  save_run-Verified :
      {P : Platform W → Type 0} (state : AgentState) (s : Option RunState) (e : Option Event)
      (run : AgentRun)
      → run.id ≡ state.run_id
      → Verified run
      → Ensures P
          (save_run services s e run)
          (λ saved p. ((saved.id ≡ state.run_id) × Verified saved) × Stored state.run_id Verified p)
  save_run-Verified {P} state s e run key verified = record {
    at = λ p p' saved a h.
        let (same, there) = (save_run-Ensures services {P = P} s e run).at p p' saved a h in
        let like = subst (Like run) (sym same) (saved-Like s e run) in
        (
          (like.id ∙ key, Verified-Like like verified),
          (
            saved,
            subst (λ i. get i p'.store ≡ some saved) key there,
            like.id ∙ key,
            Verified-Like like verified,
          ),
        );
  }

  pub apply_plan_decision-Reviewed :
      (s : AgentState)
      → Ensures (Configured s) (apply_plan_decision services s) (λ us p. Reviewed s (merge s us) p)
  unfolding apply_plan_decision merge
  apply_plan_decision-Reviewed s = Ensures-bind _ _ (run_of-Ensures services s) λ run.
      Ensures-known _ λ (known : (run.id ≡ s.run_id) × (run.config ≡ s.config)).
        let like = marked-Like (is_approved (decision_or_automatic s.plan_decision)) run in
        Ensures-bind _ _ (save_run-Both s _ _ _ (like.id ∙ known.0) (like.config ∙ known.1))
          λ saved. Ensures-given _ λ (kept : (saved.id ≡ s.run_id) × (saved.config ≡ s.config)).
            Ensures-if_eq _ _ _
              (λ yes'. Ensures-pure _ λ p h. record {
                iteration = refl;
                decided = refl;
                stored = h;
                verdict = inr (yes', refl);
              })
              (λ no'. Ensures-bind _ _ (save_run-Configured s none none _ kept.0 kept.1) λ _.
                Ensures-pure _ λ p h. record {
                  iteration = refl;
                  decided = refl;
                  stored = h;
                  verdict = inl refl;
                })

  pub apply_pr_decision-PrReviewed :
      (s : AgentState)
      → Ensures
          (Stored s.run_id Verified)
          (apply_pr_decision services s)
          (λ us p. PrReviewed s (merge s us) p)
  unfolding apply_pr_decision merge
  apply_pr_decision-PrReviewed s = Ensures-bind _ _ (run_of-Ensures services s) λ run.
      Ensures-known _ λ (known : (run.id ≡ s.run_id) × Verified run).
        Ensures-bind _ _ (save_run-Verified s _ _ _ known.0 known.1) λ saved.
          Ensures-given _ λ (kept : (saved.id ≡ s.run_id) × Verified saved).
            Ensures-if_eq _ _ _
              (λ yes'.
                Ensures-pure _ λ p h. record {
                  decided = refl;
                  pr_decided = refl;
                  stored = h;
                  verdict = inr yes';
                })
              (λ no'. Ensures-bind _ _ (save_run-Verified s none none _ kept.0 kept.1) λ _.
                Ensures-given _ λ _.
                  Ensures-bind _ _ (Quiet-Ensures (cleanup-Quiet services s)) λ _.
                    Ensures-pure _ λ p h. record {
                      decided = refl;
                      pr_decided = refl;
                      stored = h;
                      verdict = inl refl;
                    })

  pub open_draft_pr-Opened :
      (s : AgentState)
      → Ensures
          (Stored s.run_id Verified)
          (open_draft_pr services s)
          (λ us p. Opened s (merge s us) p)
  unfolding open_draft_pr merge
  open_draft_pr-Opened s = Ensures-bind _ _ (run_of-Ensures services s) λ run.
      Ensures-known _ λ (known : (run.id ≡ s.run_id) × Verified run). Ensures-after _ _ λ workspace.
        Ensures-if _ _ _
          (Ensures-bind _ _ (save_run-Verified s _ _ _ known.0 known.1) λ _.
            Ensures-given _
              λ _. Ensures-pure _ λ p h. record { decided = refl; pr_decided = refl; stored = h })
          (Ensures-after _ _ λ rows. Ensures-after _ _ λ published.
            Ensures-bind _ _ (save_run-Verified s _ _ _ known.0 known.1) λ _. Ensures-given _ λ _.
              Ensures-bind _ _ (Quiet-Ensures (cleanup-Quiet services s))
                λ _. Ensures-pure _ λ p h. record { decided = refl; pr_decided = refl; stored = h })
