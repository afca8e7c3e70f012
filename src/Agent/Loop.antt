-- ===== src/Agent/Loop.antt =====
-- The loop of the runner: enough rounds for the budget end it by a verdict.
use autonomous_software_engi.Prelude.{
  ℕ, zero, suc, ◌+◌, ◌≤◌, ◌<◌, String, ◌≡◌, refl, sym, ◌∙◌, subst, ◌⊎◌, inl, inr, Bool, true, false,
  Option, some, List, arith,
}
use mathlib.Core.Path.{subst₂}
use autonomous_software_engi.Exec.{
  Exec, Ensures, Ensures-bind, Ensures-pure, Ensures-given, Ensures-weaken, pure,
}
use autonomous_software_engi.Contracts.Types.{RunConfig}
use autonomous_software_engi.Agent.State.{AgentState, Update, merge}
use autonomous_software_engi.Agent.Services.{Services, Platform}
use autonomous_software_engi.Agent.Implement.{implement}
use autonomous_software_engi.Agent.Verify.{verify}
use autonomous_software_engi.Agent.Reflect.{reflect}
use autonomous_software_engi.Agent.Deliver.{
  Route, to_implement, to_pr_gate, to_workspace, to_delivery, to_end, route_after_reflect,
}
use autonomous_software_engi.Agent.Runner.{advance, round, rounds}
use autonomous_software_engi.Agent.Tracking.{Stored}
use autonomous_software_engi.Agent.Judging.{Verified}
use autonomous_software_engi.Agent.Promotion.{Reflected, reflect-Reflected}
use autonomous_software_engi.Agent.Rounds.{InStep, implement-Implemented, verify-Checked}
use autonomous_software_engi.Agent.SameRun.{
  SameRun, SameRun-trans, merge-SameRun, Stored-move, Stored-back, InStep-move, advance-Ensures,
}

not_workspace : (t : AgentState) → route_after_reflect t ≡ to_workspace → ⊥
unfolding route_after_reflect
not_workspace t e = ground arith

not_delivery : (t : AgentState) → route_after_reflect t ≡ to_delivery → ⊥
unfolding route_after_reflect
not_delivery t e = ground arith

-- What a round makes of the state and the stored run.
pub record Rounded {W : Type 0} (s t : AgentState) (p : Platform W) : Type 0 where
  pub same : SameRun s t
  pub promoted : route_after_reflect t ≡ to_pr_gate → Stored t.run_id Verified p
  pub again :
      route_after_reflect t ≡ to_implement
      → Stored t.run_id (λ r. r.config ≡ t.config) p
        × (s.iteration + 1 < t.config.budget.max_iterations)
  pub iteration : t.iteration ≡ s.iteration + 1
  pub outcome : (t.outcome ≡ some "gave_up") ⊎ (t.outcome ≡ s.outcome)
  pub decided : t.plan_decision ≡ s.plan_decision

-- The state inside a round, before its verdict.
record Begun (s t : AgentState) : Type 0 where
  same : SameRun s t
  iteration : t.iteration ≡ s.iteration + 1
  outcome : t.outcome ≡ s.outcome
  decided : t.plan_decision ≡ s.plan_decision

module _ {W I : Type 0} (services : Services W I) where
  after_implement :
      (s : AgentState)
      → Ensures
          (Stored s.run_id (λ r. r.config ≡ s.config))
          (advance (implement services) s)
          (λ t p. Begun s t × Stored t.run_id (InStep t t.iteration) p)
  after_implement s = advance-Ensures (implement services) s (
      Ensures-weaken _ (λ p h. h)
        (λ us p h.
          let same = merge-SameRun s us in
          (
            record {
              same = same;
              iteration = h.iteration;
              outcome = h.outcome;
              decided = h.decided;
            },
            InStep-move s (merge s us) _ _ p same (sym h.iteration) h.stored,
          ))
        (implement-Implemented services s))

  after_verify :
      (s t : AgentState)
      → Begun s t
      → Ensures
          (Stored t.run_id (InStep t t.iteration))
          (advance (verify services) t)
          (λ u p. Begun s u × Stored u.run_id (InStep u u.iteration) p)
  after_verify s t b = advance-Ensures (verify services) t (
      Ensures-weaken _ (λ p h. h)
        (λ us p h.
          let same = merge-SameRun t us in
          (
            record {
              same = SameRun-trans b.same same;
              iteration = h.iteration ∙ b.iteration;
              outcome = h.outcome ∙ b.outcome;
              decided = h.decided ∙ b.decided;
            },
            InStep-move t (merge t us) _ _ p same (sym h.iteration) h.stored,
          ))
        (verify-Checked services t))

  Rounded-Reflected :
      (s u : AgentState) (us : List Update) (p : Platform W)
      → Begun s u
      → Reflected u (merge u us) p
      → Rounded s (merge u us) p
  Rounded-Reflected s u us p b h =
      let same = merge-SameRun u us in
      record {
        same = SameRun-trans b.same same;
        promoted = λ r. Stored-move p same (h.promoted r);
        again = λ r.
            let (stored, within) = h.again r in
            let (run, there, key, config) = Stored-move p same stored in
            (
              (run, there, key, config ∙ sym same.config),
              subst₂ (λ (i : ℕ) (c : RunConfig). i < c.budget.max_iterations) b.iteration
                  (sym same.config) within,
            );
        iteration = h.iteration ∙ b.iteration;
        outcome = outcome h.outcome;
        decided = h.decided ∙ b.decided;
      }
    where
      outcome :
          ((merge u us).outcome ≡ some "gave_up") ⊎ ((merge u us).outcome ≡ u.outcome)
          → ((merge u us).outcome ≡ some "gave_up") ⊎ ((merge u us).outcome ≡ s.outcome)
      outcome (inl e) = inl e
      outcome (inr e) = inr (e ∙ b.outcome)

  round-Rounded :
      (s : AgentState)
      → Ensures (Stored s.run_id (λ r. r.config ≡ s.config)) (round services s) (Rounded s)
  unfolding round
  round-Rounded s = Ensures-bind _ _ (after_implement s) λ t. Ensures-given _ λ begun.
      Ensures-bind _ _ (after_verify s t begun) λ u. Ensures-given _ λ begun'.
        advance-Ensures (reflect services) u (
          Ensures-weaken _ (λ p h. h) (λ us p h. Rounded-Reflected s u us p begun' h)
            (reflect-Reflected services u))

-- How the loop ends: by a run that failed, or at the gate with a passed evaluation.
pub record Looped {W : Type 0} (s : AgentState) (end : AgentState × Bool) (p : Platform W)
    : Type 0 where
  pub same : SameRun s end.0
  pub verified : end.1 ≡ false → Stored s.run_id Verified p
  pub outcome : (end.0.outcome ≡ some "gave_up") ⊎ (end.0.outcome ≡ s.outcome)
  pub decided : end.0.plan_decision ≡ s.plan_decision

-- Outcomes of consecutive rounds.
outcome_trans :
    (a b c : Option String)
    → (c ≡ some "gave_up") ⊎ (c ≡ b)
    → (b ≡ some "gave_up") ⊎ (b ≡ a)
    → (c ≡ some "gave_up") ⊎ (c ≡ a)
outcome_trans a b c (inl e) h = inl e
outcome_trans a b c (inr e) (inl f) = inl (e ∙ f)
outcome_trans a b c (inr e) (inr f) = inr (e ∙ f)

Looped-Rounded :
    {W : Type 0} {s t : AgentState} {end : AgentState × Bool} {p p' : Platform W}
    → Rounded s t p
    → Looped t end p'
    → Looped s end p'
Looped-Rounded {s = s} {t = t} {end = end} {p' = p'} h k = record {
  same = SameRun-trans h.same k.same;
  verified = λ e. Stored-back p' h.same (k.verified e);
  outcome = outcome_trans s.outcome t.outcome end.0.outcome k.outcome h.outcome;
  decided = k.decided ∙ h.decided;
}

module _ {W I : Type 0} (services : Services W I) where
  -- The rest of the loop, for the state after a round and its route.
  by_route :
      (s t : AgentState) (again : Exec (Platform W) (AgentState × Bool))
      → ((p : Platform W)
          → Rounded s t p
          → route_after_reflect t ≡ to_implement
          → Ensures (Stored t.run_id (λ r. r.config ≡ t.config)) again (Looped t))
      → (r : Route) → route_after_reflect t ≡ r
      → Ensures {S = Platform W} {A = AgentState × Bool}
          (Rounded s t)
          (elim r [ to_implement ↦ again | to_end ↦ pure (t, true) | _ ↦ pure (t, false) ])
          (Looped s)
  by_route s t again k to_implement e = record {
    at = λ p p' end h run. Looped-Rounded h ((k p h e).at p p' end (h.again e).0 run);
  }
  by_route s t again k to_end e =
      Ensures-pure _ λ p h. record {
        same = h.same;
        verified = λ x. cc;
        outcome = h.outcome;
        decided = h.decided;
      }
  by_route s t again k to_pr_gate e = Ensures-pure _ λ p h. record {
    same = h.same;
    verified = λ x. Stored-back p h.same (h.promoted e);
    outcome = h.outcome;
    decided = h.decided;
  }
  by_route s t again k to_workspace e = absurd (not_workspace t e)
  by_route s t again k to_delivery e = absurd (not_delivery t e)

  -- For a stored run with the state's configuration, with iterations left and at least as many
  -- rounds as the budget leaves: a loop that returns ends in a run that gave up or keeps its
  -- outcome, and where it leaves for the gate of the pull request the store holds a passed
  -- evaluation.
  pub rounds-Looped :
      (n : ℕ) (s : AgentState)
      → s.config.budget.max_iterations ≤ s.iteration + n
      → s.iteration < s.config.budget.max_iterations
      → Ensures (Stored s.run_id (λ r. r.config ≡ s.config)) (rounds services n s) (Looped s)
  unfolding rounds
  rounds-Looped zero s enough left = absurd (omega arith)
  rounds-Looped (suc n) s enough left = Ensures-bind _ _ (round-Rounded services s) λ t.
      by_route s t (rounds services n t)
        (λ p h e.
          rounds-Looped n t
            (subst₂ (λ (i : ℕ) (c : RunConfig). c.budget.max_iterations ≤ i + n) (sym h.iteration)
              (sym h.same.config) (omega arith))
            (subst (λ (i : ℕ). i < t.config.budget.max_iterations) (sym h.iteration) (h.again e).1))
        (route_after_reflect t) refl
