-- ===== src/Agent/Promotion.antt =====
-- The node `reflect` as a whole, by the route that it leads to.
use autonomous_software_engi.Prelude.{
  Bool-cases, ℕ, ◌<◌, String, ◌≡◌, refl, sym, ap, ◌∙◌, subst, ◌⊎◌, inl, inr, true, false, Option,
  some, List, arith, str_eq, eq_iff,
}
use mathlib.Core.Path.{subst₂}
use autonomous_software_engi.Exec.{
  Ensures, Ensures-bind, Ensures-after, Ensures-pure, Ensures-weaken, Ensures-known, Anything,
  ◌>>=◌,
}
use autonomous_software_engi.Contracts.Types.{RunState, RunConfig}
use autonomous_software_engi.Contracts.Run.{AgentRun}
use autonomous_software_engi.Store.{get}
use autonomous_software_engi.Agent.State.{AgentState, Update, merge}
use autonomous_software_engi.Agent.Services.{Services, Platform}
use autonomous_software_engi.Agent.Steps.{Event, save_run}
use autonomous_software_engi.Agent.Reflect.{Verdict, act, cleanup, reflect}
use autonomous_software_engi.Agent.Deliver.{to_implement, to_pr_gate, route_after_reflect}
use autonomous_software_engi.Agent.Tracking.{
  Like, Like-trans, saved-Like, Stored, run_of-Ensures, save_run-Ensures, Quiet, Quiet-Ensures,
}
use autonomous_software_engi.Agent.Judging.{Verified, Justified, judge-Ensures}

-- What `reflect` makes of the state and the stored run.
pub record Reflected {W : Type 0} (state st : AgentState) (p : Platform W) : Type 0 where
  pub promoted : route_after_reflect st ≡ to_pr_gate → Stored state.run_id Verified p
  pub again :
      route_after_reflect st ≡ to_implement
      → Stored state.run_id (λ r. r.config ≡ state.config) p
        × (state.iteration < state.config.budget.max_iterations)
  pub iteration : st.iteration ≡ state.iteration
  pub outcome : (st.outcome ≡ some "gave_up") ⊎ (st.outcome ≡ state.outcome)
  pub decided : st.plan_decision ≡ state.plan_decision

Like-outcome : (run : AgentRun) → Like run (record run { outcome = some "gave_up" })
Like-outcome run = record { id = refl; config = refl; iteration = refl; evaluation = refl }

submit_of_route :
    (st : AgentState) (d : String)
    → st.decision ≡ some d
    → route_after_reflect st ≡ to_pr_gate
    → str_eq d "submit" ≡ true
unfolding route_after_reflect
submit_of_route st d e h = ground arith

not_submit_of_route :
    (st : AgentState) (d : String)
    → st.decision ≡ some d
    → route_after_reflect st ≡ to_implement
    → str_eq d "submit" ≡ false
unfolding route_after_reflect
not_submit_of_route st d e h = ground arith

retry_of_route :
    (st : AgentState) (d : String)
    → st.decision ≡ some d
    → route_after_reflect st ≡ to_implement
    → str_eq d "retry" ≡ true
unfolding route_after_reflect
retry_of_route st d e h = ground arith

not_give_up : (d : String) → str_eq d "retry" ≡ true → str_eq d "give_up" ≡ false
not_give_up d h = subst (λ x. str_eq x "give_up" ≡ false) (sym ((eq_iff d "retry").0 h)) refl

pub Verified-Like : {a b : AgentRun} → Like a b → Verified a → Verified b
Verified-Like h (report, there, passed) = (report, h.evaluation ∙ there, passed)

module _ {W I : Type 0} (services : Services W I) where
  pub cleanup-Quiet : (state : AgentState) → Quiet (cleanup services state)
  unfolding cleanup ◌>>=◌
  cleanup-Quiet state = record { at = λ p. ground arith }

  -- A save leaves a run like the one in hand.
  pub save_run-Stored :
      {P : Platform W → Type 0} {id : String} (s : Option RunState) (e : Option Event)
      (base run : AgentRun)
      → run.id ≡ id
      → Like base run
      → Ensures P (save_run services s e run) (λ _ p. Stored id (Like base) p)
  save_run-Stored {P} {id} s e base run key like =
      Ensures-weaken (save_run services s e run) (λ p h. h)
        (λ saved p h. (
          saved,
          subst (λ i. get i p.store ≡ some saved) key h.1,
          ap (λ (r : AgentRun). r.id) h.0 ∙ (saved-Like s e run).id ∙ key,
          subst (Like base) (sym h.0) (Like-trans like (saved-Like s e run)),
        ))
        (save_run-Ensures services {P = P} s e run)

  -- What `act` leaves, for a verdict on a run like `base`.
  record Acted (state : AgentState) (base : AgentRun) (v : Verdict) (us : List Update)
      (p : Platform W) : Type 0 where
    stored : Stored state.run_id (Like base) p
    decision : (merge state us).decision ≡ some v.decision
    iteration : (merge state us).iteration ≡ state.iteration
    outcome :
        ((merge state us).outcome ≡ some "gave_up") ⊎ ((merge state us).outcome ≡ state.outcome)
    decided : (merge state us).plan_decision ≡ state.plan_decision

  act-Ensures :
      (state : AgentState) (base run : AgentRun) (v : Verdict)
      → run.id ≡ state.run_id
      → Like base run
      → Ensures Anything (act services state run v) (Acted state base v)
  unfolding act merge
  act-Ensures state base run v key like =
      go (Bool-cases (str_eq v.decision "submit")) (Bool-cases (str_eq v.decision "give_up"))
    where
      go :
          (str_eq v.decision "submit" ≡ true) ⊎ (str_eq v.decision "submit" ≡ false)
          → (str_eq v.decision "give_up" ≡ true) ⊎ (str_eq v.decision "give_up" ≡ false)
          → Ensures Anything (act services state run v) (Acted state base v)
      go (inl e) _ = rw e (
          Ensures-bind _ _ (save_run-Stored _ _ base run key like) λ saved. Ensures-pure _ λ p h.
            record {
              stored = h;
              decision = refl;
              iteration = refl;
              outcome = inr refl;
              decided = refl;
            })
      go (inr e) (inr g) =
          rw (e, g)
            (Ensures-bind _ _ (save_run-Stored _ _ base run key like) λ saved. Ensures-pure _ λ p h.
              record {
                stored = h;
                decision = refl;
                iteration = refl;
                outcome = inr refl;
                decided = refl;
              })
      go (inr e) (inl g) =
          rw (e, g)
            (Ensures-bind _ _ (save_run-Stored _ _ base _ key (Like-trans like (Like-outcome run)))
              λ saved. Ensures-bind _ _ (Quiet-Ensures (cleanup-Quiet state)) λ _.
                Ensures-pure _ λ p h. record {
                  stored = h;
                  decision = refl;
                  iteration = refl;
                  outcome = inl refl;
                  decided = refl;
                })

  Reflected-Acted :
      (state : AgentState) (run : AgentRun) (v : Verdict) (us : List Update) (p : Platform W)
      → run.config ≡ state.config
      → run.iteration ≡ state.iteration
      → Justified run v
      → Acted state run v us p
      → Reflected state (merge state us) p
  Reflected-Acted state run v us p cfg it just acted = record {
    promoted = λ h.
        let verified = just.submit (submit_of_route (merge state us) v.decision acted.decision h) in
        let (r, there, key, like) = acted.stored in (r, there, key, Verified-Like like verified);
    again = λ h.
        let within =
          just.retry (not_submit_of_route (merge state us) v.decision acted.decision h) (
            not_give_up v.decision (retry_of_route (merge state us) v.decision acted.decision h)) in
        let (r, there, key, like) = acted.stored in
        (
          (r, there, key, like.config ∙ cfg),
          subst₂ (λ (i : ℕ) (c : RunConfig). i < c.budget.max_iterations) it cfg within,
        );
    iteration = acted.iteration;
    outcome = acted.outcome;
    decided = acted.decided;
  }

  -- For a stored run with the state's configuration and iteration, and whatever the model answers:
  -- when `reflect` returns, the state routes to the gate of the pull request only if the store
  -- holds the run with a passed evaluation, and to another round only if the run is stored with
  -- its configuration and iterations are left in the budget; the outcome stays or is `gave_up`,
  -- and the iteration and the plan's decision stay.
  pub reflect-Reflected :
      (state : AgentState)
      → Ensures
          (Stored state.run_id (λ r. (r.config ≡ state.config) × (r.iteration ≡ state.iteration)))
          (reflect services state)
          (λ us p. Reflected state (merge state us) p)
  unfolding reflect
  reflect-Reflected state = Ensures-bind _ _ (run_of-Ensures services state) λ run.
      Ensures-known _
        λ (known : (run.id ≡ state.run_id)
            × ((run.config ≡ state.config) × (run.iteration ≡ state.iteration))).
          Ensures-after _ _ λ spent. Ensures-bind _ _ (judge-Ensures services state run spent) λ j.
            Ensures-known _ λ (judged : Like run j.0 × Justified run j.1).
              Ensures-weaken _ (λ p h. h)
                (λ us p acted.
                  Reflected-Acted state run j.1 us p known.1.0 known.1.1 judged.1 acted)
                (act-Ensures state run j.0 j.1 (judged.0.id ∙ known.0) judged.0)
