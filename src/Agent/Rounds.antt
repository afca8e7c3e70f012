-- ===== src/Agent/Rounds.antt =====
-- The rounds of the runner: each raises the iteration of the stored run by one, so that a budget of
-- at most as many iterations as there are rounds ends the loop by a verdict.
use autonomous_software_engi.Prelude.{
  ℕ, zero, suc, ◌+◌, String, ◌≡◌, refl, ◌∙◌, Option, none, some, List, [], ◌∷◌, ◌++◌,
}
use autonomous_software_engi.Exec.{
  Exec, Ensures, Ensures-bind, Ensures-after, Ensures-pure, Ensures-known, Ensures-weaken,
  Ensures-if, Anything, pure,
}
use autonomous_software_engi.Contracts.Types.{RunState}
use autonomous_software_engi.Contracts.Run.{AgentRun, Exhausted, budget_exceeded}
use autonomous_software_engi.Llm.{Message}
use autonomous_software_engi.Agent.State.{AgentState, merge}
use autonomous_software_engi.Agent.Services.{Services, Platform}
use autonomous_software_engi.Agent.Steps.{Event, save_run}
use autonomous_software_engi.Agent.Implement.{implement, turn, turns, exhausted_note}
use autonomous_software_engi.Agent.Verify.{verify}
use autonomous_software_engi.Agent.Tracking.{Like, Like-refl, Like-trans, Stored, run_of-Ensures}
use autonomous_software_engi.Agent.Judging.{record_step-Like}
use autonomous_software_engi.Agent.Promotion.{save_run-Stored}

-- The configuration of the state, and its iteration.
abbrev pub InStep : AgentState → ℕ → AgentRun → Type 0
InStep state n r = (r.config ≡ state.config) × (r.iteration ≡ n)

InStep-Like :
    (state : AgentState) (n : ℕ) {a b : AgentRun} → Like a b → InStep state n a → InStep state n b
InStep-Like state n h k = (h.config ∙ k.0, h.iteration ∙ k.1)

-- An iteration counts itself on the state and on the stored run, and leaves the outcome.
pub record Implemented {W : Type 0} (state st : AgentState) (p : Platform W) : Type 0 where
  pub stored : Stored state.run_id (InStep state (state.iteration + 1)) p
  pub iteration : st.iteration ≡ state.iteration + 1
  pub outcome : st.outcome ≡ state.outcome
  pub decided : st.plan_decision ≡ state.plan_decision

-- Verification keeps the iteration.
pub record Checked {W : Type 0} (state st : AgentState) (p : Platform W) : Type 0 where
  pub stored : Stored state.run_id (InStep state state.iteration) p
  pub iteration : st.iteration ≡ state.iteration
  pub outcome : st.outcome ≡ state.outcome
  pub decided : st.plan_decision ≡ state.plan_decision

module _ {W I : Type 0} (services : Services W I) where
  pub save_run-InStep :
      {id : String} (state : AgentState) (n : ℕ) (s : Option RunState) (e : Option Event)
      (run : AgentRun)
      → run.id ≡ id
      → InStep state n run
      → Ensures Anything (save_run services s e run) (λ _ p. Stored id (InStep state n) p)
  save_run-InStep state n s e run key h =
      Ensures-weaken _ (λ p t. t)
        (λ _ p (r, there, k, like). (r, there, k, InStep-Like state n like h))
        (save_run-Stored services s e run run key (Like-refl run))

  turn-Like :
      (state : AgentState) (workspace : String) (index : Option I) (run : AgentRun)
      (messages : List Message)
      → Ensures Anything
          (turn services state workspace index run messages)
          (λ done p. Like run done.0)
  unfolding turn
  turn-Like state workspace index run messages = Ensures-after _ _ λ completion.
      Ensures-after _ _ λ calls.
        Ensures-bind _ _
          (record_step-Like services run "implement" state.config.coder_model completion calls)
          λ stepped. Ensures-known _ λ like. Ensures-after _ _ λ _. Ensures-pure _ λ p _. like

  turns-Like :
      (n : ℕ) (state : AgentState) (workspace : String) (index : Option I) (iteration : ℕ)
      (run : AgentRun) (messages : List Message) (notes : List String)
      → Ensures Anything
          (turns services n state workspace index iteration run messages notes)
          (λ done p. Like run done.0)
  unfolding turns
  turns-Like zero state workspace index iteration run messages notes =
      Ensures-pure _ λ p _. Like-refl run
  turns-Like (suc n) state workspace index iteration run messages notes =
      Ensures-bind _ _ (turn-Like state workspace index run messages) λ done.
        Ensures-known _ λ like. Ensures-after _ _ λ spent.
          Ensures-if _ _ _ (Ensures-pure _ λ p _. like) (
            by_budget done.0 like (budget_exceeded done.0 spent)
              (λ note. (notes ++ exhausted_note services iteration note ∷ [], ""))
              (Ensures-weaken _ (λ p h. h) (λ d p h. Like-trans like h)
                (turns-Like n state workspace index iteration done.0 _ notes)))
    where
      by_budget :
          (stepped : AgentRun)
          → Like run stepped
          → (o : Option Exhausted) → (stop : Exhausted → List String × String)
          → {next : Exec (Platform W) (AgentRun × List String × String)}
          → Ensures Anything next (λ done p. Like run done.0)
          → Ensures {S = Platform W} {A = AgentRun × List String × String} Anything
              (elim o [ some note ↦ pure (stepped, (stop note).0, (stop note).1) | none ↦ next ])
              (λ done p. Like run done.0)
      by_budget stepped like none stop h = h
      by_budget stepped like (some note) stop h = Ensures-pure _ λ p _. like

  pub implement-Implemented :
      (state : AgentState)
      → Ensures
          (Stored state.run_id (λ r. r.config ≡ state.config))
          (implement services state)
          (λ us p. Implemented state (merge state us) p)
  unfolding implement merge
  implement-Implemented state = Ensures-bind _ _ (run_of-Ensures services state) λ run.
      Ensures-known _ λ (known : (run.id ≡ state.run_id) × (run.config ≡ state.config)).
        Ensures-after _ _ λ workspace. Ensures-after _ _ λ index.
          Ensures-bind _ _ (turns-Like _ _ _ _ _ _ _ _) λ done. Ensures-known _ λ like.
            Ensures-after _ _ λ diff. Ensures-after _ _ λ _.
              Ensures-bind _ _
                (save_run-InStep state (state.iteration + 1) _ _ _ (like.id ∙ known.0)
                  (like.config ∙ known.1, like.iteration))
                λ _.
                  Ensures-pure _
                    λ p h. record { stored = h; iteration = refl; outcome = refl; decided = refl }

  pub verify-Checked :
      (state : AgentState)
      → Ensures
          (Stored state.run_id (InStep state state.iteration))
          (verify services state)
          (λ us p. Checked state (merge state us) p)
  unfolding verify merge
  verify-Checked state = Ensures-bind _ _ (run_of-Ensures services state) λ run.
      Ensures-known _ λ (known : (run.id ≡ state.run_id) × InStep state state.iteration run).
        Ensures-after _ _ λ workspace. Ensures-after _ _ λ targeted. Ensures-after _ _ λ r.
          Ensures-after _ _ λ _. Ensures-after _ _ λ tampered.
            Ensures-bind _ _ (save_run-InStep state state.iteration _ _ _ known.0 known.1) λ _.
              Ensures-pure _
                λ p h. record { stored = h; iteration = refl; outcome = refl; decided = refl }
