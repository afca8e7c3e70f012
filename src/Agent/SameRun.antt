-- ===== src/Agent/SameRun.antt =====
-- What no node changes: the id of the run and its configuration, with what that lets one carry over.
use autonomous_software_engi.Prelude.{ℕ, ◌≡◌, refl, sym, ap, ◌∙◌, List, [], ◌∷◌}
use autonomous_software_engi.Exec.{Exec, Ensures, Ensures-bind, Ensures-pure}
use autonomous_software_engi.Contracts.Run.{AgentRun}
use autonomous_software_engi.Store.{get}
use autonomous_software_engi.Agent.State.{AgentState, Update, write, merge}
use autonomous_software_engi.Agent.Services.{Platform}
use autonomous_software_engi.Agent.Runner.{advance}
use autonomous_software_engi.Agent.Tracking.{Stored}
use autonomous_software_engi.Agent.Rounds.{InStep}

-- Two states of one run.
pub record SameRun (s t : AgentState) : Type 0 where
  pub run_id : t.run_id ≡ s.run_id
  pub config : t.config ≡ s.config

pub SameRun-trans : {s t u : AgentState} → SameRun s t → SameRun t u → SameRun s u
SameRun-trans h k = record { run_id = k.run_id ∙ h.run_id; config = k.config ∙ h.config }

write-SameRun : (s : AgentState) (u : Update) → SameRun s (write s u)
unfolding write
write-SameRun s (Update.base_sha v) = record { run_id = refl; config = refl }
write-SameRun s _ = record { run_id = refl; config = refl }

-- No update touches the run's id or its configuration.
pub merge-SameRun : (s : AgentState) (us : List Update) → SameRun s (merge s us)
unfolding merge
merge-SameRun s [] = record { run_id = refl; config = refl }
merge-SameRun s (u ∷ us) = SameRun-trans (write-SameRun s u) (merge-SameRun (write s u) us)

module _ {W : Type 0} where
  pub Stored-move :
      {s t : AgentState} {Q : AgentRun → Type 0} (p : Platform W)
      → SameRun s t
      → Stored s.run_id Q p
      → Stored t.run_id Q p
  Stored-move p h (r, there, key, q) =
      (r, ap (λ i. get i p.store) h.run_id ∙ there, key ∙ sym h.run_id, q)

  pub Stored-back :
      {s t : AgentState} {Q : AgentRun → Type 0} (p : Platform W)
      → SameRun s t
      → Stored t.run_id Q p
      → Stored s.run_id Q p
  Stored-back p h (r, there, key, q) =
      (r, ap (λ i. get i p.store) (sym h.run_id) ∙ there, key ∙ h.run_id, q)

  pub InStep-move :
      (s t : AgentState) (n m : ℕ) (p : Platform W)
      → SameRun s t
      → n ≡ m
      → Stored s.run_id (InStep s n) p
      → Stored t.run_id (InStep t m) p
  InStep-move s t n m p h e stored =
      let (r, there, key, q) = Stored-move p h stored in
      (r, there, key, (q.0 ∙ sym h.config, q.1 ∙ e))

  pub advance-Ensures :
      {P : Platform W → Type 0} {Q : AgentState → Platform W → Type 0}
      (node : AgentState → Exec (Platform W) (List Update)) (state : AgentState)
      → Ensures P (node state) (λ us p. Q (merge state us) p)
      → Ensures P (advance node state) Q
  unfolding advance
  advance-Ensures node state h = Ensures-bind _ _ h λ us. Ensures-pure _ λ p q. q
