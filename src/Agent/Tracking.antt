-- ===== src/Agent/Tracking.antt =====
-- How the nodes treat the stored run: rules for the actions that they are built of.
use autonomous_software_engi.Prelude.{
  String, ◌≡◌, refl, sym, ap, ◌∙◌, subst, Option, none, some, arith,
}
use autonomous_software_engi.Exec.{Exec, Result, ok, Ensures, ◌>>=◌}
use autonomous_software_engi.Contracts.Types.{RunState}
use autonomous_software_engi.Contracts.Run.{AgentRun, record_event}
use autonomous_software_engi.Store.{save, get, get-save_self}
use autonomous_software_engi.Agent.State.{AgentState}
use autonomous_software_engi.Agent.Services.{
  Services, Platform, Call, call, ask, read_store, write_store,
}
use autonomous_software_engi.Agent.Steps.{Event, moved, noted, found, run_of, save_run}

-- The store holds a run under the id, with the property.
abbrev pub Stored : {W : Type 0} → String → (AgentRun → Type 0) → Platform W → Type 0
Stored id Q p = (run : AgentRun) × (get id p.store ≡ some run) × (run.id ≡ id) × Q run

-- What stays of a run while a node works on it.
pub record Like (a b : AgentRun) : Type 0 where
  pub id : b.id ≡ a.id
  pub config : b.config ≡ a.config
  pub iteration : b.iteration ≡ a.iteration
  pub evaluation : b.evaluation ≡ a.evaluation

pub Like-refl : (a : AgentRun) → Like a a
Like-refl a = record { id = refl; config = refl; iteration = refl; evaluation = refl }

pub Like-trans : {a b c : AgentRun} → Like a b → Like b c → Like a c
Like-trans h k = record {
  id = k.id ∙ h.id;
  config = k.config ∙ h.config;
  iteration = k.iteration ∙ h.iteration;
  evaluation = k.evaluation ∙ h.evaluation;
}

pub saved-Like :
    (s : Option RunState) (e : Option Event) (run : AgentRun) → Like run (noted e (moved s run))
unfolding noted moved record_event
saved-Like none none run = ground arith
saved-Like none (some (k, v)) run = ground arith
saved-Like (some s) none run = ground arith
saved-Like (some s) (some (k, v)) run = ground arith

module _ {W I : Type 0} (services : Services W I) where
  -- The run that a node begins with is the stored one.
  pub run_of-Ensures :
      (state : AgentState) {Q : AgentRun → Type 0}
      → Ensures
          (Stored state.run_id Q)
          (run_of services state)
          (λ run p. (run.id ≡ state.run_id) × Q run)
  unfolding run_of ◌>>=◌ read_store found
  run_of-Ensures state {Q} = record {
    at = λ p p' run (stored, there, key, q) e.
        let same : stored ≡ run = ground arith in
        (subst (λ (r : AgentRun). r.id ≡ state.run_id) same key, subst Q same q);
  }

  -- After a save the store holds the saved run.
  pub save_run-Ensures :
      {P : Platform W → Type 0} (s : Option RunState) (e : Option Event) (run : AgentRun)
      → Ensures P
          (save_run services s e run)
          (λ saved p. (saved ≡ noted e (moved s run)) × (get run.id p.store ≡ some saved))
  unfolding save_run ◌>>=◌ write_store
  save_run-Ensures s e run = record {
    at = λ p p' saved _ h.
        let new = noted e (moved s run) in
        let same : new ≡ saved = ground arith in
        let store' : save new p.store ≡ p'.store =
          ap (λ (x : Result AgentRun × Platform W). x.1.store) h in
        (
          sym same,
          ap (get run.id) (sym store')
              ∙ ap (λ i. get i (save new p.store)) (sym (saved-Like s e run).id)
              ∙ get-save_self new p.store
              ∙ ap some same,
        );
  }

-- An action that leaves the store alone keeps what is known of it.
pub record Quiet {W A : Type 0} (m : Exec (Platform W) A) : Type 0 where
  pub at : (p : Platform W) → (m p).1.store ≡ p.store

module _ {W A : Type 0} where
  pub call-Quiet : (c : Call W A) → Quiet (call c)
  unfolding call
  call-Quiet c = record { at = λ p. refl }

  -- A call that returns has returned from the collaborator, in the world of the platform.
  pub call-world :
      (c : Call W A) (p q : Platform W) (a : A) → call c p ≡ (ok a, q) → c p.world ≡ (ok a, q.world)
  unfolding call
  call-world c p q a e i = ((e i).0, (e i).1.world)

  pub ask-Quiet : (c : W → A × W) → Quiet (ask c)
  unfolding ask
  ask-Quiet c = record { at = λ p. refl }

  pub Quiet-Ensures :
      {m : Exec (Platform W) A} {id : String} {Q : AgentRun → Type 0}
      → Quiet m
      → Ensures (Stored id Q) m (λ _ p. Stored id Q p)
  Quiet-Ensures {m} {id} {Q} quiet = record {
    at = λ p p' a stored e.
        let same : p.store ≡ p'.store =
          sym (quiet.at p) ∙ ap (λ (x : Result A × Platform W). x.1.store) e in
        subst (λ s. (run : AgentRun) × (get id s ≡ some run) × (run.id ≡ id) × Q run) same stored;
  }
