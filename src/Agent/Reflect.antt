-- ===== src/Agent/Reflect.antt =====
-- agent/nodes.py: the node `reflect`, and `parse_reflection` of agent/prompts.py.
use autonomous_software_engi.Prelude.{
  if◌then◌else◌, or_else, is_some, is_empty, ℕ, String, Bool, false, ◌&&◌, Option, none, some, List,
  [], ◌∷◌, str_eq,
}
use autonomous_software_engi.Prelude.Text.{◌+s◌, join, mem}
use autonomous_software_engi.Prelude.Dict.{Dict, lookup}
use autonomous_software_engi.Exec.{Exec, pure, ◌>>=◌, ◌>>◌}
use autonomous_software_engi.Contracts.Types.{
  EvaluationReport, await_pr_approval, open_draft_pr, implement_patch, failed, Value, str,
}
use autonomous_software_engi.Contracts.Trace.{TestReport}
use autonomous_software_engi.Contracts.Run.{AgentRun, budget_exceeded}
use autonomous_software_engi.Llm.{user_message, completion_text}
use autonomous_software_engi.Agent.State.{AgentState, Update}
use autonomous_software_engi.Agent.Services.{Services, Platform, Texts, call}
use autonomous_software_engi.Agent.Steps.{run_of, save_run, record_step, elapsed}
use autonomous_software_engi.Agent.Verify.{files_of}

-- A decision, its reason and the next focus.
pub record Verdict : Type 0 where
  pub decision : String
  pub reason : String
  pub focus : String

-- `str(payload.get(key) or default)`; the decoded reply holds the texts of its truthy values.
unfoldable pub parse_reflection : Texts → String → Verdict
parse_reflection texts text =
    let payload = texts.decoded_reflection text in
    let decision = texts.lower (or_else (lookup "decision" payload) "retry") in
    record {
      decision = if mem decision ("submit" ∷ "retry" ∷ "give_up" ∷ []) then decision else "retry";
      reason = or_else (lookup "reason" payload) "";
      focus = or_else (lookup "next_focus" payload) "";
    }

-- The two last hashes are equal.
unfoldable pub repeats : List String → Bool
repeats [] = false
repeats (x ∷ []) = false
repeats (x ∷ y ∷ []) = str_eq y x
repeats (x ∷ y ∷ z ∷ rest) = repeats (y ∷ z ∷ rest)

abbrev pub has_passed : Option EvaluationReport → Bool
has_passed none = false
has_passed (some e) = e.passed

-- A red run can never be promoted by the model's opinion.
unfoldable pub demoted : Verdict → Verdict
demoted v =
    if str_eq v.decision "submit"
    then record v {
      decision = "retry";
      reason = "model asked to submit a red run; retrying instead";
    }
    else v

-- The policy violations come first in the focus.
unfoldable pub focused : Option EvaluationReport → Verdict → Verdict
focused none v = v
focused (some e) v = if is_empty e.policy_violations then v else record v {
  focus = join "; " e.policy_violations +s (if str_eq v.focus "" then "" else "; " +s v.focus);
}

module _ {W I : Type 0} (services : Services W I) where
  abbrev pub give_up : String → Verdict
  give_up reason = record { decision = "give_up"; reason = reason; focus = "" }

  -- The model's opinion on a run that is not green.
  unfoldable pub consult :
      AgentState
      → AgentRun
      → TestReport
      → List String
      → Bool
      → Exec (Platform W) (AgentRun × Verdict)
  unfolding focused
  consult state run r files repeated = do
    let model = state.config.classifier_model
    completion ← call (
        services.complete (record {
          model = model;
          system = services.texts.reflect_system;
          messages =
              user_message (services.texts.reflect_request r state.iteration none files repeated)
              ∷ [];
          tools = "";
          max_tokens = 512;
        }))
    stepped ← record_step services run "reflect" model completion []
    let verdict = demoted (parse_reflection services.texts (completion_text completion))
    pure (stepped, focused run.evaluation verdict)

  -- The branches up to the decision: what is settled without the model, and the model's part.
  unfoldable pub judge : AgentState → AgentRun → ℕ → Exec (Platform W) (AgentRun × Verdict)
  unfolding consult
  judge state run spent =
      let repeated = repeats state.patch_hashes in
      if is_some state.report && has_passed run.evaluation
      then pure (
        run,
        record { decision = "submit"; reason = "tests green and policy checks passed"; focus = "" },
      )
      else elim (budget_exceeded run spent) [
        | some note ↦
            pure (run, give_up ("budget exhausted: " +s services.texts.exhausted_text note))
        | none ↦
            if repeated
            then pure
                (run, give_up "two identical patches in a row: the plan is wrong, not the edit")
            else elim state.report [
              | none ↦ pure (run, give_up "no test report")
              | some r ↦ consult state run r (files_of state.patch) repeated
            ]
      ]

  -- `_cleanup`: errors of the removal are suppressed.
  unfoldable pub cleanup : AgentState → Exec (Platform W) (Unit {0})
  cleanup state p =
      if services.cleanup_workspaces
      then elim state.workspace [
        | none ↦ pure tt p
        | some path ↦
            if str_eq path ""
            then pure tt p
            else pure tt (record p { world = (services.remove_workspace path p.world).1 })
      ]
      else pure tt p

  abbrev pub reflected : Verdict → String × Dict Value
  reflected v = (
    "reflected",
    ("decision", str v.decision) ∷ ("reason", str v.reason) ∷ ("focus", str v.focus) ∷ [],
  )

  -- The branches after the decision.
  unfoldable pub act : AgentState → AgentRun → Verdict → Exec (Platform W) (List Update)
  act state run v =
      if str_eq v.decision "submit"
      then (do
        save_run services
            (some
              (if services.policy.require_pr_approval then await_pr_approval else open_draft_pr))
            (some (reflected v)) run
        pure (Update.decision v.decision ∷ Update.focus v.focus ∷ []))
      else if str_eq v.decision "give_up"
      then (do
        save_run services (some failed) (some (reflected v))
            (record run { outcome = some "gave_up" })
        cleanup state
        pure (
            Update.decision v.decision
            ∷ Update.focus v.focus
            ∷ Update.outcome "gave_up"
            ∷ Update.outcome_reason v.reason
            ∷ []))
      else (do
        save_run services (some implement_patch) (some (reflected v)) run
        pure (Update.decision v.decision ∷ Update.focus v.focus ∷ []))

  unfoldable pub reflect : AgentState → Exec (Platform W) (List Update)
  reflect state = do
    run ← run_of services state
    spent ← elapsed services state
    judged ← judge state run spent
    act state judged.0 judged.1
