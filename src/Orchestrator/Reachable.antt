-- ===== src/Orchestrator/Reachable.antt =====
-- What holds of every stored run, whatever operations were made in whatever order: the events are
-- numbered in order, and a state stands only on the evidence that leads to it.
use autonomous_software_engi.Prelude.{
  if◌then◌else◌, length, ℕ, ◌+◌, String, ◌≡◌, refl, sym, ap, subst, ◌⊎◌, inl, inr, Bool, true,
  false, Option, none, some, List, [], ◌∷◌, ◌++◌, arith,
}
use autonomous_software_engi.Prelude.Dict.{Dict}
use autonomous_software_engi.Exec.{Exec, Result, ok, err, ◌⋆◌, ◌>>=◌}
use autonomous_software_engi.Contracts.Types.{
  RunState, ingest_issue, await_plan_approval, create_workspace, verify_patch, await_pr_approval,
  open_draft_pr, failed, approved, Issue, ContextItem, ChangePlan, EvaluationReport, RunEvent,
  Value, bool, str,
}
use autonomous_software_engi.Contracts.Run.{AgentRun, record_event}
use autonomous_software_engi.Store.{Store, save, get, get-save_cases}
use autonomous_software_engi.Orchestrator.{
  create, new_run, analyze, analyzed, approve_plan, review_plan, with_plan, record_evaluation,
  evaluated, approve_pr, review_pr, review_payload,
}
use autonomous_software_engi.Orchestrator.Guards.{
  Outcome, refused, done, approve_pr-Outcome, record_evaluation-Outcome, approve_plan-Outcome,
  analyze-Outcome, analysis, reviewed_plan,
}

-- Consecutive numbers from `n` on.
abbrev pub Numbered : ℕ → List RunEvent → Type 0
Numbered n [] = Unit
Numbered n (e ∷ es) = (e.sequence ≡ n) × Numbered (n + 1) es

Numbered-snoc :
    (n : ℕ) (es : List RunEvent) (e : RunEvent)
    → Numbered n es
    → e.sequence ≡ n + length es
    → Numbered n (es ++ e ∷ [])
Numbered-snoc n [] e h p = (omega arith, tt)
Numbered-snoc n (x ∷ es) e h p = (h.0, Numbered-snoc (n + 1) es e h.1 (omega arith))

record_event-Numbered :
    (kind : String) (payload : Dict Value) (run : AgentRun)
    → Numbered 1 run.events
    → Numbered 1 (record_event kind payload run).events
unfolding record_event
record_event-Numbered kind payload run h = Numbered-snoc 1 run.events _ h (omega arith)

-- The plan of the run was approved.
abbrev pub PlanApproved : AgentRun → Type 0
PlanApproved run = (plan : ChangePlan) × (run.plan ≡ some plan) × (plan.approval ≡ approved)

-- The evaluation of the run passed.
abbrev pub Verified : AgentRun → Type 0
Verified run = (report : EvaluationReport) × (run.evaluation ≡ some report) × (report.passed ≡ true)

-- The last event is an approval of the pull request.
abbrev pub PrApproved : AgentRun → Type 0
PrApproved run =
    (before : List RunEvent) × (last : RunEvent) × (reason : String) × (run.events
      ≡ before ++ last ∷ [])
    × (last.kind ≡ "pr_reviewed")
    × (last.payload ≡ ("approved", bool true) ∷ ("reason", str reason) ∷ [])

-- The evidence that a run in a state has; states that the orchestrator never enters have none.
abbrev pub Evidence : RunState → AgentRun → Type 0
Evidence ingest_issue run = Unit
Evidence await_plan_approval run = (plan : ChangePlan) × (run.plan ≡ some plan)
Evidence create_workspace run = PlanApproved run
Evidence await_pr_approval run = PlanApproved run × Verified run
Evidence open_draft_pr run = PlanApproved run × Verified run × PrApproved run
Evidence failed run = Unit
Evidence _ run = ⊥

pub record IsSound (run : AgentRun) : Type 0 where
  pub numbered : Numbered 1 run.events
  pub evidence : Evidence run.state run

pub record AllSound (s : Store) : Type 0 where
  pub at : (run_id : String) (run : AgentRun) → get run_id s ≡ some run → IsSound run

save-AllSound : (run : AgentRun) (s : Store) → IsSound run → AllSound s → AllSound (save run s)
save-AllSound run s p h = record {
  at = λ j r e. elim (get-save_cases j run r s e) [
    | inl same ↦ subst IsSound same p
    | inr old ↦ h.at j r old
  ];
}

new_run-IsSound :
    (id : String) (issue : Issue) → IsSound (record_event "run_created" [] (new_run id issue))
unfolding new_run record_event
new_run-IsSound id issue = record { numbered = (refl, tt); evidence = tt }

analyzed-IsSound :
    (context : List ContextItem) (plan : ChangePlan) (run : AgentRun)
    → IsSound run
    → IsSound (analyzed context plan run)
unfolding analyzed record_event
analyzed-IsSound context plan run h = record {
  numbered =
      Numbered-snoc 1 _ _ (Numbered-snoc 1 run.events _ h.numbered (omega arith)) (omega arith);
  evidence = (plan, refl);
}

review_plan-IsSound :
    (approve : Bool) (reason : String) (run : AgentRun) (plan : ChangePlan)
    → IsSound run
    → IsSound (review_plan approve reason run plan)
unfolding review_plan record_event
review_plan-IsSound true reason run plan h = record {
  numbered = Numbered-snoc 1 run.events _ h.numbered (omega arith);
  evidence = (record plan { approval = approved }, refl, refl);
}
review_plan-IsSound false reason run plan h = record {
  numbered = Numbered-snoc 1 run.events _ h.numbered (omega arith);
  evidence = tt;
}

-- The orchestrator's own runs are never in `verify_patch`, so the plan is approved.
plan_of_verified :
    (run : AgentRun) (c : RunState)
    → (c ≡ verify_patch) ⊎ (c ≡ create_workspace)
    → Evidence c run
    → PlanApproved run
plan_of_verified run c (inl e) h = absurd (subst (λ s. Evidence s run) e h)
plan_of_verified run c (inr e) h = subst (λ s. Evidence s run) e h

evaluated-IsSound :
    (report : EvaluationReport) (run : AgentRun)
    → (run.state ≡ verify_patch) ⊎ (run.state ≡ create_workspace)
    → IsSound run
    → IsSound (evaluated report run)
unfolding evaluated record_event
evaluated-IsSound report run at h = record {
  numbered = Numbered-snoc 1 run.events _ h.numbered (omega arith);
  evidence = by_verdict report.passed refl;
}
  where
    by_verdict :
        (b : Bool)
        → report.passed ≡ b
        → Evidence (if b then await_pr_approval else failed) (evaluated report run)
    by_verdict true e = (plan_of_verified run run.state at h.evidence, (report, refl, e))
    by_verdict false e = tt

review_pr-IsSound :
    (approve : Bool) (reason : String) (run : AgentRun)
    → run.state ≡ await_pr_approval
    → IsSound run
    → IsSound (review_pr approve reason run)
unfolding review_pr record_event review_payload
review_pr-IsSound true reason run at h =
    let (plan, verified) = subst (λ c. Evidence c run) at h.evidence in
    record {
      numbered = Numbered-snoc 1 run.events _ h.numbered (omega arith);
      evidence = (plan, verified, (run.events, _, reason, refl, refl, refl));
    }
review_pr-IsSound false reason run at h = record {
  numbered = Numbered-snoc 1 run.events _ h.numbered (omega arith);
  evidence = tt;
}

-- The requests that the control plane may make, with what they carry.
pub data Request : Type 0 where
  create_run : String → Issue → Request
  analyze_run :
      (Issue → Result (List ContextItem))
      → (Issue → List ContextItem → Result ChangePlan)
      → String
      → Request
  decide_plan : String → Bool → String → Request
  evaluate : String → EvaluationReport → Request
  decide_pr : String → Bool → String → Request

unfoldable pub handle : Request → Exec Store AgentRun
handle (create_run id issue) = create id issue
handle (analyze_run retrieve planner run_id) = analyze retrieve planner run_id
handle (decide_plan run_id approve reason) = approve_plan run_id approve reason
handle (evaluate run_id report) = record_evaluation run_id report
handle (decide_pr run_id approve reason) = approve_pr run_id approve reason

-- An error ends only its own request.
unfoldable pub serve : List Request → Store → Store
serve [] s = s
serve (request ∷ rest) s = serve rest (handle request s).1

-- An operation with an outcome keeps the runs sound, if its successor is sound.
Outcome-AllSound :
    {Allowed : RunState → Type 0} {Changes : AgentRun → AgentRun → Type 0} (run_id : String)
    (s : Store) (r : Result AgentRun × Store)
    → ((run next : AgentRun) → Allowed run.state → Changes run next → IsSound run → IsSound next)
    → AllSound s
    → Outcome run_id s Allowed Changes r
    → AllSound r.1
Outcome-AllSound run_id s r keep h (refused e p) =
    subst AllSound (sym (ap (λ (x : Result AgentRun × Store). x.1) p)) h
Outcome-AllSound run_id s r keep h (done run next g a c p) =
    subst AllSound (sym (ap (λ (x : Result AgentRun × Store). x.1) p))
      (save-AllSound next s (keep run next a c (h.at run_id run g)) h)

ok_inj : {a b : AgentRun} → ok a ≡ ok b → a ≡ b
ok_inj e = cc

analysis-IsSound :
    (retrieve : Issue → Result (List ContextItem))
    (planner : Issue → List ContextItem → Result ChangePlan) (run next : AgentRun)
    → analysis retrieve planner run ≡ ok next
    → IsSound run
    → IsSound next
analysis-IsSound retrieve planner run next e h = go (retrieve run.issue) e
  where
    go' :
        (context : List ContextItem) (p : Result ChangePlan)
        → (p ⋆ λ plan. ok (analyzed context plan run)) ≡ ok next
        → IsSound next
    go' context (ok plan) e = subst IsSound (ok_inj e) (analyzed-IsSound context plan run h)
    go' context (err x) e = cc

    go :
        (r : Result (List ContextItem))
        → (r ⋆ λ context. planner run.issue context ⋆ λ plan. ok (analyzed context plan run))
          ≡ ok next
        → IsSound next
    go (ok context) e = go' context (planner run.issue context) e
    go (err x) e = cc

reviewed_plan-IsSound :
    (approve : Bool) (reason : String) (run next : AgentRun)
    → reviewed_plan approve reason run ≡ ok next
    → IsSound run
    → IsSound next
unfolding with_plan
reviewed_plan-IsSound approve reason run next e h = go run.plan e
  where
    go :
        (p : Option ChangePlan)
        → (with_plan p ⋆ λ plan. ok (review_plan approve reason run plan)) ≡ ok next
        → IsSound next
    go (some plan) e = subst IsSound (ok_inj e) (review_plan-IsSound approve reason run plan h)
    go none e = cc

handle-AllSound : (request : Request) (s : Store) → AllSound s → AllSound (handle request s).1
unfolding handle
handle-AllSound (create_run id issue) s h =
    unfold create ◌>>=◌ in save-AllSound _ s (new_run-IsSound id issue) h
handle-AllSound (analyze_run retrieve planner run_id) s h =
    Outcome-AllSound run_id s _ (λ run next _ c. analysis-IsSound retrieve planner run next c) h
      (analyze-Outcome retrieve planner run_id s)
handle-AllSound (decide_plan run_id approve reason) s h =
    Outcome-AllSound run_id s _ (λ run next _ c. reviewed_plan-IsSound approve reason run next c) h
      (approve_plan-Outcome run_id approve reason s)
handle-AllSound (evaluate run_id report) s h =
    Outcome-AllSound run_id s _
      (λ run next a c p. subst IsSound (ok_inj c) (evaluated-IsSound report run a p)) h
      (record_evaluation-Outcome run_id report s)
handle-AllSound (decide_pr run_id approve reason) s h =
    Outcome-AllSound run_id s _
      (λ run next a c p. subst IsSound (ok_inj c) (review_pr-IsSound approve reason run a p)) h
      (approve_pr-Outcome run_id approve reason s)

-- After any requests whatever, valid or not, from a store of sound runs, every stored run is sound:
-- its events are numbered from 1 without a gap, a run with a created workspace has an approved
-- plan, one that awaits approval of its pull request has a passed evaluation too, and one that may
-- open a pull request also has that approval as its last event.
pub serve-AllSound :
    (requests : List Request) (s : Store) → AllSound s → AllSound (serve requests s)
unfolding serve
serve-AllSound [] s h = h
serve-AllSound (request ∷ rest) s h =
    serve-AllSound rest (handle request s).1 (handle-AllSound request s h)
