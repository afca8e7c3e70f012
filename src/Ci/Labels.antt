-- ===== src/Ci/Labels.antt =====
-- What a look at the checks leaves: which labels, and at most one rerun.
use autonomous_software_engi.Prelude.{
  ℕ, String, ◌≡◌, refl, sym, ap, ◌∙◌, subst, ◌⊎◌, Bool, true, false, Option, none, some, List, [],
  ◌∷◌, arith,
}
use mathlib.Core.Bool.{false≢true}
use autonomous_software_engi.Exec.{
  Exec, Result, Ensures, Ensures-bind, Ensures-pure, Ensures-weaken, Ensures-if, Ensures-option,
  pure, lift, ◌>>=◌,
}
use autonomous_software_engi.Contracts.Trace.{ReviewDecision, commented, changes_requested}
use autonomous_software_engi.Contracts.Run.{AgentRun}
use autonomous_software_engi.Agent.Tracking.{Quiet, call-Quiet}
use autonomous_software_engi.Store.{Store, add_review_row}
use autonomous_software_engi.Agent.Services.{Platform, Call, CompletionRequest, write_store}
use autonomous_software_engi.Llm.{Completion}
use autonomous_software_engi.Ci.Actions.{
  WorkflowRun, Job, FailureLog, GitHubApi, first_of, first_failure, failed_jobs, failure_log,
}
use autonomous_software_engi.Ci.Triage.{
  flake, lint, test_regression, env, unknown, Classification, Action, ActionName, retry, reenter,
  escalate, TriageServices, ci_task, route, rules, classify, classify_by_rules, ask_model,
}
use autonomous_software_engi.Ci.Watcher.{
  CiStatus, green, red, pending, unknown_status, CiOutcome, ci_review, label, act_on, check_red,
}

-- What the route of a failure is, by its kind and the retries before.
pub record Routed (id : String) (c : Classification) (log : FailureLog) (repository : String)
    (number : Option ℕ) (retries : ℕ) (a : Action) : Type 0 where
  pub retried : a.name ≡ retry → (c.kind ≡ flake) × (retries ≡ 0)
  pub reentered :
      a.name ≡ reenter
      → ((c.kind ≡ lint) ⊎ (c.kind ≡ test_regression))
        × (a.task ≡ some (ci_task id c log repository number))
  pub escalated :
      a.name ≡ escalate
      → (c.kind ≡ env) ⊎ (c.kind ≡ unknown) ⊎ ((c.kind ≡ flake) × (¬ (retries ≡ 0)))

-- A transient failure is retried once; only a lint failure or a regression becomes a task; everything
-- else is for a human.
pub route-Routed :
    (id : String) (c : Classification) (log : FailureLog) (repository : String) (number : Option ℕ)
    (retries : ℕ)
    → Routed id c log repository number retries (route id c log repository number retries)
unfolding route
route-Routed id c log repository number retries = record {
  retried = λ h. ground arith;
  reentered = λ h. ground arith;
  escalated = λ h. ground arith;
}

-- The store that a look leaves, by its status: no row while the checks are missing or running, and
-- one review of the run otherwise.
abbrev pub Labelled : AgentRun → Store → CiStatus → Store → Type 0
Labelled run s unknown_status s' = s' ≡ s
Labelled run s pending s' = s' ≡ s
Labelled run s green s' = s' ≡ add_review_row (ci_review run commented "ci: success") s
Labelled run s red s' =
    (comment : String) × (s' ≡ add_review_row (ci_review run changes_requested comment) s)

-- What a look with this status leaves: its label, and a rerun only as the first retry.
pub record Noted {W : Type 0} (run : AgentRun) (s : Store) (retries : ℕ) (status : CiStatus)
    (o : CiOutcome) (p : Platform W) : Type 0 where
  pub is : o.status ≡ status
  pub labelled : Labelled run s status p.store
  pub rerun : o.rerun_requested ≡ true → retries ≡ 0

-- The store is the one from before.
abbrev pub Same : {W : Type 0} → Store → Platform W → Type 0
Same s p = p.store ≡ s

module _ {W A : Type 0} where
  lift-Quiet : (r : Result A) → Quiet {W = W} (lift r)
  unfolding ◌>>=◌
  lift-Quiet r = record { at = λ p. refl }

module _ {W A : Type 0} {s : Store} where
  pub quiet : {m : Exec (Platform W) A} → Quiet m → Ensures (Same s) m (λ _ p. Same s p)
  quiet {m} q = record {
    at = λ p p' a same e. ap (λ (x : Result A × Platform W). x.1.store) (sym e) ∙ q.at p ∙ same;
  }

-- What is known of the store outlasts an action that leaves it alone.
module _ {W A : Type 0} where
  steady :
      (Q : Store → Type 0) {m : Exec (Platform W) A}
      → Quiet m
      → Ensures (λ p. Q p.store) m (λ _ p. Q p.store)
  steady Q {m} q = record {
    at = λ p p' a h e. subst Q (sym (q.at p) ∙ ap (λ (x : Result A × Platform W). x.1.store) e) h;
  }

module _ {W : Type 0} (api : GitHubApi W) (triage : TriageServices W) {s : Store} where
  first_of-Same :
      (repository : String) (runs : List WorkflowRun)
      → Ensures (Same s) (first_of api repository runs) (λ _ p. Same s p)
  unfolding first_of failed_jobs failure_log
  first_of-Same repository [] = Ensures-pure _ λ p h. h
  first_of-Same repository (run ∷ rest) = Ensures-if _ _ _ (first_of-Same repository rest) (
      Ensures-bind _ _ (Ensures-bind _ _ (quiet (call-Quiet _)) λ rows. Ensures-pure _ λ p h. h)
        (by_jobs run (first_of-Same repository rest)))
    where
      by_jobs :
          (run : WorkflowRun)
          → Ensures (Same s) (first_of api repository rest) (λ _ p. Same s p)
          → (jobs : List Job)
          → Ensures
              (Same s)
              (elim jobs [
                | [] ↦ first_of api repository rest
                | job ∷ others ↦ (do log ← failure_log api repository run job; pure (some log))
              ])
              (λ _ p. Same s p)
      by_jobs run later [] = later
      by_jobs run later (job ∷ others) =
          Ensures-bind _ _ (Ensures-bind _ _ (quiet (call-Quiet _)) λ raw. Ensures-pure _ λ p h. h)
            λ log. Ensures-pure _ λ p h. h

  classify-Same : (log : FailureLog) → Ensures (Same s) (classify triage log) (λ _ p. Same s p)
  unfolding classify ask_model
  classify-Same log = by_rules (classify_by_rules triage.searches log.excerpt) triage.llm
    where
      by_rules :
          (o : Option Classification) (l : Option (CompletionRequest → Call W Completion))
          → Ensures {S = Platform W} {A = Classification}
              (Same s)
              (elim o [
                | some c ↦ pure c
                | none ↦ elim l [
                  | none ↦ pure (record {
                    kind = unknown;
                    reason = "no rule matched";
                    confidence = 0;
                    source = rules;
                  })
                  | some complete ↦ ask_model triage complete log
                ]
              ])
              (λ _ p. Same s p)
      by_rules (some c) l = Ensures-pure _ λ p h. h
      by_rules none none = Ensures-pure _ λ p h. h
      by_rules none (some complete) =
          Ensures-bind _ _ (quiet (call-Quiet _))
            λ completion. Ensures-bind _ _ (quiet (lift-Quiet _)) λ reply. Ensures-pure _ λ p h. h

  pub label-Labelled :
      (run : AgentRun) (d : ReviewDecision) (comment : String)
      → Ensures
          (Same s)
          (label api triage run d comment)
          (λ _ p. p.store ≡ add_review_row (ci_review run d comment) s)
  unfolding label write_store
  label-Labelled run d comment = record {
    at = λ p p' a same e.
        ap (λ (x : Result (Unit {0}) × Platform W). x.1.store) (sym e)
        ∙ ap (add_review_row (ci_review run d comment)) same;
  }

  act_on-Noted :
      (repository : String) (number : ℕ) (log : FailureLog) (c : Classification) (run : AgentRun)
      (retries : ℕ) (with_comment : Bool) (o : CiOutcome) (a : Action)
      → (a.name ≡ retry → retries ≡ 0)
      → o.status ≡ red
      → o.rerun_requested ≡ false
      → Ensures
          (λ p. Labelled run s red p.store)
          (act_on api triage repository number log c a with_comment o)
          (λ o p. Noted run s retries red o p)
  unfolding act_on
  act_on-Noted repository number log c run retries with_comment o a allowed is_red fresh =
      by_name a.name refl
    where
      kept :
          (o' : CiOutcome)
          → o'.status ≡ red
          → (o'.rerun_requested ≡ true → retries ≡ 0)
          → (p : Platform W) → Labelled run s red p.store
          → Noted run s retries red o' p
      kept o' e f p h = record { is = e; labelled = h; rerun = f }

      no_rerun : o.rerun_requested ≡ true → retries ≡ 0
      no_rerun h = absurd (false≢true (sym fresh ∙ h))

      by_name :
          (n : ActionName)
          → a.name ≡ n
          → Ensures
              (λ p. Labelled run s red p.store)
              (act_on api triage repository number log c a with_comment o)
              (λ o p. Noted run s retries red o p)
      by_name retry e = rw e (
          Ensures-bind _ _ (steady (Labelled run s red) (call-Quiet _))
            λ _. Ensures-pure _ (kept _ is_red (λ _. allowed e)))
      by_name reenter e = rw e (Ensures-pure _ (kept _ is_red no_rerun))
      by_name escalate e = rw e (
          Ensures-if _ _ _
            (Ensures-bind _ _ (steady (Labelled run s red) (call-Quiet _))
              λ _. Ensures-pure _ (kept _ is_red no_rerun))
            (Ensures-pure _ (kept _ is_red no_rerun)))

  pub check_red-Noted :
      (id : String) (run : AgentRun) (number : ℕ) (head_sha : String) (retries : ℕ)
      (with_comment : Bool)
      → Ensures
          (Same s)
          (check_red api triage id run number head_sha retries with_comment)
          (λ o p. Noted run s retries red o p)
  unfolding check_red first_failure
  check_red-Noted id run number head_sha retries with_comment =
      Ensures-bind _ _
        (Ensures-bind _ _ (quiet (call-Quiet _)) λ runs. first_of-Same run.issue.repository runs)
        λ failure.
          Ensures-option failure _ _
            (Ensures-bind _ _ (label-Labelled run changes_requested "ci: failure without a job log")
              λ _. Ensures-pure _ λ p h. record {
                is = refl;
                labelled = ("ci: failure without a job log", h);
                rerun = λ e. cc;
              })
            λ log. Ensures-bind _ _ (classify-Same log) λ c.
              Ensures-bind _ _ (label-Labelled run changes_requested _) λ _.
                Ensures-weaken _ (λ p h. (_, h)) (λ o p h. h)
                  (act_on-Noted run.issue.repository number log c run retries with_comment _
                    (route id c log run.issue.repository (some number) retries)
                    (λ e.
                      ((route-Routed id c log run.issue.repository (some number) retries).retried
                        e).1)
                    refl refl)
