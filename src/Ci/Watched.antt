-- ===== src/Ci/Watched.antt =====
-- What a look at the checks of a pull request goes by: the workflow runs that GitHub lists.
use autonomous_software_engi.Prelude.{
  Bool-cases, Option-cases, any, all, is_empty, All, ℕ, String, ◌≡◌, refl, sym, ap, ◌∙◌, subst, ◌≢◌,
  inl, inr, Bool, true, false, not, some, List, [], ◌∷◌, arith, eq_iff,
}
use mathlib.Core.Bool.{false≢true}
use autonomous_software_engi.Prelude.Member.{Member}
use autonomous_software_engi.Exec.{
  Result, ok, Ensures, Ensures-bind, Ensures-pure, Ensures-weaken, Ensures-if_eq, Ensures-raise,
}
use autonomous_software_engi.Exec.Rules.{Ensures-from, Ensures-option_eq}
use autonomous_software_engi.Contracts.Trace.{commented}
use autonomous_software_engi.Contracts.Run.{AgentRun}
use autonomous_software_engi.Agent.Tracking.{call-Quiet, call-world}
use autonomous_software_engi.Agent.Services.{Platform, Call, call}
use autonomous_software_engi.Ci.Actions.{WorkflowRun, GitHubApi}
use autonomous_software_engi.Ci.Triage.{TriageServices}
use autonomous_software_engi.Ci.Watcher.{
  CiStatus, green, red, pending, unknown_status, CiOutcome, bare_outcome, is_completed,
  has_succeeded, check,
}
use autonomous_software_engi.Ci.Labels.{Labelled, Noted, Same, label-Labelled, check_red-Noted}

-- The workflow run is over, and it ended in success.
abbrev Completed : WorkflowRun → Type 0
Completed item = item.status ≡ "completed"

abbrev Succeeded : WorkflowRun → Type 0
Succeeded item = item.conclusion ≡ some "success"

-- What the status says of the workflow runs.
abbrev pub StatusOf : List WorkflowRun → CiStatus → Type 0
StatusOf runs unknown_status = runs ≡ []
StatusOf runs pending = (item : WorkflowRun) × Member item runs × (¬ Completed item)
StatusOf runs green = (runs ≢ []) × All Completed runs × All Succeeded runs
StatusOf runs red =
    All Completed runs × ((item : WorkflowRun) × Member item runs × (¬ Succeeded item))

-- A look from the platform `start`: at the head commit that GitHub named, by the runs it listed.
pub record Watched {W : Type 0} (api : GitHubApi W) (run : AgentRun) (start : Platform W)
    (retries : ℕ) (o : CiOutcome) (p : Platform W) : Type 0 where
  pub number : ℕ
  pub head_sha : String
  pub asked : W
  pub runs : List WorkflowRun
  pub listed : W
  pub numbered : run.pr_number ≡ some number
  pub head : api.head_sha run.issue.repository number start.world ≡ (ok head_sha, asked)
  pub listing : api.list_workflow_runs run.issue.repository head_sha asked ≡ (ok runs, listed)
  pub status : StatusOf runs o.status
  pub labelled : Labelled run start.store o.status p.store
  pub rerun : o.rerun_requested ≡ true → retries ≡ 0

is_empty-eq : (runs : List WorkflowRun) → is_empty runs ≡ true → runs ≡ []
is_empty-eq [] h = refl
is_empty-eq (x ∷ xs) h = absurd (false≢true h)

not_empty-neq : (runs : List WorkflowRun) → is_empty runs ≡ false → runs ≢ []
not_empty-neq runs h e = false≢true (sym h ∙ ap is_empty e)

any-Member :
    (runs : List WorkflowRun)
    → any (λ item. not (is_completed item)) runs ≡ true
    → (item : WorkflowRun) × Member item runs × (¬ Completed item)
any-Member [] h = absurd (false≢true h)
any-Member (x ∷ xs) h = elim (Bool-cases (is_completed x)) [
  | inl done ↦ let later = any-Member xs (ground arith) in (later.0, inr later.1, later.2)
  | inr running ↦ (x, inl refl, λ e. false≢true (sym running ∙ (eq_iff x.status "completed").1 e))
]

any-All :
    (runs : List WorkflowRun)
    → any (λ item. not (is_completed item)) runs ≡ false
    → All Completed runs
any-All [] h = tt
any-All (x ∷ xs) h = elim (Bool-cases (is_completed x)) [
  | inl done ↦ ((eq_iff x.status "completed").0 done, any-All xs (ground arith))
  | inr running ↦ absurd (ground arith)
]

has_succeeded-Succeeded : (item : WorkflowRun) → has_succeeded item ≡ true → Succeeded item
has_succeeded-Succeeded item h = elim (Option-cases item.conclusion) [
  | inl none_yet ↦ absurd (ground arith)
  | inr (c, is_c) ↦ ground (arith, eq_iff c "success")
]

Succeeded-has_succeeded : (item : WorkflowRun) → Succeeded item → has_succeeded item ≡ true
Succeeded-has_succeeded item h = rw h refl

all-All : (runs : List WorkflowRun) → all has_succeeded runs ≡ true → All Succeeded runs
all-All [] h = tt
all-All (x ∷ xs) h = elim (Bool-cases (has_succeeded x)) [
  | inl won ↦ (has_succeeded-Succeeded x won, all-All xs (ground arith))
  | inr lost ↦ absurd (ground arith)
]

all-Member :
    (runs : List WorkflowRun)
    → all has_succeeded runs ≡ false
    → (item : WorkflowRun) × Member item runs × (¬ Succeeded item)
all-Member [] h = absurd (false≢true (sym h))
all-Member (x ∷ xs) h = elim (Bool-cases (has_succeeded x)) [
  | inl won ↦ let later = all-Member xs (ground arith) in (later.0, inr later.1, later.2)
  | inr lost ↦ (x, inl refl, λ e. false≢true (sym lost ∙ Succeeded-has_succeeded x e))
]

module _ {W A : Type 0} where
  call-store : (c : Call W A) (p q : Platform W) (a : A) → call c p ≡ (ok a, q) → q.store ≡ p.store
  call-store c p q a e = ap (λ (x : Result A × Platform W). x.1.store) (sym e) ∙ (call-Quiet c).at p

module _ {W : Type 0} (api : GitHubApi W) (triage : TriageServices W) where
  -- A look at a pull request that returns, whatever the API and the model answer: the head commit
  -- and its workflow runs are those that the API returned, and the status is unknown if there are no
  -- runs, pending if one is not completed, green if all are completed with success, and red if all
  -- are completed and one had no success. The store has one more review of the run if the status is
  -- green or red and is unchanged otherwise; a rerun was requested only if there were no retries
  -- before.
  pub check-Watched :
      (id : String) (run : AgentRun) (retries : ℕ) (with_comment : Bool) (start : Platform W)
      → Ensures
          (λ x. x ≡ start)
          (check api triage id run retries with_comment)
          (λ o p. Watched api run start retries o p)
  unfolding check
  check-Watched id run retries with_comment start =
      Ensures-option_eq run.pr_number _ _ (λ e. Ensures-raise _)
        λ number numbered. Ensures-from start _ _ λ head_sha asked head.
          Ensures-from asked _ _ λ runs listed listing.
            let same : listed.store ≡ start.store =
              call-store _ asked listed runs listing ∙ call-store _ start asked head_sha head in
            Ensures-weaken {P = Same start.store}
              {Q = λ o p.
                (status : CiStatus) × StatusOf runs status
                × Noted run start.store retries status o p}
              _ (λ p h. ap (λ (x : Platform W). x.store) h ∙ same)
              (λ o p h. record {
                number = number;
                head_sha = head_sha;
                asked = asked.world;
                runs = runs;
                listed = listed.world;
                numbered = numbered;
                head = call-world _ start asked head_sha head;
                listing = call-world _ asked listed runs listing;
                status = subst (StatusOf runs) (sym h.2.is) h.1;
                labelled =
                    subst (λ x. Labelled run start.store x p.store) (sym h.2.is) h.2.labelled;
                rerun = h.2.rerun;
              })
              (Ensures-if_eq (is_empty runs) _ _
                (λ none_yet. Ensures-pure (bare_outcome run number head_sha unknown_status) λ p h. (
                  unknown_status,
                  is_empty-eq runs none_yet,
                  record { is = refl; labelled = h; rerun = λ e. absurd (false≢true e) },
                ))
                λ some_runs.
                  Ensures-if_eq (any (λ item. not (is_completed item)) runs) _ _
                    (λ running. Ensures-pure (bare_outcome run number head_sha pending) λ p h. (
                      pending,
                      any-Member runs running,
                      record { is = refl; labelled = h; rerun = λ e. absurd (false≢true e) },
                    ))
                    λ done.
                      Ensures-if_eq (all has_succeeded runs) _ _
                        (λ won.
                          Ensures-bind _ _ (label-Labelled api triage run commented "ci: success")
                            λ _. Ensures-pure (bare_outcome run number head_sha green) λ p h. (
                              green,
                              (not_empty-neq runs some_runs, any-All runs done, all-All runs won),
                              record {
                                is = refl;
                                labelled = h;
                                rerun = λ e. absurd (false≢true e);
                              },
                            ))
                        λ lost.
                          Ensures-weaken _ (λ p h. h)
                            (λ o p h. (red, (any-All runs done, all-Member runs lost), h))
                            (check_red-Noted api triage id run number head_sha retries
                              with_comment))
