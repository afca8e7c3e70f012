-- ===== src/Feedback/Reviews.antt =====
-- feedback/reviews.py: `ReviewSync`. A review is kept with its time here, which the other parts do not
-- read; a time is a number of microseconds.
use autonomous_software_engi.Prelude.{
  ◌==◌, if◌then◌else◌, length, any, select, ℕ, ◌+◌, String, Bool, not, ◌&&◌, Option, none, some,
  List, [], ◌∷◌, ◌++◌, str_eq,
}
use autonomous_software_engi.Exec.{Exec, Result, pure, gets, modify, lift, ◌>>=◌, ◌>>◌}
use autonomous_software_engi.Contracts.Trace.{
  Review, ReviewDecision, approved, changes_requested, commented, merged, closed,
}
use autonomous_software_engi.Contracts.Run.{AgentRun}

pub record StampedReview : Type 0 where
  pub review : Review
  pub at : ℕ

-- A review as the API gives it, its missing texts empty.
pub record RawReview : Type 0 where
  pub state : String
  pub login : String
  pub body : String
  pub submitted_at : String

pub record RawPull : Type 0 where
  pub state : String
  pub merged_at : String
  pub closed_at : String
  pub merged_by : String

-- The reviews of the trace store, and the world outside it.
pub record Desk (W : Type 0) : Type 0 where
  pub reviews : List StampedReview
  pub world : W

-- The API, `str.upper`, `datetime.fromisoformat` of a text with `Z` replaced, and the time now.
pub record ReviewApi (W : Type 0) : Type 0 where
  pub list_pull_request_reviews : String → ℕ → Exec (Desk W) (List RawReview)
  pub get_pull_request : String → ℕ → Exec (Desk W) RawPull
  pub upper : String → String
  pub fromisoformat : String → Result ℕ
  pub now : Exec (Desk W) ℕ

-- `_STATE_TO_DECISION.get(state)`
unfoldable pub state_to_decision : String → Option ReviewDecision
state_to_decision state =
    if str_eq state "APPROVED"
    then some approved
    else if str_eq state "CHANGES_REQUESTED"
    then some changes_requested
    else if str_eq state "COMMENTED"
    then some commented
    else none

abbrev pub decision_number : ReviewDecision → ℕ
decision_number approved = 0
decision_number changes_requested = 1
decision_number commented = 2
decision_number merged = 3
decision_number closed = 4

-- Two reviews of the same number, reviewer, decision and time.
unfoldable pub same_key : StampedReview → StampedReview → Bool
same_key a b =
    a.review.pr_number == b.review.pr_number
    && str_eq a.review.reviewer b.review.reviewer
    && decision_number a.review.decision == decision_number b.review.decision
    && a.at == b.at

-- `merged`, or `closed`, or neither.
unfoldable pub terminal_decision : RawPull → Option ReviewDecision
terminal_decision pull =
    if not (str_eq pull.merged_at "")
    then some merged
    else if str_eq pull.state "closed"
    then some closed
    else none

abbrev pub or_text : String → String → String
or_text s d = if str_eq s "" then d else s

abbrev pub stamped : AgentRun → ℕ → ReviewDecision → String → List String → ℕ → StampedReview
stamped run number decision reviewer comments at = record {
  review = record {
    run_id = run.id;
    pr_number = number;
    decision = decision;
    reviewer = reviewer;
    comments = comments;
  };
  at = at;
}

module _ {W : Type 0} (api : ReviewApi W) where
  -- `_parse_time`
  unfoldable pub parse_time : String → Exec (Desk W) ℕ
  parse_time value = if str_eq value "" then api.now else lift (api.fromisoformat value)

  -- `store.reviews(run.id)`
  abbrev pub existing_of : AgentRun → Desk W → List StampedReview
  existing_of run d = select (λ (r : StampedReview). str_eq r.review.run_id run.id) d.reviews

  -- A review that is not there yet is added, to the store and to what is there.
  unfoldable pub add_new : StampedReview → List StampedReview → Exec (Desk W) (List StampedReview)
  add_new r existing =
      if any (same_key r) existing
      then pure []
      else (modify (λ (d : Desk W). record d { reviews = d.reviews ++ r ∷ [] }) >> pure (r ∷ []))

  -- The loop over the reviews of the API.
  unfoldable pub sync_reviews :
      AgentRun → ℕ → List RawReview → List StampedReview → Exec (Desk W) (List StampedReview)
  sync_reviews run number [] existing = pure []
  sync_reviews run number (raw ∷ rest) existing = elim (state_to_decision (api.upper raw.state)) [
    | none ↦ sync_reviews run number rest existing
    | some decision ↦ do
      at ← parse_time raw.submitted_at
      let r =
          stamped run number decision raw.login (if str_eq raw.body "" then [] else raw.body ∷ [])
            at
      added ← add_new r existing
      more ← sync_reviews run number rest (existing ++ added)
      pure (added ++ more)
  ]

  -- The end of the pull request, if it has come to one.
  unfoldable pub sync_end :
      AgentRun → ℕ → RawPull → List StampedReview → Exec (Desk W) (List StampedReview)
  sync_end run number pull existing = elim (terminal_decision pull) [
    | none ↦ pure []
    | some decision ↦ do
      at ← parse_time (or_text pull.merged_at pull.closed_at)
      add_new (stamped run number decision pull.merged_by [] at) existing
  ]

  -- `ReviewSync.sync` for a pull request of this number.
  unfoldable pub sync_pull : AgentRun → ℕ → Exec (Desk W) (List StampedReview)
  sync_pull run number = do
    existing ← gets (existing_of run)
    raws ← api.list_pull_request_reviews run.issue.repository number
    added ← sync_reviews run number raws existing
    pull ← api.get_pull_request run.issue.repository number
    ended ← sync_end run number pull (existing ++ added)
    pure (added ++ ended)

  -- `ReviewSync.sync`
  unfoldable pub sync : AgentRun → Exec (Desk W) (List StampedReview)
  sync run = elim run.pr_number [ none ↦ pure [] | some number ↦ sync_pull run number ]

  -- `ReviewSync.sync_all`
  unfoldable pub sync_all : List AgentRun → Exec (Desk W) ℕ
  sync_all [] = pure 0
  sync_all (run ∷ rest) = do added ← sync run; more ← sync_all rest; pure (length added + more)
