-- ===== src/Feedback/Again.antt =====
-- A second synchronisation adds nothing.
use autonomous_software_engi.Prelude.{
  any, select, All, All-map, ℕ, ◌≡◌, refl, sym, ap, ◌∙◌, subst, true, false, Option, none, some,
  List, [], ◌∷◌, ◌++◌, arith, str_eq, eq_iff,
}
use mathlib.Core.List.{append-nil, append_assoc}
use autonomous_software_engi.Exec.{
  Exec, ok, Ensures, Ensures-bind, Ensures-given, Ensures-weaken, Ensures-pure, pure, ◌>>=◌,
}
use autonomous_software_engi.Exec.Rules.{Ensures-gets, Ensures-steady}
use autonomous_software_engi.Contracts.Trace.{ReviewDecision}
use autonomous_software_engi.Contracts.Run.{AgentRun}
use autonomous_software_engi.Feedback.Reviews.{
  StampedReview, RawReview, RawPull, Desk, ReviewApi, state_to_decision, same_key,
  terminal_decision, or_text, stamped, parse_time, existing_of, add_new, sync_end, sync_pull, sync,
}
use autonomous_software_engi.Feedback.Present.{
  any-append, Present, Timed, Own, add_new-Added, parse_time-Ensures, Own-append,
  DecisionPresent-append, sync_reviews-Synced, sync_reviews-again,
}

module _ {W : Type 0} (api : ReviewApi W) (run : AgentRun) (number : ℕ) where
  -- The end of the pull request is there, if it has come to one.
  abbrev EndPresent : RawPull → List StampedReview → Option ReviewDecision → Type 0
  EndPresent pull rows none = Unit
  EndPresent pull rows (some decision) =
      (at : ℕ) × (api.fromisoformat (or_text pull.merged_at pull.closed_at) ≡ ok at)
      × (any (same_key (stamped run number decision pull.merged_by [] at)) rows ≡ true)

  record Ended (pull : RawPull) (base existing ended : List StampedReview) (d : Desk W)
      : Type 0 where
    now_are : d.reviews ≡ base ++ ended
    own : Own api run number ended
    present : EndPresent pull (existing ++ ended) (terminal_decision pull)

  sync_end-Ended :
      (pull : RawPull) (base existing : List StampedReview)
      → ((decision : ReviewDecision)
          → terminal_decision pull ≡ some decision
          → str_eq (or_text pull.merged_at pull.closed_at) "" ≡ false)
      → Ensures
          (λ (d : Desk W). d.reviews ≡ base)
          (sync_end api run number pull existing)
          (Ended pull base existing)
  unfolding sync_end
  sync_end-Ended pull base existing t = by_decision (terminal_decision pull) refl
    where
      by_decision :
          (o : Option ReviewDecision)
          → terminal_decision pull ≡ o
          → Ensures
              (λ (d : Desk W). d.reviews ≡ base)
              (sync_end api run number pull existing)
              (Ended pull base existing)
      by_decision none e =
          rw (sync_end, e)
            (Ensures-pure []
              λ d h. record { now_are = h ∙ sym (append-nil base); own = tt; present = rw e tt })
      by_decision (some decision) e =
          rw (sync_end, e)
            ((parse_time-Ensures api run number) _ _ _ _ (t decision e) λ at parsed.
              Ensures-weaken _ (λ d h. h)
                (λ ended d a. record {
                  now_are = a.now_are;
                  own = a.own;
                  present = rw e (at, parsed, a.there);
                })
                ((add_new-Added api run number) (stamped run number decision pull.merged_by [] at)
                  base existing refl))

  sync_end-again :
      (pull : RawPull) (existing : List StampedReview) (d : Desk W)
      → ((decision : ReviewDecision)
          → terminal_decision pull ≡ some decision
          → str_eq (or_text pull.merged_at pull.closed_at) "" ≡ false)
      → EndPresent pull existing (terminal_decision pull)
      → sync_end api run number pull existing d ≡ (ok [], d)
  unfolding sync_end ◌>>=◌ parse_time add_new
  sync_end-again pull existing d t p = by_decision (terminal_decision pull) refl p
    where
      by_decision :
          (o : Option ReviewDecision)
          → terminal_decision pull ≡ o
          → EndPresent pull existing o
          → sync_end api run number pull existing d ≡ (ok [], d)
      by_decision none e h = rw (sync_end, e) refl
      by_decision (some decision) e h = rw (sync_end, e, t decision e, h.1, h.2) refl

  -- The API answers the same each time, and every time that it gives is there.
  pub record Steady (raws : List RawReview) (pull : RawPull) : Type 0 where
    pub numbered : run.pr_number ≡ some number
    pub reviews_are :
        (d : Desk W) → api.list_pull_request_reviews run.issue.repository number d ≡ (ok raws, d)
    pub pull_is : (d : Desk W) → api.get_pull_request run.issue.repository number d ≡ (ok pull, d)
    pub timed : Timed api run number raws
    pub pull_timed :
        (decision : ReviewDecision)
        → terminal_decision pull ≡ some decision
        → str_eq (or_text pull.merged_at pull.closed_at) "" ≡ false

  record AllThere (raws : List RawReview) (pull : RawPull) (base added : List StampedReview)
      (d : Desk W) : Type 0 where
    now_are : d.reviews ≡ base ++ added
    own : Own api run number added
    present :
        All
          ((Present api run number)
            (select (λ (r : StampedReview). str_eq r.review.run_id run.id) base ++ added))
          raws
    ended :
        EndPresent pull
          (select (λ (r : StampedReview). str_eq r.review.run_id run.id) base ++ added)
          (terminal_decision pull)

  abbrev own_of : List StampedReview → List StampedReview
  own_of rows = select (λ (r : StampedReview). str_eq r.review.run_id run.id) rows

  EndPresent-append :
      (pull : RawPull) (rows more : List StampedReview) (o : Option ReviewDecision)
      → EndPresent pull rows o
      → EndPresent pull (rows ++ more) o
  EndPresent-append pull rows more none h = tt
  EndPresent-append pull rows more (some decision) h = (
    h.0,
    h.1,
    any-append (same_key (stamped run number decision pull.merged_by [] h.0)) rows more h.2,
  )

  Present-append :
      (raws : List RawReview) (rows more : List StampedReview)
      → All ((Present api run number) rows) raws
      → All ((Present api run number) (rows ++ more)) raws
  Present-append raws rows more =
      All-map ((Present api run number) rows) ((Present api run number) (rows ++ more)) raws (λ raw.
        (DecisionPresent-append api run number) raw rows more
          (state_to_decision (api.upper raw.state)))

  sync_pull-AllThere :
      (raws : List RawReview) (pull : RawPull) (base : List StampedReview)
      → Steady raws pull
      → Ensures
          (λ (d : Desk W). d.reviews ≡ base)
          (sync_pull api run number)
          (AllThere raws pull base)
  unfolding sync_pull
  sync_pull-AllThere raws pull base steady = Ensures-gets _ _ λ existing.
      Ensures-weaken _ (λ d h. (sym (ap own_of h.1) ∙ h.0, h.1)) (λ added d q. q)
        (Ensures-given _ λ (known : own_of base ≡ existing).
          Ensures-steady _ raws _ steady.reviews_are (
            Ensures-bind _ _ ((sync_reviews-Synced api run number) raws base existing steady.timed)
              λ added. Ensures-steady _ pull _ steady.pull_is (
                Ensures-weaken _ (λ d a. ((a.own, a.present), a.now_are)) (λ out d q. q)
                  (Ensures-given _
                    λ (facts : Own api run number added
                        × All ((Present api run number) (existing ++ added)) raws).
                      Ensures-bind _ _
                        (sync_end-Ended pull (base ++ added) (existing ++ added) steady.pull_timed)
                        λ ended. Ensures-pure (added ++ ended) λ d e. record {
                          now_are = e.now_are ∙ append_assoc base added ended;
                          own = (Own-append api run number) added ended facts.0 e.own;
                          present =
                              subst (λ rows. All ((Present api run number) rows) raws)
                                (append_assoc existing added ended
                                  ∙ ap (λ rows. rows ++ (added ++ ended)) (sym known))
                                (Present-append raws (existing ++ added) ended facts.1);
                          ended =
                              subst (λ rows. EndPresent pull rows (terminal_decision pull))
                                (append_assoc existing added ended
                                  ∙ ap (λ rows. rows ++ (added ++ ended)) (sym known))
                                e.present;
                        }))))

  own_of-append :
      (base added : List StampedReview)
      → Own api run number added
      → own_of (base ++ added) ≡ own_of base ++ added
  own_of-append [] [] h = refl
  own_of-append [] (r ∷ rest) h =
      ground (arith, own_of-append [] rest h.1, h.0, eq_iff r.review.run_id run.id)
  own_of-append (b ∷ base) added h = ground (arith, own_of-append base added h)

  sync_pull-again :
      (raws : List RawReview) (pull : RawPull) (base added : List StampedReview) (d : Desk W)
      → Steady raws pull
      → AllThere raws pull base added d
      → sync_pull api run number d ≡ (ok [], d)
  unfolding sync_pull ◌>>=◌
  sync_pull-again raws pull base added d steady h =
      let mine : existing_of api run d ≡ own_of base ++ added =
        ap own_of h.now_are ∙ own_of-append base added h.own in
      rw
        (
          mine,
          steady.reviews_are d,
          (sync_reviews-again api run number) raws (own_of base ++ added) d steady.timed h.present,
          steady.pull_is d,
          append-nil (own_of base ++ added),
          sync_end-again pull (own_of base ++ added) d steady.pull_timed h.ended,
        )
        refl

  -- Synchronising the same answers of the API a second time adds nothing, provided that every review
  -- has its time, and the pull request too once it has ended.
  pub sync-again :
      (raws : List RawReview) (pull : RawPull) (added : List StampedReview) (d d' : Desk W)
      → Steady raws pull
      → sync api run d ≡ (ok added, d')
      → sync api run d' ≡ (ok [], d')
  unfolding sync
  sync-again raws pull added d d' steady e =
      let one : sync api run ≡ sync_pull api run number =
        ap (λ (o : Option ℕ). elim o [ none ↦ pure [] | some n ↦ sync_pull api run n ])
          steady.numbered in
      let there =
        (sync_pull-AllThere raws pull d.reviews steady).at d d' added refl
          (sym (ap (λ (m : Exec (Desk W) (List StampedReview)). m d) one) ∙ e) in
      ap (λ (m : Exec (Desk W) (List StampedReview)). m d') one
      ∙ sync_pull-again raws pull d.reviews added d' steady there
