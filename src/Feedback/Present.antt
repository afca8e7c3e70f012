-- ===== src/Feedback/Present.antt =====
-- What the loop over the reviews of the API leaves in the store, and that a second one adds nothing.
use autonomous_software_engi.Prelude.{
  if◌then◌else◌, Bool-cases, any, All, ℕ, String, ◌≡◌, refl, sym, ap, ◌∙◌, subst, inl, inr, Bool,
  true, false, Option, none, some, List, [], ◌∷◌, ◌++◌, arith, str_eq, eq_refl,
}
use mathlib.Core.Bool.{false≢true}
use mathlib.Core.List.{append-nil, append_assoc}
use autonomous_software_engi.Exec.{
  Exec, ok, Ensures, Ensures-bind, Ensures-given, Ensures-weaken, Ensures-pure, pure, modify, ◌>>=◌,
  ◌>>◌,
}
use autonomous_software_engi.Exec.Rules.{Ensures-lift, Ensures-modify}
use autonomous_software_engi.Contracts.Trace.{ReviewDecision}
use autonomous_software_engi.Contracts.Run.{AgentRun}
use autonomous_software_engi.Feedback.Reviews.{
  StampedReview, RawReview, Desk, ReviewApi, state_to_decision, same_key, stamped, parse_time,
  add_new, sync_reviews,
}

pub any-append :
    (p : StampedReview → Bool) (xs ys : List StampedReview)
    → any p xs ≡ true
    → any p (xs ++ ys) ≡ true
any-append p [] ys h = absurd (false≢true h)
any-append p (x ∷ xs) ys h = elim (Bool-cases (p x)) [
  | inl e ↦ ground (arith, e)
  | inr e ↦ ground (arith, e, any-append p xs ys (ground (arith, e)))
]

any-last :
    (p : StampedReview → Bool) (xs : List StampedReview) (r : StampedReview)
    → p r ≡ true
    → any p (xs ++ r ∷ []) ≡ true
any-last p [] r h = ground (arith, h)
any-last p (x ∷ xs) r h = ground (arith, any-last p xs r h)

same_key_refl : (r : StampedReview) → same_key r r ≡ true
unfolding same_key
same_key_refl r = ground (arith, eq_refl r.review.reviewer)

module _ {W : Type 0} (api : ReviewApi W) (run : AgentRun) (number : ℕ) where
  -- The review of this raw one is there, if it is a decision at all.
  abbrev pub review_at : RawReview → ReviewDecision → ℕ → StampedReview
  review_at raw decision at =
      stamped run number decision raw.login (if str_eq raw.body "" then [] else raw.body ∷ []) at

  abbrev pub DecisionPresent : RawReview → List StampedReview → Option ReviewDecision → Type 0
  DecisionPresent raw rows none = Unit
  DecisionPresent raw rows (some decision) =
      (at : ℕ) × (api.fromisoformat raw.submitted_at ≡ ok at)
      × (any (same_key (review_at raw decision at)) rows ≡ true)

  abbrev pub Present : List StampedReview → RawReview → Type 0
  Present rows raw = DecisionPresent raw rows (state_to_decision (api.upper raw.state))

  -- Every raw review has its time.
  abbrev pub Timed : List RawReview → Type 0
  Timed raws = All (λ (raw : RawReview). str_eq raw.submitted_at "" ≡ false) raws

  abbrev pub Own : List StampedReview → Type 0
  Own rows = All (λ (r : StampedReview). r.review.run_id ≡ run.id) rows

  -- What adding a review to a store with these reviews does.
  pub record Added (base existing : List StampedReview) (r : StampedReview)
      (added : List StampedReview) (d : Desk W) : Type 0 where
    pub now_are : d.reviews ≡ base ++ added
    pub own : Own added
    pub there : any (same_key r) (existing ++ added) ≡ true

  pub add_new-Added :
      (r : StampedReview) (base existing : List StampedReview)
      → r.review.run_id ≡ run.id
      → Ensures (λ (d : Desk W). d.reviews ≡ base) (add_new api r existing) (Added base existing r)
  unfolding add_new
  add_new-Added r base existing own = by_any (any (same_key r) existing) refl
    where
      by_any :
          (b : Bool)
          → any (same_key r) existing ≡ b
          → Ensures
              (λ (d : Desk W). d.reviews ≡ base)
              (if b
                then pure []
                else (modify (λ (d : Desk W). record d { reviews = d.reviews ++ r ∷ [] })
                    >> pure (r ∷ [])))
              (Added base existing r)
      by_any true e = Ensures-pure [] λ d h. record {
        now_are = h ∙ sym (append-nil base);
        own = tt;
        there = any-append (same_key r) existing [] e;
      }
      by_any false e = Ensures-modify _ (r ∷ []) λ d h. record {
        now_are = ap (λ rows. rows ++ r ∷ []) h;
        own = (own, tt);
        there = any-last (same_key r) existing r (same_key_refl r);
      }

  pub parse_time-Ensures :
      {B : Type 0} (value : String) (P : Desk W → Type 0) (Q : B → Desk W → Type 0)
      (f : ℕ → Exec (Desk W) B)
      → str_eq value "" ≡ false
      → ((at : ℕ) → api.fromisoformat value ≡ ok at → Ensures P (f at) Q)
      → Ensures P (parse_time api value >>= f) Q
  unfolding parse_time
  parse_time-Ensures value P Q f h k = rw h (Ensures-lift (api.fromisoformat value) f k)

  -- What the loop over the raw reviews does.
  pub record Synced (base existing : List StampedReview) (raws : List RawReview)
      (added : List StampedReview) (d : Desk W) : Type 0 where
    pub now_are : d.reviews ≡ base ++ added
    pub own : Own added
    pub present : All (Present (existing ++ added)) raws

  pub Own-append : (xs ys : List StampedReview) → Own xs → Own ys → Own (xs ++ ys)
  Own-append [] ys a b = b
  Own-append (x ∷ xs) ys a b = (a.0, Own-append xs ys a.1 b)

  pub DecisionPresent-append :
      (raw : RawReview) (rows more : List StampedReview) (o : Option ReviewDecision)
      → DecisionPresent raw rows o
      → DecisionPresent raw (rows ++ more) o
  DecisionPresent-append raw rows more none h = tt
  DecisionPresent-append raw rows more (some decision) h =
      (h.0, h.1, any-append (same_key (review_at raw decision h.0)) rows more h.2)

  pub sync_reviews-Synced :
      (raws : List RawReview) (base existing : List StampedReview)
      → Timed raws
      → Ensures
          (λ (d : Desk W). d.reviews ≡ base)
          (sync_reviews api run number raws existing)
          (Synced base existing raws)
  unfolding sync_reviews
  sync_reviews-Synced [] base existing t =
      Ensures-pure [] λ d h. record { now_are = h ∙ sym (append-nil base); own = tt; present = tt }
  sync_reviews-Synced (raw ∷ rest) base existing t =
      by_decision (state_to_decision (api.upper raw.state)) refl
        (λ base existing. sync_reviews-Synced rest base existing t.1)
    where
      by_decision :
          (o : Option ReviewDecision)
          → state_to_decision (api.upper raw.state) ≡ o
          → ((base existing : List StampedReview)
              → Ensures
                  (λ (d : Desk W). d.reviews ≡ base)
                  (sync_reviews api run number rest existing)
                  (Synced base existing rest))
          → Ensures
              (λ (d : Desk W). d.reviews ≡ base)
              (sync_reviews api run number (raw ∷ rest) existing)
              (Synced base existing (raw ∷ rest))
      by_decision none e ih =
          rw (sync_reviews, e)
            (Ensures-weaken _ (λ d h. h)
              (λ added d s. record {
                now_are = s.now_are;
                own = s.own;
                present = (rw e tt, s.present);
              })
              (ih base existing))
      by_decision (some decision) e ih =
          rw (sync_reviews, e)
            (parse_time-Ensures raw.submitted_at _ _ _ t.0 λ at parsed.
              Ensures-bind {R = Added base existing (review_at raw decision at)} _ _
                (add_new-Added (review_at raw decision at) base existing refl)
                λ first.
                  Ensures-weaken _ (λ d a. ((a.own, a.there), a.now_are)) (λ added d q. q)
                    (Ensures-given _
                      λ (facts : Own first
                          × (any (same_key (review_at raw decision at)) (existing ++ first)
                              ≡ true)).
                        Ensures-bind _ _ (ih (base ++ first) (existing ++ first)) λ more.
                          Ensures-pure (first ++ more) λ d s. record {
                            now_are = s.now_are ∙ append_assoc base first more;
                            own = Own-append first more facts.0 s.own;
                            present =
                                subst (λ rows. All (Present rows) (raw ∷ rest))
                                  (append_assoc existing first more)
                                  (
                                    rw e (
                                      at,
                                      parsed,
                                      any-append (same_key (review_at raw decision at))
                                          (existing ++ first) more facts.1,
                                    ),
                                    s.present,
                                  );
                          }))

  -- With all reviews there, the loop adds none.
  pub sync_reviews-again :
      (raws : List RawReview) (existing : List StampedReview) (d : Desk W)
      → Timed raws
      → All (Present existing) raws
      → sync_reviews api run number raws existing d ≡ (ok [], d)
  unfolding sync_reviews ◌>>=◌ parse_time add_new
  sync_reviews-again [] existing d t p = refl
  sync_reviews-again (raw ∷ rest) existing d t p =
      by_decision (state_to_decision (api.upper raw.state)) refl p.0
        (sync_reviews-again rest existing d t.1 p.1)
    where
      by_decision :
          (o : Option ReviewDecision)
          → state_to_decision (api.upper raw.state) ≡ o
          → DecisionPresent raw existing o
          → sync_reviews api run number rest existing d ≡ (ok [], d)
          → sync_reviews api run number (raw ∷ rest) existing d ≡ (ok [], d)
      by_decision none e h ih = rw (sync_reviews, e) ih
      by_decision (some decision) e h ih =
          rw (sync_reviews, e, t.0, h.1, h.2, append-nil existing, ih) refl
