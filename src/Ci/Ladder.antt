-- ===== src/Ci/Ladder.antt =====
-- A canary is promoted only after every rung of its ladder.
use autonomous_software_engi.Prelude.{
  ◌==◌, if◌then◌else◌, length, last?, ℕ, suc, ◌*◌, ◌≤◌, String, ◌≡◌, refl, sym, ap, ◌∙◌, subst, ◌↔◌,
  ◌⊎◌, inl, inr, Bool, true, false, Option, none, some, List, [], ◌∷◌, ◌++◌, arith,
}
use mathlib.Core.Bool.{false≢true}
use autonomous_software_engi.Prelude.Member.{Member, Distinct}
use autonomous_software_engi.Exec.{ok}
use autonomous_software_engi.Ci.Canary.{
  Slo, Window, error_rate_above, CanaryAction, promote, hold, rollback, CanaryDecision,
  CanaryReport, Final, promoted, next_step, evaluate_window, is_weight, is_top, settle, next_weight,
  climb, simulate,
}

-- A window with enough requests, and within both limits.
pub record MeetsSlo (slo : Slo) (w : Window) : Type 0 where
  pub enough : slo.min_requests ≤ w.requests
  pub rate : (w.requests ≡ 0) ⊎ (w.errors * 10_000 ≤ slo.max_error_rate * w.requests)
  pub latency : w.p95_ms ≤ slo.max_p95_ms

-- A window promotes exactly if it meets the objectives, whatever the weight.
pub evaluate_window-MeetsSlo :
    (slo : Slo) (steps : List ℕ) (weight : ℕ) (w : Window)
    → ((evaluate_window slo steps weight w).action ≡ promote) ↔ MeetsSlo slo w
unfolding evaluate_window error_rate_above
evaluate_window-MeetsSlo slo steps weight w = (
  λ h. record { enough = ground arith; rate = ground arith; latency = ground arith },
  λ h. ground (arith, h.enough, h.rate, h.latency),
)

-- How often the weight was stepped up, the last step to full traffic included.
pub promotions : List CanaryDecision → ℕ
promotions [] = 0
promotions (d ∷ ds) = let n = promotions ds in elim d.action [ promote ↦ suc n | _ ↦ n ]

Member-append : (a : ℕ) (xs ys : List ℕ) → Member a (xs ++ a ∷ ys)
Member-append a [] ys = inl refl
Member-append a (x ∷ xs) ys = inr (Member-append a xs ys)

-- What stands behind a weight of the ladder.
abbrev head? : List ℕ → Option ℕ
head? [] = none
head? (x ∷ xs) = some x

-- A weight in front of another on the ladder is another number.
apart :
    (b weight : ℕ) (before after : List ℕ)
    → ¬ Member b (before ++ weight ∷ after)
    → (b ≡ weight)
    → ⊥
apart b weight before after d e =
    d (subst (λ x. Member x (before ++ weight ∷ after)) (sym e) (Member-append weight before after))

skipped :
    {A : Type 0} (b weight : ℕ) (x y : A) → ((b ≡ weight) → ⊥) → (if b == weight then x else y) ≡ y
skipped b weight x y h = ground arith

next_step-append :
    (before : List ℕ) (weight : ℕ) (after : List ℕ)
    → Distinct (before ++ weight ∷ after)
    → next_step weight (before ++ weight ∷ after) ≡ head? after
unfolding next_step
next_step-append [] weight [] d = refl
next_step-append [] weight (x ∷ xs) d = ground arith
next_step-append (b ∷ []) weight after d =
    skipped b weight _ _ (apart b weight [] after d.0) ∙ next_step-append [] weight after d.1
next_step-append (b ∷ c ∷ before) weight after d =
    skipped b weight _ _ (apart b weight (c ∷ before) after d.0)
    ∙ next_step-append (c ∷ before) weight after d.1

-- The last element of a list that is not empty is in it.
last?-append : (before : List ℕ) (x : ℕ) (xs : List ℕ) → last? (before ++ x ∷ xs) ≡ last? (x ∷ xs)
last?-append [] x xs = refl
last?-append (b ∷ []) x xs = refl
last?-append (b ∷ c ∷ before) x xs = last?-append (c ∷ before) x xs

last_of : (x : ℕ) (xs : List ℕ) → (t : ℕ) × (last? (x ∷ xs) ≡ some t) × Member t (x ∷ xs)
last_of x [] = (x, refl, inl refl)
last_of x (y ∷ xs) = let (t, e, m) = last_of y xs in (t, e, inr m)

Distinct-after : (before : List ℕ) (xs : List ℕ) → Distinct (before ++ xs) → Distinct xs
Distinct-after [] xs d = d
Distinct-after (b ∷ before) xs d = Distinct-after before xs d.1

-- Only the last rung is the top.
is_top-last : (before : List ℕ) (weight : ℕ) → is_top (before ++ weight ∷ []) weight ≡ true
is_top-last before weight =
    ap (λ o. is_weight o weight) (last?-append before weight []) ∙ ground arith

is_top-inner :
    (before : List ℕ) (weight x : ℕ) (after : List ℕ)
    → Distinct (before ++ weight ∷ x ∷ after)
    → is_top (before ++ weight ∷ x ∷ after) weight ≡ false
is_top-inner before weight x after d =
    let (t, e, m) = last_of x after in
    let ne : (weight ≡ t) → ⊥ = λ k.
      (Distinct-after before (weight ∷ x ∷ after) d).0
        (subst (λ y. Member y (x ∷ after)) (sym k) m) in
    ap (λ o. is_weight o weight) (last?-append before weight (x ∷ after) ∙ e) ∙ ground (arith, ne)

-- A promotion leads to the next rung.
evaluate_window-weight :
    (slo : Slo) (steps : List ℕ) (weight : ℕ) (w : Window) (next : ℕ)
    → (evaluate_window slo steps weight w).action ≡ promote
    → next_step weight steps ≡ some next
    → (evaluate_window slo steps weight w).weight ≡ next
unfolding evaluate_window
evaluate_window-weight slo steps weight w next h e = ground arith

append-snoc : (before : List ℕ) (x : ℕ) (xs : List ℕ) → (before ++ x ∷ []) ++ xs ≡ before ++ x ∷ xs
append-snoc [] x xs = refl
append-snoc (b ∷ before) x xs = ap (λ l. b ∷ l) (append-snoc before x xs)

-- How a round may have ended in a promotion.
data Stepped (a : CanaryAction) (top : Bool) (d : CanaryDecision)
    (rest : List CanaryDecision × Final) : Type 0 where
  arrived : a ≡ promote → top ≡ true → promotions (settle a top d rest).0 ≡ 1 → Stepped a top d rest
  climbed :
      a ≡ promote
      → rest.1 ≡ promoted
      → promotions (settle a top d rest).0 ≡ suc (promotions rest.0)
      → top ≡ false
      → Stepped a top d rest
  waited :
      a ≡ hold
      → rest.1 ≡ promoted
      → promotions (settle a top d rest).0 ≡ promotions rest.0
      → Stepped a top d rest

settle-Stepped :
    (a : CanaryAction) (top : Bool) (d : CanaryDecision) (rest : List CanaryDecision × Final)
    → d.action ≡ a
    → (settle a top d rest).1 ≡ promoted
    → Stepped a top d rest
unfolding promotions
settle-Stepped rollback top d rest e h = cc
settle-Stepped promote true d rest e h = arrived refl refl (rw e refl)
settle-Stepped promote false d rest e h = climbed refl h (rw e refl) refl
settle-Stepped hold top d rest e h = waited refl h (rw e refl)

next_weight-hold :
    (a : CanaryAction) (weight decided : ℕ) → a ≡ hold → next_weight a weight decided ≡ weight
next_weight-hold a weight decided e = ap (λ x. next_weight x weight decided) e

next_weight-promote :
    (a : CanaryAction) (weight decided : ℕ) → a ≡ promote → next_weight a weight decided ≡ decided
next_weight-promote a weight decided e = ap (λ x. next_weight x weight decided) e

-- The number of promotions in a climb that ends in full traffic.
climb-promotions :
    (slo : Slo) (before : List ℕ) (weight : ℕ) (after : List ℕ) (ws : List Window)
    → Distinct (before ++ weight ∷ after)
    → (climb slo (before ++ weight ∷ after) weight ws).1 ≡ promoted
    → promotions (climb slo (before ++ weight ∷ after) weight ws).0 ≡ suc (length after)
unfolding climb
climb-promotions slo before weight after [] d h = cc
climb-promotions slo before weight [] (w ∷ ws) d h = elim (settle-Stepped v.action _ v _ refl h) [
  | arrived a top n ↦ n
  | climbed a k n top ↦ absurd (false≢true (sym top ∙ is_top-last before weight))
  | waited a k n ↦
      let same = next_weight-hold v.action weight v.weight a in
      n
      ∙ ap (λ m. promotions (climb slo steps m ws).0) same
      ∙ climb-promotions slo before weight [] ws d
          (subst (λ m. (climb slo steps m ws).1 ≡ promoted) same k)
]
  where
    steps : List ℕ
    steps = before ++ weight ∷ []

    v : CanaryDecision
    v = evaluate_window slo (before ++ weight ∷ []) weight w
climb-promotions slo before weight (x ∷ xs) (w ∷ ws) d h =
    elim (settle-Stepped v.action _ v _ refl h) [
      | arrived a top n ↦ absurd (false≢true (sym (is_top-inner before weight x xs d) ∙ top))
      | climbed a k n top ↦
          let same =
            next_weight-promote v.action weight v.weight a
            ∙ evaluate_window-weight slo steps weight w x a
                (next_step-append before weight (x ∷ xs) d) in
          let shift = append-snoc before weight (x ∷ xs) in
          n
          ∙ ap (λ m. suc (promotions (climb slo steps m ws).0)) same
          ∙ ap suc (
              subst
                (λ l.
                  (climb slo l x ws).1 ≡ promoted
                  → promotions (climb slo l x ws).0 ≡ suc (length xs))
                shift
                (climb-promotions slo (before ++ weight ∷ []) x xs ws
                  (subst Distinct (sym shift) d))
                (subst (λ m. (climb slo steps m ws).1 ≡ promoted) same k))
      | waited a k n ↦
          let same = next_weight-hold v.action weight v.weight a in
          n
          ∙ ap (λ m. promotions (climb slo steps m ws).0) same
          ∙ climb-promotions slo before weight (x ∷ xs) ws d
              (subst (λ m. (climb slo steps m ws).1 ≡ promoted) same k)
    ]
  where
    steps : List ℕ
    steps = before ++ weight ∷ x ∷ xs

    v : CanaryDecision
    v = evaluate_window slo (before ++ weight ∷ x ∷ xs) weight w

-- A simulation over a ladder of distinct weights that ends in `promoted` has taken as many promoting
-- decisions as the ladder has rungs.
pub simulate-promotions :
    (slo : Slo) (steps : List ℕ) (image : String) (windows : List Window) (report : CanaryReport)
    → Distinct steps
    → simulate slo steps image windows ≡ ok report
    → report.final ≡ promoted
    → promotions report.decisions ≡ length steps
unfolding simulate
simulate-promotions slo [] image windows report d h f = cc
simulate-promotions slo (x ∷ xs) image windows report d h f =
    let same = ok_inj h in
    ap (λ (r : CanaryReport). promotions r.decisions) (sym same)
    ∙ climb-promotions slo [] x xs windows d (ap (λ (r : CanaryReport). r.final) same ∙ f)
  where
    ok_inj : {A : Type 0} {a b : A} → ok a ≡ ok b → a ≡ b
    ok_inj e = cc
