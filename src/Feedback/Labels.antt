-- ===== src/Feedback/Labels.antt =====
-- Where labels come from.
use autonomous_software_engi.Prelude.{
  if◌then◌else◌, any, select, All, ◌≤◌, ◌≡◌, refl, ap, ◌⊎◌, Bool, true, false, not, some, List, [],
  ◌∷◌, ◌++◌,
}
use autonomous_software_engi.Prelude.Text.{mem}
use autonomous_software_engi.Prelude.Member.{Member}
use autonomous_software_engi.Contracts.Trace.{ReviewDecision, merged}
use autonomous_software_engi.Feedback.Reviews.{StampedReview}
use autonomous_software_engi.Feedback.Dataset.{
  machine_reviewers, is_human, is_decisive, is_positive, is_merged, label_of, human_label,
}

select-machine :
    (r : StampedReview) (xs ys : List StampedReview)
    → is_human r ≡ false
    → select is_human (xs ++ r ∷ ys) ≡ select is_human (xs ++ ys)
select-machine r [] ys h = rw h refl
select-machine r (x ∷ xs) ys h =
    ap (λ rest. if is_human x then x ∷ rest else rest) (select-machine r xs ys h)

-- A review by a machine, wherever it stands, changes no label.
pub human_label-machine :
    (r : StampedReview) (xs ys : List StampedReview)
    → mem r.review.reviewer machine_reviewers ≡ true
    → human_label (xs ++ r ∷ ys) ≡ human_label (xs ++ ys)
unfolding human_label
human_label-machine r xs ys h =
    ap
      (λ reviews.
        if any (λ (s : StampedReview). is_merged s.review.decision) reviews
        then some (true, merged)
        else label_of (select is_decisive reviews))
      (select-machine r xs ys (ap not h))

-- A label is the decision of a human review, positive or not as that decision is; and the review is
-- of a merge, or no decisive human review is later.
pub record Labelled (rs : List StampedReview) (positive : Bool) (d : ReviewDecision) : Type 0 where
  pub sign : positive ≡ is_positive d
  pub source : StampedReview
  pub among : Member source rs
  pub human : is_human source ≡ true
  pub decided : source.review.decision ≡ d
  pub last :
      (d ≡ merged) ⊎ All (λ s. is_human s ≡ true → is_decisive s ≡ true → s.at ≤ source.at) rs
