-- ===== src/Feedback/Dataset.antt =====
-- feedback/dataset.py: labels, the dataset, and the agreement of a scorer with it. A score and the
-- agreement are in ten-thousandths; the files that the dataset is written to are left out.
use autonomous_software_engi.Prelude.{
  ltb, leb, if◌then◌else◌, length, any, select, is_empty, ℕ, ◌+◌, String, Bool, true, false, not,
  ◌&&◌, ◌||◌, Option, none, some, List, [], ◌∷◌, ◌++◌,
}
use autonomous_software_engi.Prelude.Text.{mem}
use autonomous_software_engi.Contracts.Trace.{
  ReviewDecision, approved, changes_requested, merged, closed, Step,
}
use autonomous_software_engi.Contracts.Run.{AgentRun}
use autonomous_software_engi.Feedback.Reviews.{StampedReview}
use autonomous_software_engi.Feedback.Features.{TrajectoryFeatures, extract_features}

abbrev pub machine_reviewers : List String
machine_reviewers = "github-actions" ∷ "ci" ∷ []

abbrev pub is_positive : ReviewDecision → Bool
is_positive approved = true
is_positive merged = true
is_positive _ = false

abbrev pub is_negative : ReviewDecision → Bool
is_negative changes_requested = true
is_negative closed = true
is_negative _ = false

abbrev pub is_merged : ReviewDecision → Bool
is_merged merged = true
is_merged _ = false

pub record LabeledTrajectory : Type 0 where
  pub run_id : String
  pub pr_number : Option ℕ
  pub label : Bool
  pub decision : ReviewDecision
  pub features : TrajectoryFeatures
  pub config_name : String

-- `max(reviews, key=lambda r: r.at)`: the first of the latest.
unfoldable pub latest : StampedReview → List StampedReview → StampedReview
latest r [] = r
latest r (s ∷ rest) = latest (if ltb r.at s.at then s else r) rest

abbrev pub is_human : StampedReview → Bool
is_human r = not (mem r.review.reviewer machine_reviewers)

abbrev pub is_decisive : StampedReview → Bool
is_decisive r = is_positive r.review.decision || is_negative r.review.decision

unfoldable pub label_of : List StampedReview → Option (Bool × ReviewDecision)
unfolding latest
label_of [] = none
label_of (r ∷ rest) =
    let last = latest r rest in some (is_positive last.review.decision, last.review.decision)

-- `human_label`, from the reviews of the run; the label is true for 1.
unfoldable pub human_label : List StampedReview → Option (Bool × ReviewDecision)
unfolding label_of
human_label all_reviews =
    let reviews = select is_human all_reviews in
    if any (λ (r : StampedReview). is_merged r.review.decision) reviews
    then some (true, merged)
    else label_of (select is_decisive reviews)

-- `build_dataset`, over the reviews and the steps of the store.
unfoldable pub build_dataset :
    (String → List StampedReview) → (String → List Step) → List AgentRun → List LabeledTrajectory
build_dataset reviews steps [] = []
build_dataset reviews steps (run ∷ rest) =
    let others = build_dataset reviews steps rest in
    elim (human_label (reviews run.id)) [
      | none ↦ others
      | some labelled ↦
          record {
            run_id = run.id;
            pr_number = run.pr_number;
            label = labelled.0;
            decision = labelled.1;
            features = extract_features run (steps run.id) none none;
            config_name = run.config.name;
          }
          ∷ others
    ]

-- The share `agreement` is kept as the fraction that is rounded; 0 is the fraction 0 / 1.
pub record AgreementReport : Type 0 where
  pub count : ℕ
  pub agreement : ℕ × ℕ
  pub true_positive : ℕ
  pub true_negative : ℕ
  pub false_positive : ℕ
  pub false_negative : ℕ
  pub scores : List ℕ

abbrev pub empty_report : ℕ → AgreementReport
empty_report count = record {
  count = count;
  agreement = (0, 1);
  true_positive = 0;
  true_negative = 0;
  false_positive = 0;
  false_negative = 0;
  scores = [];
}

-- One item of the loop of `agreement`.
unfoldable pub counted : Bool → Bool → AgreementReport → AgreementReport
counted predicted label report =
    if predicted && label
    then record report { true_positive = report.true_positive + 1 }
    else if not predicted && not label
    then record report { true_negative = report.true_negative + 1 }
    else if predicted
    then record report { false_positive = report.false_positive + 1 }
    else record report { false_negative = report.false_negative + 1 }

module _ (score : TrajectoryFeatures → ℕ) (threshold : ℕ) where
  unfoldable pub tally_items : List LabeledTrajectory → AgreementReport → AgreementReport
  unfolding counted
  tally_items [] report = report
  tally_items (item ∷ rest) report =
      let s = score item.features in
      tally_items rest
        (counted (leb threshold s) item.label (record report { scores = report.scores ++ s ∷ [] }))

  -- `agreement`
  unfoldable pub agreement : List LabeledTrajectory → AgreementReport
  unfolding tally_items
  agreement dataset =
      let report = tally_items dataset (empty_report (length dataset)) in
      if is_empty dataset then report else record report {
        agreement = (report.true_positive + report.true_negative, length dataset);
      }
