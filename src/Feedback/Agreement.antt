-- ===== src/Feedback/Agreement.antt =====
-- What the agreement of a scorer with the labels counts.
use autonomous_software_engi.Prelude.{
  ltb, leb, if◌then◌else◌, length, ℕ, ◌+◌, ◌≡◌, refl, sym, ap, ◌∙◌, ◌≢◌, Bool, not, ◌&&◌, List, [],
  ◌∷◌, ◌++◌, map, arith,
}
use mathlib.Core.List.{append-nil, append_assoc}
use native.Mathlib.Nat.{zero-add}
use autonomous_software_engi.Feedback.Features.{TrajectoryFeatures}
use autonomous_software_engi.Feedback.Dataset.{
  LabeledTrajectory, AgreementReport, counted, empty_report, tally_items, agreement,
}

-- One item more where the test holds.
abbrev add_if : Bool → ℕ → ℕ
add_if b n = if b then n + 1 else n

-- How many items pass the test.
abbrev pub count_if : (LabeledTrajectory → Bool) → List LabeledTrajectory → ℕ
count_if f [] = 0
count_if f (item ∷ rest) = add_if (f item) (count_if f rest)

-- The items whose score reaches the threshold, and those below it, with each label.
module _ (score : TrajectoryFeatures → ℕ) (threshold : ℕ) where
  abbrev pub reaches : LabeledTrajectory → Bool
  reaches item = leb threshold (score item.features)

  abbrev pub below : LabeledTrajectory → Bool
  below item = ltb (score item.features) threshold

  abbrev pub reaches_positive : LabeledTrajectory → Bool
  reaches_positive item = reaches item && item.label

  abbrev pub below_negative : LabeledTrajectory → Bool
  below_negative item = below item && not item.label

  abbrev pub reaches_negative : LabeledTrajectory → Bool
  reaches_negative item = reaches item && not item.label

  abbrev pub below_positive : LabeledTrajectory → Bool
  below_positive item = below item && item.label

  -- The prediction is the label.
  abbrev pub is_right : LabeledTrajectory → Bool
  is_right item = if item.label then reaches item else below item

  -- The report `r` with the items of a dataset counted on top of it.
  record Added (r : AgreementReport) (items : List LabeledTrajectory) (r' : AgreementReport)
      : Type 0 where
    true_positives : r'.true_positive ≡ r.true_positive + count_if reaches_positive items
    true_negatives : r'.true_negative ≡ r.true_negative + count_if below_negative items
    false_positives : r'.false_positive ≡ r.false_positive + count_if reaches_negative items
    false_negatives : r'.false_negative ≡ r.false_negative + count_if below_positive items
    all_scores :
        r'.scores ≡ r.scores ++ map (λ (item : LabeledTrajectory). score item.features) items
    same_count : r'.count ≡ r.count
    same_share : r'.agreement ≡ r.agreement

  counted-Added :
      (item : LabeledTrajectory) (r : AgreementReport)
      → Added r (item ∷ []) (
          counted
            (leb threshold (score item.features))
            item.label
            (record r { scores = r.scores ++ score item.features ∷ [] }))
  unfolding counted
  counted-Added item r = record {
    true_positives = ground arith;
    true_negatives = ground arith;
    false_positives = ground arith;
    false_negatives = ground arith;
    all_scores = ground arith;
    same_count = ground arith;
    same_share = ground arith;
  }

  Added-cons :
      (item : LabeledTrajectory) (items : List LabeledTrajectory) (r r' r'' : AgreementReport)
      → Added r (item ∷ []) r'
      → Added r' items r''
      → Added r (item ∷ items) r''
  Added-cons item items r r' r'' a b = record {
    true_positives = ground (arith, a.true_positives, b.true_positives);
    true_negatives = ground (arith, a.true_negatives, b.true_negatives);
    false_positives = ground (arith, a.false_positives, b.false_positives);
    false_negatives = ground (arith, a.false_negatives, b.false_negatives);
    all_scores =
        b.all_scores
        ∙ ap (λ s. s ++ map (λ (x : LabeledTrajectory). score x.features) items) a.all_scores
        ∙ append_assoc r.scores (score item.features ∷ []) _;
    same_count = b.same_count ∙ a.same_count;
    same_share = b.same_share ∙ a.same_share;
  }

  tally_items-Added :
      (items : List LabeledTrajectory) (r : AgreementReport)
      → Added r items (tally_items score threshold items r)
  unfolding tally_items
  tally_items-Added [] r = record {
    true_positives = omega arith;
    true_negatives = omega arith;
    false_positives = omega arith;
    false_negatives = omega arith;
    all_scores = sym (append-nil r.scores);
    same_count = refl;
    same_share = refl;
  }
  tally_items-Added (item ∷ rest) r =
      Added-cons item rest r _ _ (counted-Added item r) (tally_items-Added rest _)

  right-positives_negatives :
      (items : List LabeledTrajectory)
      → count_if is_right items ≡ count_if reaches_positive items + count_if below_negative items
  right-positives_negatives [] = omega arith
  right-positives_negatives (item ∷ rest) = ground (arith, right-positives_negatives rest)

  cases-length :
      (items : List LabeledTrajectory)
      → count_if reaches_positive items
          + count_if below_negative items
          + count_if reaches_negative items
          + count_if below_positive items
        ≡ length items
  cases-length [] = omega arith
  cases-length (item ∷ rest) = ground (arith, cases-length rest)

  -- The report of a dataset: each number by the items that it is to count.
  pub record Tallied (dataset : List LabeledTrajectory) (r : AgreementReport) : Type 0 where
    pub true_positives : r.true_positive ≡ count_if reaches_positive dataset
    pub true_negatives : r.true_negative ≡ count_if below_negative dataset
    pub false_positives : r.false_positive ≡ count_if reaches_negative dataset
    pub false_negatives : r.false_negative ≡ count_if below_positive dataset
    pub sum :
        r.true_positive + r.true_negative + r.false_positive + r.false_negative ≡ length dataset
    pub scored : r.scores ≡ map (λ (item : LabeledTrajectory). score item.features) dataset
    pub size : r.count ≡ length dataset
    pub share : dataset ≢ [] → r.agreement ≡ (count_if is_right dataset, length dataset)
    pub no_share : dataset ≡ [] → r.agreement ≡ (0, 1)

  Added-Tallied :
      (dataset : List LabeledTrajectory) (r : AgreementReport) (share : ℕ × ℕ)
      → Added (empty_report (length dataset)) dataset r
      → (dataset ≢ [] → share ≡ (r.true_positive + r.true_negative, length dataset))
      → (dataset ≡ [] → share ≡ (0, 1))
      → Tallied dataset (record r { agreement = share })
  Added-Tallied dataset r share a full none_yet = record {
    true_positives = a.true_positives ∙ zero-add _;
    true_negatives = a.true_negatives ∙ zero-add _;
    false_positives = a.false_positives ∙ zero-add _;
    false_negatives = a.false_negatives ∙ zero-add _;
    sum = omega (
      arith,
      a.true_positives,
      a.true_negatives,
      a.false_positives,
      a.false_negatives,
      cases-length dataset,
    );
    scored = a.all_scores;
    size = a.same_count;
    share = λ some_items.
        let right : r.true_positive + r.true_negative ≡ count_if is_right dataset =
          omega (arith, a.true_positives, a.true_negatives, right-positives_negatives dataset) in
        full some_items ∙ ap (λ n. (n, length dataset)) right;
    no_share = none_yet;
  }

  -- The report counts as true positives the items with a score of at least the threshold and a
  -- positive label, as true negatives those with a score below it and a negative label, as false
  -- positives those with a score of at least the threshold and a negative label, and as false
  -- negatives those with a score below it and a positive label; together they are the dataset, whose
  -- length is the count. The scores are those of the items, in their order. The share, before it is
  -- rounded, is the number of items predicted as their label over the length of the dataset, and 0 of
  -- an empty one.
  pub agreement-Tallied :
      (dataset : List LabeledTrajectory) → Tallied dataset (agreement score threshold dataset)
  unfolding agreement
  agreement-Tallied [] =
      let a = tally_items-Added [] (empty_report 0) in
      Added-Tallied [] _ _ a (λ some_items. absurd (some_items refl)) λ e. a.same_share
  agreement-Tallied (item ∷ rest) =
      Added-Tallied (item ∷ rest) _ _ (tally_items-Added (item ∷ rest) _) (λ some_items. refl)
        λ e. cc
