-- ===== src/Evals/Report.antt =====
-- evals/report.py: `summarize`. Sums are kept unrounded, and a mean as its
-- sum; the number of results is `attempted`.
use autonomous_software_engi.Prelude.{
  if◌then◌else◌, length, ℕ, ◌+◌, String, Bool, ◌&&◌, ◌||◌, List, [], ◌∷◌, ◌++◌, map, str_eq,
}
use Prim.Native.String
use text.Mathlib.Text.{is_lt}
use autonomous_software_engi.Contracts.Trace.{EvalResult}

pub record ConfigSummary : Type 0 where
  pub suite : String
  pub config_name : String
  pub attempted : ℕ
  pub resolved : ℕ
  pub total_cost_usd : ℕ
  pub total_steps : ℕ
  pub total_wall_ms : ℕ

-- The results of one suite under one configuration.
pub record Group : Type 0 where
  pub suite : String
  pub config_name : String
  pub items : List EvalResult

unfoldable pub same_group : EvalResult → String → String → Bool
same_group item suite config_name = str_eq item.suite suite && str_eq item.config_name config_name

-- `groups[(item.suite, item.config_name)].append(item)`
unfoldable pub add_to_groups : EvalResult → List Group → List Group
unfolding same_group
add_to_groups item [] =
    record { suite = item.suite; config_name = item.config_name; items = item ∷ [] } ∷ []
add_to_groups item (g ∷ rest) =
    if same_group item g.suite g.config_name
    then record g { items = g.items ++ item ∷ [] } ∷ rest
    else g ∷ add_to_groups item rest

unfoldable pub grouped : List EvalResult → List Group → List Group
unfolding add_to_groups
grouped [] groups = groups
grouped (item ∷ items) groups = grouped items (add_to_groups item groups)

-- The order of the pairs (suite, config).
group_before : Group → Group → Bool
group_before a b =
    is_lt (String.compare a.suite b.suite)
    || (str_eq a.suite b.suite && is_lt (String.compare a.config_name b.config_name))

unfoldable pub insert_group : Group → List Group → List Group
unfolding group_before
insert_group g [] = g ∷ []
insert_group g (h ∷ rest) =
    let later = insert_group g rest in if group_before g h then g ∷ h ∷ rest else h ∷ later

unfoldable pub sorted_groups : List Group → List Group
unfolding insert_group
sorted_groups [] = []
sorted_groups (g ∷ rest) = insert_group g (sorted_groups rest)

-- `sum(f(item) for item in items)`
abbrev pub total : (EvalResult → ℕ) → List EvalResult → ℕ
total f [] = 0
total f (item ∷ items) = f item + total f items

abbrev pub one_if_resolved : EvalResult → ℕ
one_if_resolved item = if item.resolved then 1 else 0

unfoldable pub summary_of : Group → ConfigSummary
summary_of g = record {
  suite = g.suite;
  config_name = g.config_name;
  attempted = length g.items;
  resolved = total one_if_resolved g.items;
  total_cost_usd = total (λ item. item.cost_usd) g.items;
  total_steps = total (λ item. item.steps) g.items;
  total_wall_ms = total (λ item. item.wall_ms) g.items;
}

unfoldable pub summarize : List EvalResult → List ConfigSummary
unfolding grouped sorted_groups summary_of
summarize results = map summary_of (sorted_groups (grouped results []))
