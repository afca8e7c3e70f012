-- ===== src/Feedback/Features.antt =====
-- feedback/features.py: `extract_features`. Numbers are kept before they are made floats: the lines of
-- the diff before the logarithm, and the overlap as two counts.
use autonomous_software_engi.Prelude.{
  length, take, select, ℕ, ◌+◌, String, Bool, true, false, not, ◌&&◌, ◌||◌, Option, none, some,
  List, [], ◌∷◌, map, str_eq,
}
use autonomous_software_engi.Prelude.Text.{mem, starts_with, splitlines}
use autonomous_software_engi.Contracts.Types.{ContextItem}
use autonomous_software_engi.Contracts.Trace.{Step, Patch, TestReport, green, regressions}
use autonomous_software_engi.Contracts.Run.{AgentRun}

pub record TrajectoryFeatures : Type 0 where
  pub tests_green : Bool
  pub no_test_edits : Bool
  pub diff_lines : ℕ
  pub retrieval_overlap : ℕ × ℕ
  pub iterations : ℕ
  pub regressions : ℕ
  pub files_changed : ℕ
  pub tool_calls : ℕ
  pub gave_up : Bool

-- A line that was added or removed, and no file header.
abbrev is_change : String → Bool
is_change line =
    (starts_with line "+" || starts_with line "-")
    && not (starts_with line "+++")
    && not (starts_with line "---")

-- `_diff_lines`
unfoldable pub diff_lines : String → ℕ
diff_lines diff = length (select is_change (splitlines diff))

tool_call_count : List Step → ℕ
tool_call_count [] = 0
tool_call_count (step ∷ steps) = length step.tool_calls + tool_call_count steps

abbrev given_or {ℓ} : {A : Type ℓ} → Option A → Option A → Option A
given_or none other = other
given_or (some a) other = some a

abbrev when {ℓ} : {A : Type ℓ} {B : Type 0} → B → (A → B) → Option A → B
when default f none = default
when default f (some a) = f a

unfoldable pub extract_features :
    AgentRun → List Step → Option Patch → Option TestReport → TrajectoryFeatures
unfolding diff_lines tool_call_count
extract_features run steps given_patch given_report =
    let patch = given_or given_patch run.patch in
    let report = given_or given_report run.test_report in
    let context_files = map (λ (item : ContextItem). item.path) (take 10 run.context) in
    let touched = when [] (λ (p : Patch). p.files) patch in
    record {
      tests_green = when false green report;
      no_test_edits = when true (λ (p : Patch). not p.touched_tests) patch;
      diff_lines = when 0 (λ (p : Patch). diff_lines p.diff) patch;
      retrieval_overlap =
          (length (select (λ path. mem path context_files) touched), length touched);
      iterations = run.iteration;
      regressions = when 0 (λ (r : TestReport). length (regressions r)) report;
      files_changed = length touched;
      tool_calls = tool_call_count steps;
      gave_up =
          when false (λ outcome. str_eq outcome "gave_up" || str_eq outcome "failed") run.outcome;
    }
