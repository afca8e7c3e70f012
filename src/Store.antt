-- ===== src/Store.antt =====
-- store.py: `MemoryRunStore`. Runs are copied on the way in and out, so a stored run changes only
-- by `save`; the model's values are immutable and need no copies.
pub mod Sqlite
pub mod Rows
pub mod Refines
pub mod Answers
mod Tests
use autonomous_software_engi.Prelude.{
  if◌then◌else◌, select, String, ◌≡◌, ◌⊎◌, Bool, true, Option, none, some, List, [], ◌∷◌, ◌++◌,
  arith, str_eq, eq_iff,
}
use autonomous_software_engi.Prelude.Dict.{Dict, lookup, insert, lookup-insert, values}
use autonomous_software_engi.Contracts.Trace.{Step, Patch, TestReport, Review, EvalResult}
use autonomous_software_engi.Contracts.Run.{AgentRun}

pub record Store : Type 0 where
  pub runs : Dict AgentRun
  pub step_rows : List Step
  pub patch_rows : List Patch
  pub report_rows : List TestReport
  pub review_rows : List Review
  pub result_rows : List EvalResult

abbrev pub empty_store : Store
empty_store = record {
  runs = [];
  step_rows = [];
  patch_rows = [];
  report_rows = [];
  review_rows = [];
  result_rows = [];
}

unfoldable pub save : AgentRun → Store → Store
save run s = record s { runs = insert run.id run s.runs }

unfoldable pub get : String → Store → Option AgentRun
get run_id s = lookup run_id s.runs

unfoldable pub list_runs : Store → List AgentRun
list_runs s = values s.runs

unfoldable pub add_step_row : Step → Store → Store
add_step_row step s = record s { step_rows = s.step_rows ++ step ∷ [] }

unfoldable pub steps_of : String → Store → List Step
steps_of run_id s = select (λ (step : Step). str_eq step.run_id run_id) s.step_rows

unfoldable pub add_patch_row : Patch → Store → Store
add_patch_row patch s = record s { patch_rows = s.patch_rows ++ patch ∷ [] }

unfoldable pub patches_of : String → Store → List Patch
patches_of run_id s = select (λ (patch : Patch). str_eq patch.run_id run_id) s.patch_rows

unfoldable pub add_report_row : TestReport → Store → Store
add_report_row report s = record s { report_rows = s.report_rows ++ report ∷ [] }

unfoldable pub reports_of : String → Store → List TestReport
reports_of run_id s = select (λ (report : TestReport). str_eq report.run_id run_id) s.report_rows

unfoldable pub add_review_row : Review → Store → Store
add_review_row review s = record s { review_rows = s.review_rows ++ review ∷ [] }

abbrev matches : Option String → String → Bool
matches none x = true
matches (some y) x = str_eq x y

unfoldable pub reviews_of : Option String → Store → List Review
reviews_of run_id s = select (λ (item : Review). matches run_id item.run_id) s.review_rows

unfoldable pub add_result_row : EvalResult → Store → Store
add_result_row result s = record s { result_rows = s.result_rows ++ result ∷ [] }

unfoldable pub results_of : Option String → Store → List EvalResult
results_of suite s = select (λ (item : EvalResult). matches suite item.suite) s.result_rows

-- A run that is fetched after a save: the saved one under its own id, else the one from before.
pub get-save :
    (run_id : String) (run : AgentRun) (s : Store)
    → get run_id (save run s) ≡ (if str_eq run.id run_id then some run else get run_id s)
unfolding get save
get-save run_id run s = lookup-insert run.id run_id run s.runs

-- A run that is there after a save is the saved one, or was there before.
pub get-save_cases :
    (run_id : String) (run r : AgentRun) (s : Store)
    → get run_id (save run s) ≡ some r
    → (run ≡ r) ⊎ (get run_id s ≡ some r)
get-save_cases run_id run r s h = ground (arith, get-save run_id run s)

pub get-save_self : (run : AgentRun) (s : Store) → get run.id (save run s) ≡ some run
get-save_self run s = ground (arith, get-save run.id run s, eq_iff run.id run.id)
