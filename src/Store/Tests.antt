-- ===== src/Store/Tests.antt =====
-- Both stores after a few writes.
use autonomous_software_engi.Prelude.{ℕ, refl, false, none, List, [], ◌∷◌, arith}
use autonomous_software_engi.Exec.{Result, ok, err, value_error}
use autonomous_software_engi.Contracts.Trace.{Step, Patch, TestReport, Review, EvalResult}
use autonomous_software_engi.Contracts.Run.{AgentRun}
use autonomous_software_engi.Agent.Example.{example_run}
use autonomous_software_engi.Store.{empty_store, add_step_row, add_patch_row}
use autonomous_software_engi.Store.Sqlite.{Models, empty_tables}
use autonomous_software_engi.Store.Refines.{
  Write, write, saved, step_added, patch_added, Faithful, writes, sql_writes,
}
use autonomous_software_engi.Store.Answers.{Agrees, writes-Agrees}

-- A column that holds the model itself.
data Body : Type 0 where
  run : AgentRun → Body
  step : Step → Body
  patch : Patch → Body
  report : TestReport → Body
  review : Review → Body
  result : EvalResult → Body

abbrev load_run : Body → Result AgentRun
load_run (run x) = ok x
load_run b = err (value_error "model")

abbrev load_step : Body → Result Step
load_step (step x) = ok x
load_step b = err (value_error "model")

abbrev load_patch : Body → Result Patch
load_patch (patch x) = ok x
load_patch b = err (value_error "model")

abbrev load_report : Body → Result TestReport
load_report (report x) = ok x
load_report b = err (value_error "model")

abbrev load_review : Body → Result Review
load_review (review x) = ok x
load_review b = err (value_error "model")

abbrev load_result : Body → Result EvalResult
load_result (result x) = ok x
load_result b = err (value_error "model")

abbrev models : Models Body
models = record {
  run = record { dump = run; load = load_run };
  step = record { dump = step; load = load_step };
  patch = record { dump = patch; load = load_patch };
  report = record { dump = report; load = load_report };
  review = record { dump = review; load = load_review };
  result = record { dump = result; load = load_result };
  updated_at = λ r. r.iteration;
  sort_keys = λ b. b;
}

models-Faithful : Faithful models
models-Faithful = record {
  run = λ x. refl;
  step = λ x. refl;
  patch = λ x. refl;
  report = λ x. refl;
  review = λ x. refl;
  result = λ x. refl;
}

abbrev step_at : ℕ → Step
step_at n = record {
  run_id = "r1";
  index = n;
  node = "implement";
  model = none;
  prompt_tokens = 0;
  output_tokens = 0;
  cached_tokens = 0;
  cost_usd = 0;
  tool_calls = [];
  thought = "";
}

abbrev patch_at : ℕ → Patch
patch_at n = record {
  run_id = "r1";
  step_index = n;
  diff = "";
  files = [];
  touched_tests = false;
  sha256 = "";
}

abbrev some_writes : List Write
some_writes =
    saved example_run
    ∷ step_added (step_at 1)
    ∷ patch_added (patch_at 1)
    ∷ step_added (step_at 2)
    ∷ patch_added (patch_at 1)
    ∷ []

writes-Agrees_example :
    Agrees models (writes some_writes empty_store) (sql_writes models some_writes empty_tables)
unfolding write autonomous_software_engi.Store.save add_step_row add_patch_row
writes-Agrees_example =
    writes-Agrees models some_writes models-Faithful
      (tt, (tt, (tt, (((λ e. omega arith), tt), (((λ e. omega arith), tt), tt)))))
