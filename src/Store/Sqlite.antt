-- ===== src/Store/Sqlite.antt =====
-- persistence.py: `SQLiteRunStore`. A table is the list of its rows by row id; what a text column
-- holds for a model is of a type `J`, written by `model_dump_json` and read by
-- `model_validate_json`.
use autonomous_software_engi.Prelude.{
  ◌==◌, if◌then◌else◌, length, select, ℕ, String, ◌≡◌, not, ◌&&◌, Option, none, some, List, [], ◌∷◌,
  ◌++◌, map, str_eq,
}
use autonomous_software_engi.Prelude.Sorting.{sort_by, reversed}
use autonomous_software_engi.Prelude.Dict.{Dict, insert, lookup, values}
use autonomous_software_engi.Exec.{Result, ok, err, ◌⋆◌, key_error}
use autonomous_software_engi.Contracts.Types.{RunState}
use autonomous_software_engi.Contracts.Trace.{Step, Patch, TestReport, Review, EvalResult}
use autonomous_software_engi.Contracts.Run.{AgentRun}

-- How a model is written to a column and read from it.
pub record Codec (J A : Type 0) : Type 0 where
  pub dump : A → J
  pub load : J → Result A

-- A text that was written is read as what it was written from.
abbrev pub RoundTrips : {J A : Type 0} → Codec J A → Type 0
RoundTrips {A = A} codec = (a : A) → codec.load (codec.dump a) ≡ ok a

-- `updated_at` is the time of the last change of a run.
pub record Models (J : Type 0) : Type 0 where
  pub run : Codec J AgentRun
  pub step : Codec J Step
  pub patch : Codec J Patch
  pub report : Codec J TestReport
  pub review : Codec J Review
  pub result : Codec J EvalResult
  pub updated_at : AgentRun → ℕ
  pub sort_keys : J → J

pub record RunRow (J : Type 0) : Type 0 where
  pub state : RunState
  pub payload : J
  pub updated_at : ℕ

-- A row of steps, patches, test_reports or reviews, by its run and its index or number.
pub record TraceRow (J : Type 0) : Type 0 where
  pub run_id : String
  pub idx : ℕ
  pub body : J

pub record ResultRow (J : Type 0) : Type 0 where
  pub suite : String
  pub task_id : String
  pub config_name : String
  pub run_id : String
  pub body : J

pub record Tables (J : Type 0) : Type 0 where
  pub agent_runs : Dict (RunRow J)
  pub steps : List (TraceRow J)
  pub patches : List (TraceRow J)
  pub test_reports : List (TraceRow J)
  pub reviews : List (TraceRow J)
  pub eval_results : List (ResultRow J)

abbrev pub empty_tables : {J : Type 0} → Tables J
empty_tables = record {
  agent_runs = [];
  steps = [];
  patches = [];
  test_reports = [];
  reviews = [];
  eval_results = [];
}

-- `[model.model_validate_json(row[0]) for row in rows]`
unfoldable pub load_all : {J A : Type 0} → Codec J A → List J → Result (List A)
load_all codec [] = ok []
load_all codec (j ∷ js) = codec.load j ⋆ λ a. load_all codec js ⋆ λ rest. ok (a ∷ rest)

-- `INSERT OR REPLACE` where no key can conflict.
unfoldable pub insert_row : {R : Type 0} → R → List R → List R
insert_row row rows = rows ++ row ∷ []

module _ {J : Type 0} where
  abbrev pub bodies : List (TraceRow J) → List J
  bodies rows = map (λ (r : TraceRow J). r.body) rows

  -- `INSERT OR REPLACE` where (run_id, idx) is the primary key: the row with that key goes.
  unfoldable pub insert_or_replace : TraceRow J → List (TraceRow J) → List (TraceRow J)
  insert_or_replace row rows =
      select (λ (r : TraceRow J). not (str_eq r.run_id row.run_id && r.idx == row.idx)) rows
      ++ row ∷ []

  -- `_select` for `run_id = ?`, ordered by idx; rows of the same index come by their row ids.
  unfoldable pub select_by_idx :
      {A : Type 0} → Codec J A → String → List (TraceRow J) → Result (List A)
  select_by_idx codec run_id rows = load_all codec (
      bodies (
        sort_by (λ (r : TraceRow J). r.idx)
          (select (λ (r : TraceRow J). str_eq r.run_id run_id) rows)))

  module _ (models : Models J) where
    -- `SQLiteRunStore.save`
    unfoldable pub sql_save : AgentRun → Tables J → Tables J
    sql_save run t = record t {
      agent_runs =
          insert run.id
            (record {
              state = run.state;
              payload = models.run.dump run;
              updated_at = models.updated_at run;
            })
            t.agent_runs;
    }

    -- The run of a row that is found.
    abbrev pub row_run : Option (RunRow J) → Result (Option AgentRun)
    row_run none = ok none
    row_run (some row) = models.run.load row.payload ⋆ λ run. ok (some run)

    -- `SQLiteRunStore.get`
    unfoldable pub sql_get : String → Tables J → Result (Option AgentRun)
    sql_get run_id t = row_run (lookup run_id t.agent_runs)

    -- The latest first: a sort by time, read from its end.
    unfoldable pub sql_list : Tables J → Result (List AgentRun)
    sql_list t = load_all models.run (
        map (λ (r : RunRow J). r.payload)
          (reversed (sort_by (λ (r : RunRow J). r.updated_at) (values t.agent_runs))))

    unfoldable pub sql_add_step : Step → Tables J → Tables J
    sql_add_step step t = record t {
      steps =
          insert_or_replace
            (record { run_id = step.run_id; idx = step.index; body = models.step.dump step })
            t.steps;
    }

    unfoldable pub sql_steps : String → Tables J → Result (List Step)
    sql_steps run_id t = select_by_idx models.step run_id t.steps

    unfoldable pub sql_add_patch : Patch → Tables J → Tables J
    sql_add_patch patch t = record t {
      patches =
          insert_row
            (record {
              run_id = patch.run_id;
              idx = patch.step_index;
              body = models.patch.dump patch;
            })
            t.patches;
    }

    unfoldable pub sql_patches : String → Tables J → Result (List Patch)
    sql_patches run_id t = select_by_idx models.patch run_id t.patches

    unfoldable pub sql_add_test_report : TestReport → Tables J → Tables J
    sql_add_test_report report t = record t {
      test_reports =
          insert_row
            (record {
              run_id = report.run_id;
              idx = report.step_index;
              body = models.report.dump report;
            })
            t.test_reports;
    }

    unfoldable pub sql_test_reports : String → Tables J → Result (List TestReport)
    sql_test_reports run_id t = select_by_idx models.report run_id t.test_reports

    unfoldable pub sql_add_review : Review → Tables J → Tables J
    sql_add_review review t = record t {
      reviews =
          insert_row
            (record {
              run_id = review.run_id;
              idx = review.pr_number;
              body = models.review.dump review;
            })
            t.reviews;
    }

    -- Without a run all reviews, by row id.
    unfoldable pub sql_reviews : Option String → Tables J → Result (List Review)
    sql_reviews none t = load_all models.review (bodies t.reviews)
    sql_reviews (some run_id) t =
        load_all models.review
          (bodies (select (λ (r : TraceRow J). str_eq r.run_id run_id) t.reviews))

    unfoldable pub sql_add_eval_result : EvalResult → Tables J → Tables J
    sql_add_eval_result result t = record t {
      eval_results =
          insert_row
            (record {
              suite = result.suite;
              task_id = result.task_id;
              config_name = result.config_name;
              run_id = result.run_id;
              body = models.result.dump result;
            })
            t.eval_results;
    }

    unfoldable pub sql_eval_results : Option String → Tables J → Result (List EvalResult)
    sql_eval_results none t =
        load_all models.result (map (λ (r : ResultRow J). r.body) t.eval_results)
    sql_eval_results (some suite) t = load_all models.result (
        map (λ (r : ResultRow J). r.body)
          (select (λ (r : ResultRow J). str_eq r.suite suite) t.eval_results))

    -- The rows that a table of this name exports, by row id.
    exported : String → Tables J → Option (List J)
    exported name t =
        if str_eq name "agent_runs"
        then some (map (λ (r : RunRow J). r.payload) (values t.agent_runs))
        else if str_eq name "steps"
        then some (bodies t.steps)
        else if str_eq name "patches"
        then some (bodies t.patches)
        else if str_eq name "test_reports"
        then some (bodies t.test_reports)
        else if str_eq name "reviews"
        then some (bodies t.reviews)
        else if str_eq name "eval_results"
        then some (map (λ (r : ResultRow J). r.body) t.eval_results)
        else none

    -- `SQLiteRunStore.export_jsonl`: the lines of the file, and their number.
    unfoldable pub export_jsonl : String → Tables J → Result (List J × ℕ)
    unfolding exported
    export_jsonl name t = elim (exported name t) [
      | none ↦ err (key_error name)
      | some rows ↦ ok (map models.sort_keys rows, length rows)
    ]
