-- ===== src/Store/Refines.antt =====
-- The tables of `SQLiteRunStore` represent the store in memory after the same writes.
use autonomous_software_engi.Prelude.{All, ◌≤◌, ◌<◌, ◌≡◌, sym, ap, ◌∙◌, List, [], ◌∷◌, ◌++◌, map}
use autonomous_software_engi.Prelude.Sorting.{AllPairs, AllPairs-append}
use autonomous_software_engi.Prelude.Dict.{insert}
use autonomous_software_engi.Contracts.Trace.{Step, Patch, TestReport, Review, EvalResult}
use autonomous_software_engi.Contracts.Run.{AgentRun}
use autonomous_software_engi.Store.{
  Store, save, add_step_row, add_patch_row, add_report_row, add_review_row, add_result_row,
}
use autonomous_software_engi.Store.Sqlite.{
  Models, RoundTrips, RunRow, TraceRow, ResultRow, Tables, insert_row, insert_or_replace, sql_save,
  sql_add_step, sql_add_patch, sql_add_test_report, sql_add_review, sql_add_eval_result,
}
use autonomous_software_engi.Store.Rows.{
  map-append, map_values, insert-map_values, row_of, NotAfter, Before, insert_or_replace-fresh,
}

-- A write to the store.
pub data Write : Type 0 where
  saved : AgentRun → Write
  step_added : Step → Write
  patch_added : Patch → Write
  report_added : TestReport → Write
  review_added : Review → Write
  result_added : EvalResult → Write

-- The write to the store in memory.
unfoldable pub write : Write → Store → Store
write (saved run) s = save run s
write (step_added step) s = add_step_row step s
write (patch_added patch) s = add_patch_row patch s
write (report_added report) s = add_report_row report s
write (review_added review) s = add_review_row review s
write (result_added result) s = add_result_row result s

unfoldable pub writes : List Write → Store → Store
unfolding write
writes [] s = s
writes (w ∷ ws) s = writes ws (write w s)

-- The next step of a run has a greater index than its earlier ones, and the next patch or report no
-- smaller one.
abbrev pub Fits : Write → Store → Type 0
Fits (step_added step) s =
    All (λ (x : Step). x.run_id ≡ step.run_id → x.index < step.index) s.step_rows
Fits (patch_added patch) s =
    All (λ (x : Patch). x.run_id ≡ patch.run_id → x.step_index ≤ patch.step_index) s.patch_rows
Fits (report_added report) s =
    All (λ (x : TestReport). x.run_id ≡ report.run_id → x.step_index ≤ report.step_index)
      s.report_rows
Fits w s = Unit

abbrev pub InOrder : List Write → Store → Type 0
InOrder [] s = Unit
InOrder (w ∷ ws) s = Fits w s × InOrder ws (write w s)

-- What is written is read back as it was.
pub record Faithful {J : Type 0} (models : Models J) : Type 0 where
  pub run : RoundTrips models.run
  pub step : RoundTrips models.step
  pub patch : RoundTrips models.patch
  pub report : RoundTrips models.report
  pub review : RoundTrips models.review
  pub result : RoundTrips models.result

module _ {J : Type 0} (models : Models J) where
  -- The same write to the database.
  unfoldable pub sql_write : Write → Tables J → Tables J
  sql_write (saved run) t = sql_save models run t
  sql_write (step_added step) t = sql_add_step models step t
  sql_write (patch_added patch) t = sql_add_patch models patch t
  sql_write (report_added report) t = sql_add_test_report models report t
  sql_write (review_added review) t = sql_add_review models review t
  sql_write (result_added result) t = sql_add_eval_result models result t

  unfoldable pub sql_writes : List Write → Tables J → Tables J
  unfolding sql_write
  sql_writes [] t = t
  sql_writes (w ∷ ws) t = sql_writes ws (sql_write w t)

  abbrev pub run_row : AgentRun → RunRow J
  run_row run = record {
    state = run.state;
    payload = models.run.dump run;
    updated_at = models.updated_at run;
  }

  abbrev pub step_row : Step → TraceRow J
  step_row = row_of models.step (λ x. x.run_id) (λ x. x.index)

  abbrev pub patch_row : Patch → TraceRow J
  patch_row = row_of models.patch (λ x. x.run_id) (λ x. x.step_index)

  abbrev pub report_row : TestReport → TraceRow J
  report_row = row_of models.report (λ x. x.run_id) (λ x. x.step_index)

  abbrev pub review_row : Review → TraceRow J
  review_row = row_of models.review (λ x. x.run_id) (λ x. x.pr_number)

  abbrev pub result_row : EvalResult → ResultRow J
  result_row x = record {
    suite = x.suite;
    task_id = x.task_id;
    config_name = x.config_name;
    run_id = x.run_id;
    body = models.result.dump x;
  }

  -- A table of traces holds the models row by row, and those of a run by their order.
  pub record Holds {A : Type 0} (row : A → TraceRow J) (R : A → A → Type 0) (xs : List A)
      (table : List (TraceRow J)) : Type 0 where
    pub rows_are : table ≡ map row xs
    pub ordered : AllPairs R xs

  -- The tables hold what the store in memory holds.
  pub record Represents (s : Store) (t : Tables J) : Type 0 where
    pub runs : t.agent_runs ≡ map_values run_row s.runs
    pub steps :
        Holds step_row (Before models.step (λ x. x.run_id) (λ x. x.index)) s.step_rows t.steps
    pub patches :
        Holds patch_row
          (NotAfter models.patch (λ x. x.run_id) (λ x. x.step_index))
          s.patch_rows
          t.patches
    pub reports :
        Holds report_row
          (NotAfter models.report (λ x. x.run_id) (λ x. x.step_index))
          s.report_rows
          t.test_reports
    pub reviews : t.reviews ≡ map review_row s.review_rows
    pub results : t.eval_results ≡ map result_row s.result_rows

  Holds-append :
      {A : Type 0} (row : A → TraceRow J) (R : A → A → Type 0) (xs : List A) (y : A)
      (table : List (TraceRow J))
      → Holds row R xs table
      → All (λ x. R x y) xs
      → Holds row R (xs ++ y ∷ []) (insert_row (row y) table)
  unfolding insert_row
  Holds-append row R xs y table h f = record {
    rows_are = ap (λ rows. rows ++ row y ∷ []) h.rows_are ∙ sym (map-append row xs y);
    ordered = AllPairs-append R xs y h.ordered f;
  }

  write-Represents :
      (w : Write) (s : Store) (t : Tables J)
      → Fits w s
      → Represents s t
      → Represents (write w s) (sql_write w t)
  unfolding write sql_write save add_step_row add_patch_row add_report_row add_review_row
      add_result_row sql_save sql_add_step sql_add_patch sql_add_test_report sql_add_review
      sql_add_eval_result insert_row
  write-Represents (saved run) s t f r = record {
    runs = ap (insert run.id (run_row run)) r.runs ∙ insert-map_values run_row run.id run s.runs;
    steps = r.steps;
    patches = r.patches;
    reports = r.reports;
    reviews = r.reviews;
    results = r.results;
  }
  write-Represents (step_added step) s t f r = record {
    runs = r.runs;
    steps = record {
      rows_are =
          ap (insert_or_replace (step_row step)) r.steps.rows_are
          ∙ insert_or_replace-fresh models.step (λ x. x.run_id) (λ x. x.index) step s.step_rows f;
      ordered = AllPairs-append _ s.step_rows step r.steps.ordered f;
    };
    patches = r.patches;
    reports = r.reports;
    reviews = r.reviews;
    results = r.results;
  }
  write-Represents (patch_added patch) s t f r = record {
    runs = r.runs;
    steps = r.steps;
    patches = Holds-append patch_row _ s.patch_rows patch t.patches r.patches f;
    reports = r.reports;
    reviews = r.reviews;
    results = r.results;
  }
  write-Represents (report_added report) s t f r = record {
    runs = r.runs;
    steps = r.steps;
    patches = r.patches;
    reports = Holds-append report_row _ s.report_rows report t.test_reports r.reports f;
    reviews = r.reviews;
    results = r.results;
  }
  write-Represents (review_added review) s t f r = record {
    runs = r.runs;
    steps = r.steps;
    patches = r.patches;
    reports = r.reports;
    reviews =
        ap (λ rows. rows ++ review_row review ∷ []) r.reviews
        ∙ sym (map-append review_row s.review_rows review);
    results = r.results;
  }
  write-Represents (result_added result) s t f r = record {
    runs = r.runs;
    steps = r.steps;
    patches = r.patches;
    reports = r.reports;
    reviews = r.reviews;
    results =
        ap (λ rows. rows ++ result_row result ∷ []) r.results
        ∙ sym (map-append result_row s.result_rows result);
  }

  pub writes-Represents :
      (ws : List Write) (s : Store) (t : Tables J)
      → InOrder ws s
      → Represents s t
      → Represents (writes ws s) (sql_writes ws t)
  unfolding writes sql_writes
  writes-Represents [] s t o r = r
  writes-Represents (w ∷ ws) s t o r =
      writes-Represents ws (write w s) (sql_write w t) o.1 (write-Represents w s t o.0 r)
