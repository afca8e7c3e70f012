-- ===== src/Store/Answers.antt =====
-- `SQLiteRunStore` keeps the promise of `MemoryRunStore`: after the same writes, both answer alike.
use autonomous_software_engi.Prelude.{
  select, All, ℕ, String, ◌≡◌, refl, ap, ◌∙◌, Option, none, some, List, [], ◌∷◌, map, arith, str_eq,
}
use mathlib.Core.List.{Perm}
use mathlib.Core.List.Perm
use autonomous_software_engi.Prelude.Sorting.{
  sort_by, AllPairs, sort_by-Perm, reversed, reversed-Perm,
}
use autonomous_software_engi.Prelude.Dict.{lookup, values}
use autonomous_software_engi.Exec.{ok, ◌⋆◌}
use autonomous_software_engi.Contracts.Trace.{Step, Review, EvalResult}
use autonomous_software_engi.Contracts.Run.{AgentRun}
use autonomous_software_engi.Store.{
  Store, empty_store, get, list_runs, steps_of, patches_of, reports_of, reviews_of, results_of,
}
use autonomous_software_engi.Store.Sqlite.{
  Models, Codec, RoundTrips, RunRow, TraceRow, ResultRow, Tables, empty_tables, select_by_idx,
  row_run, sql_get, sql_list, sql_steps, sql_patches, sql_test_reports, sql_reviews,
  sql_eval_results,
}
use autonomous_software_engi.Store.Rows.{
  load_all-dump, select-map, sort_by-map, reversed-map, select-all, map_values, lookup-map_values,
  values-map_values, map-map, row_of, NotAfter, Before, select_by_idx-rows,
}
use autonomous_software_engi.Store.Refines.{
  Write, writes, InOrder, Faithful, sql_writes, Holds, Represents, run_row, review_row, result_row,
  writes-Represents,
}

module _ {J : Type 0} (models : Models J) where
  -- Both stores give the same answers; the runs are listed in another order.
  pub record Agrees (s : Store) (t : Tables J) : Type 0 where
    pub run : (run_id : String) → sql_get models run_id t ≡ ok (get run_id s)
    pub runs : (rs : List AgentRun) × (sql_list models t ≡ ok rs) × Perm rs (list_runs s)
    pub steps : (run_id : String) → sql_steps models run_id t ≡ ok (steps_of run_id s)
    pub patches : (run_id : String) → sql_patches models run_id t ≡ ok (patches_of run_id s)
    pub reports : (run_id : String) → sql_test_reports models run_id t ≡ ok (reports_of run_id s)
    pub reviews : (run_id : Option String) → sql_reviews models run_id t ≡ ok (reviews_of run_id s)
    pub results :
        (suite : Option String) → sql_eval_results models suite t ≡ ok (results_of suite s)

  Before-NotAfter :
      (xs : List Step)
      → AllPairs (Before models.step (λ x. x.run_id) (λ x. x.index)) xs
      → AllPairs (NotAfter models.step (λ x. x.run_id) (λ x. x.index)) xs
  Before-NotAfter [] p = tt
  Before-NotAfter (x ∷ xs) p = (weaker xs p.0, Before-NotAfter xs p.1)
    where
      weaker :
          (ys : List Step)
          → All (Before models.step (λ x. x.run_id) (λ x. x.index) x) ys
          → All (NotAfter models.step (λ x. x.run_id) (λ x. x.index) x) ys
      weaker [] a = tt
      weaker (y ∷ ys) a = (λ e. omega (arith, a.0 e), weaker ys a.1)

  -- The models of a run that a table of traces holds in order.
  Holds-select :
      {A : Type 0} (codec : Codec J A) (owner : A → String) (index : A → ℕ) (xs : List A)
      (table : List (TraceRow J))
      → RoundTrips codec
      → Holds models (row_of codec owner index) (NotAfter codec owner index) xs table
      → (run_id : String)
      → select_by_idx codec run_id table ≡ ok (select (λ a. str_eq (owner a) run_id) xs)
  Holds-select codec owner index xs table c h run_id =
      ap (select_by_idx codec run_id) h.rows_are
      ∙ select_by_idx-rows codec owner index c run_id xs h.ordered

  get-Agrees :
      RoundTrips models.run
      → (s : Store) (t : Tables J) (run_id : String)
      → t.agent_runs ≡ map_values (run_row models) s.runs
      → sql_get models run_id t ≡ ok (get run_id s)
  unfolding sql_get get
  get-Agrees c s t run_id e =
      ap (λ rows. row_run models (lookup run_id rows)) e
      ∙ ap (row_run models) (lookup-map_values (run_row models) run_id s.runs)
      ∙ found (lookup run_id s.runs)
    where
      found :
          (o : Option AgentRun)
          → row_run models (elim o [ none ↦ none | some run ↦ some (run_row models run) ]) ≡ ok o
      found none = refl
      found (some run) = ap (λ r. r ⋆ λ run. ok (some run)) (c run)

  -- The runs by their time, each of them once.
  list-Agrees :
      RoundTrips models.run
      → (s : Store) (t : Tables J) → t.agent_runs ≡ map_values (run_row models) s.runs
      → (rs : List AgentRun) × (sql_list models t ≡ ok rs) × Perm rs (list_runs s)
  unfolding sql_list list_runs
  list-Agrees c s t e =
      let by_time = sort_by models.updated_at (values s.runs) in
      (
        reversed by_time,
        rw
            (
              e,
              values-map_values (run_row models) s.runs,
              sort_by-map (run_row models) (λ (r : RunRow J). r.updated_at) (values s.runs),
              reversed-map (run_row models) by_time,
              map-map (λ (r : RunRow J). r.payload) (run_row models) (reversed by_time),
            )
            (load_all-dump models.run c (reversed by_time)),
        Perm.trans (reversed-Perm by_time) (sort_by-Perm models.updated_at (values s.runs)),
      )

  reviews-Agrees :
      RoundTrips models.review
      → (s : Store) (t : Tables J) (run_id : Option String)
      → t.reviews ≡ map (review_row models) s.review_rows
      → sql_reviews models run_id t ≡ ok (reviews_of run_id s)
  unfolding sql_reviews reviews_of
  reviews-Agrees c s t none e =
      rw
        (
          e,
          map-map (λ (r : TraceRow J). r.body) (review_row models) s.review_rows,
          select-all s.review_rows,
        )
        (load_all-dump models.review c s.review_rows)
  reviews-Agrees c s t (some run_id) e =
      let mine = select (λ (x : Review). str_eq x.run_id run_id) s.review_rows in
      rw
        (
          e,
          select-map (review_row models) (λ (r : TraceRow J). str_eq r.run_id run_id) s.review_rows,
          map-map (λ (r : TraceRow J). r.body) (review_row models) mine,
        )
        (load_all-dump models.review c mine)

  results-Agrees :
      RoundTrips models.result
      → (s : Store) (t : Tables J) (suite : Option String)
      → t.eval_results ≡ map (result_row models) s.result_rows
      → sql_eval_results models suite t ≡ ok (results_of suite s)
  unfolding sql_eval_results results_of
  results-Agrees c s t none e =
      rw
        (
          e,
          map-map (λ (r : ResultRow J). r.body) (result_row models) s.result_rows,
          select-all s.result_rows,
        )
        (load_all-dump models.result c s.result_rows)
  results-Agrees c s t (some suite) e =
      let mine = select (λ (x : EvalResult). str_eq x.suite suite) s.result_rows in
      rw
        (
          e,
          select-map (result_row models) (λ (r : ResultRow J). str_eq r.suite suite) s.result_rows,
          map-map (λ (r : ResultRow J). r.body) (result_row models) mine,
        )
        (load_all-dump models.result c mine)

  Represents-Agrees :
      (s : Store) (t : Tables J) → Faithful models → Represents models s t → Agrees s t
  unfolding sql_steps steps_of sql_patches patches_of sql_test_reports reports_of
  Represents-Agrees s t c r = record {
    run = λ run_id. get-Agrees c.run s t run_id r.runs;
    runs = list-Agrees c.run s t r.runs;
    steps = λ run_id.
        ap (select_by_idx models.step run_id) r.steps.rows_are
        ∙ select_by_idx-rows models.step (λ x. x.run_id) (λ x. x.index) c.step run_id s.step_rows
            (Before-NotAfter s.step_rows r.steps.ordered);
    patches = λ run_id.
        Holds-select models.patch (λ x. x.run_id) (λ x. x.step_index) s.patch_rows t.patches c.patch
          r.patches run_id;
    reports = λ run_id.
        Holds-select models.report (λ x. x.run_id) (λ x. x.step_index) s.report_rows t.test_reports
          c.report r.reports run_id;
    reviews = λ run_id. reviews-Agrees c.review s t run_id r.reviews;
    results = λ suite. results-Agrees c.result s t suite r.results;
  }

  -- After any writes to empty stores in which the steps of each run come with increasing indices,
  -- and its patches and reports with indices that do not decrease, both stores give the same answers
  -- to every query; only the list of runs may have another order. Models are read as they were
  -- written.
  pub writes-Agrees :
      (ws : List Write)
      → Faithful models
      → InOrder ws empty_store
      → Agrees (writes ws empty_store) (sql_writes models ws empty_tables)
  writes-Agrees ws c o = Represents-Agrees _ _ c (
      writes-Represents models ws empty_store empty_tables o (record {
        runs = refl;
        steps = record { rows_are = refl; ordered = tt };
        patches = record { rows_are = refl; ordered = tt };
        reports = record { rows_are = refl; ordered = tt };
        reviews = refl;
        results = refl;
      }))
