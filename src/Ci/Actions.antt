-- ===== src/Ci/Actions.antt =====
-- ci/actions.py: from the workflow runs of a commit to the excerpt of its first failure. The GitHub
-- API and the masking of secrets are parameters; the rows that the API returns come decoded.
use autonomous_software_engi.Prelude.{
  ltb, leb, if◌then◌else◌, length, take, drop, any, ℕ, ◌+◌, ◌-◌, String, Bool, true, false, not,
  Option, none, some, List, [], ◌∷◌, ◌++◌, str_eq,
}
use autonomous_software_engi.Prelude.Text.{◌+s◌, join, decimal, contains, splitlines}
use autonomous_software_engi.Exec.{Exec, pure, ◌>>=◌}
use autonomous_software_engi.Agent.Services.{Platform, Call, call}

pub record WorkflowRun : Type 0 where
  pub id : ℕ
  pub name : String
  pub status : String
  pub conclusion : Option String
  pub html_url : String
  pub head_sha : String

-- A job as the API lists it: its steps with their conclusions.
pub record JobRow : Type 0 where
  pub id : ℕ
  pub name : String
  pub conclusion : Option String
  pub steps : List (String × Option String)

pub record Job : Type 0 where
  pub id : ℕ
  pub name : String
  pub conclusion : Option String
  pub failed_step : Option String

pub record FailureLog : Type 0 where
  pub run : WorkflowRun
  pub job : Job
  pub excerpt : String
  pub total_lines : ℕ
  pub truncated : Bool
  pub scrubbed : ℕ

-- The calls of `GitHubApi` that the watcher makes.
pub record GitHubApi (W : Type 0) : Type 0 where
  pub head_sha : String → ℕ → Call W String
  pub list_workflow_runs : String → String → Call W (List WorkflowRun)
  pub list_jobs : String → ℕ → Call W (List JobRow)
  pub job_log : String → ℕ → Call W String
  pub rerun_workflow : String → ℕ → Call W (Unit {0})
  pub create_issue_comment : String → ℕ → String → Call W (Unit {0})
  pub scrub_secrets : String → String × ℕ

abbrev pub error_markers : List String
error_markers =
    "Traceback (most recent call last)" ∷ "##[error]" ∷ "Error:" ∷ "FAILED " ∷ "AssertionError"
    ∷ "error[" ∷ "ERROR:" ∷ []

-- The index of the first line with an error marker.
unfoldable pub first_error : List String → Option ℕ
first_error [] = none
first_error (line ∷ rest) =
    let later = first_error rest in
    if any (λ m. contains line m) error_markers
    then some 0
    else elim later [ none ↦ none | some i ↦ some (i + 1) ]

-- `tail_start - first_error - window`, which may be negative.
omitted : ℕ → ℕ → String
omitted start skip =
    if leb skip start then decimal (start - skip) else "-" +s decimal (skip - start)

-- The error window, if it begins before the tail.
unfoldable pub error_window : ℕ → List String → ℕ → Option ℕ → List String
unfolding omitted
error_window window lines tail_start none = []
error_window window lines tail_start (some first) =
    if ltb first tail_start
    then take window (drop first lines)
      ++ (("... [" +s omitted tail_start (first + window) +s " lines omitted] ...") ∷ [])
    else []

unfoldable pub trim_log : String → ℕ → ℕ → String × Bool
unfolding error_window
trim_log text window tail_lines =
    let lines = splitlines text in
    if leb (length lines) tail_lines
    then (join "\n" lines, false)
    else let tail_start = length lines - tail_lines in
      (
        join "\n"
            (error_window window lines tail_start (first_error lines) ++ drop tail_start lines),
        true,
      )

abbrev pub is_failure : Option String → Bool
is_failure none = false
is_failure (some c) = str_eq c "failure"

first_failed_step : List (String × Option String) → Option String
first_failed_step [] = none
first_failed_step ((name, conclusion) ∷ rest) =
    let later = first_failed_step rest in if is_failure conclusion then some name else later

failed_rows : List JobRow → List Job
unfolding first_failed_step
failed_rows [] = []
failed_rows (item ∷ rest) =
    let jobs = failed_rows rest in
    if is_failure item.conclusion
    then record {
      id = item.id;
      name = item.name;
      conclusion = item.conclusion;
      failed_step = first_failed_step item.steps;
    }
      ∷ jobs
    else jobs

module _ {W : Type 0} (api : GitHubApi W) where
  unfoldable pub failed_jobs : String → ℕ → Exec (Platform W) (List Job)
  unfolding failed_rows
  failed_jobs repository run_id = do
    rows ← call (api.list_jobs repository run_id)
    pure (failed_rows rows)

  unfoldable pub failure_log : String → WorkflowRun → Job → Exec (Platform W) FailureLog
  failure_log repository run job = do
    raw ← call (api.job_log repository job.id)
    let trimmed = trim_log raw 40 200
    let scrubbed = api.scrub_secrets trimmed.0
    pure (record {
      run = run;
      job = job;
      excerpt = scrubbed.0;
      total_lines = length (splitlines raw);
      truncated = trimmed.1;
      scrubbed = scrubbed.1;
    })

  -- The failure of the first failed job, run by run.
  unfoldable pub first_of : String → List WorkflowRun → Exec (Platform W) (Option FailureLog)
  first_of repository [] = pure none
  first_of repository (run ∷ rest) =
      let later = first_of repository rest in
      if not (is_failure run.conclusion) then later else (do
        jobs ← failed_jobs repository run.id
        elim jobs [
          | [] ↦ later
          | job ∷ others ↦ (do log ← failure_log repository run job; pure (some log))
        ])

  unfoldable pub first_failure : String → String → Exec (Platform W) (Option FailureLog)
  unfolding first_of
  first_failure repository head_sha = do
    runs ← call (api.list_workflow_runs repository head_sha)
    first_of repository runs
