-- ===== src/Testrun/Green.antt =====
-- A report that reads as green: what the test run must have been.
use autonomous_software_engi.Prelude.{
  all, is_empty, All, ℕ, String, ◌≡◌, refl, ◌⊎◌, inl, inr, Bool, true, false, Option, none, some,
  List, [], ◌∷◌, arith, eq_iff,
}
use autonomous_software_engi.Prelude.Member.{Member}
use autonomous_software_engi.Prelude.Dict.{Dict, lookup, lookup-insert, values}
use autonomous_software_engi.Contracts.Types.{CommandResult}
use autonomous_software_engi.Contracts.Trace.{green}
use autonomous_software_engi.Testrun.{
  TestStatus, passed, failed, error, skipped, is_failed, is_error, tally, did_pass, verdicts,
  build_report, report,
}

-- An entry that already has its verdict keeps it.
kept :
    (statuses : Dict TestStatus) (names : List String) (acc : Dict Bool) (name : String)
    → lookup name acc ≡ some (did_pass (lookup name statuses))
    → lookup name (verdicts statuses names acc) ≡ some (did_pass (lookup name statuses))
unfolding verdicts
kept statuses [] acc name h = h
kept statuses (n ∷ names) acc name h =
    kept statuses names _ name
      (ground (arith, lookup-insert n name (did_pass (lookup n statuses)) acc, eq_iff n name))

-- The verdict on a name is whether its test passed, whatever the repetitions.
verdict_of :
    (statuses : Dict TestStatus) (names : List String) (acc : Dict Bool) (name : String)
    → Member name names
    → lookup name (verdicts statuses names acc) ≡ some (did_pass (lookup name statuses))
unfolding verdicts
verdict_of statuses [] acc name m = absurd m
verdict_of statuses (n ∷ names) acc name (inl e) =
    kept statuses names _ name
      (ground (arith, lookup-insert n name (did_pass (lookup n statuses)) acc, eq_iff n name))
verdict_of statuses (n ∷ names) acc name (inr m) = verdict_of statuses names _ name m

all-lookup :
    (d : Dict Bool) (name : String) (b : Bool)
    → all (λ v. v) (values d) ≡ true
    → lookup name d ≡ some b
    → b ≡ true
unfolding lookup
all-lookup [] name b h e = cc
all-lookup ((k, v) ∷ d) name b h e = ground (arith, all-lookup d name b)

did_pass→passed : (o : Option TestStatus) → did_pass o ≡ true → o ≡ some passed
did_pass→passed none h = cc
did_pass→passed (some passed) h = refl
did_pass→passed (some failed) h = cc
did_pass→passed (some error) h = cc
did_pass→passed (some skipped) h = cc

-- Every targeted test has an entry, and it passed.
abbrev pub AllPassed : Dict TestStatus → List String → Type 0
AllPassed statuses names = (name : String) → Member name names → lookup name statuses ≡ some passed

named_passed :
    (statuses : Dict TestStatus) (names : List String)
    → all (λ v. v) (values (verdicts statuses names [])) ≡ true
    → AllPassed statuses names
named_passed statuses names h name m = did_pass→passed (lookup name statuses) (
    all-lookup (verdicts statuses names []) name (did_pass (lookup name statuses)) h
      (verdict_of statuses names [] name m))

-- No test of the run failed or broke.
abbrev pub NoFailure : Dict TestStatus → Type 0
NoFailure statuses =
    All (λ (entry : String × TestStatus). (¬ (entry.1 ≡ failed)) × (¬ (entry.1 ≡ error))) statuses

no_failure :
    (statuses : Dict TestStatus)
    → tally is_failed statuses ≡ 0
    → tally is_error statuses ≡ 0
    → NoFailure statuses
unfolding tally
no_failure [] f e = tt
no_failure ((name, passed) ∷ rest) f e = (((λ h. cc), (λ h. cc)), no_failure rest f e)
no_failure ((name, skipped) ∷ rest) f e = (((λ h. cc), (λ h. cc)), no_failure rest f e)
no_failure ((name, failed) ∷ rest) f e = absurd (omega (arith, f))
no_failure ((name, error) ∷ rest) f e = absurd (omega (arith, e))

-- What a green report says of the test run behind it.
pub record RunPassed (fail_to_pass pass_to_pass : List String) (result : CommandResult)
    (statuses : Dict TestStatus) : Type 0 where
  pub clean : NoFailure statuses
  pub fixed : AllPassed statuses fail_to_pass
  pub kept_passing : AllPassed statuses pass_to_pass
  pub collected : (is_empty statuses ≡ false) ⊎ (result.exit_code ≡ 0) ⊎ (result.exit_code ≡ 5)

-- A report that reads as green comes from a run in which no test failed or broke, every targeted
-- test ran and passed, and tests were collected unless pytest itself said that all is well.
pub report-RunPassed :
    (run_id : String) (index : ℕ) (fail_to_pass pass_to_pass : List String) (result : CommandResult)
    (statuses : Dict TestStatus)
    → green (report run_id index fail_to_pass pass_to_pass result statuses) ≡ true
    → RunPassed fail_to_pass pass_to_pass result statuses
unfolding report build_report green
report-RunPassed run_id index fail_to_pass pass_to_pass result statuses h = record {
  clean = no_failure statuses (ground arith) (ground arith);
  fixed = named_passed statuses fail_to_pass (ground arith);
  kept_passing = named_passed statuses pass_to_pass (ground arith);
  collected = ground arith;
}
