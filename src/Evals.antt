-- ===== src/Evals.antt =====
-- evals and evaluation.py: suites of tasks, the grading of patches, the runs of a suite, its report,
-- and the score of a trajectory.
pub mod Suites
pub mod Grade
pub mod Runs
pub mod Report
pub mod Score
pub mod Graded
pub mod Honest
pub mod Counts
pub mod Scored
mod Tests
