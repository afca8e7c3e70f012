-- ===== src/Agent.antt =====
-- agent/: the governed workflow of one run, its nodes and the two ways to execute them.
pub mod State
pub mod Services
pub mod Steps
pub mod Planning
pub mod Preparing
pub mod Implement
pub mod Verify
pub mod Reflect
pub mod Deliver
pub mod Runner
pub mod Tracking
pub mod Evaluation
pub mod Judging
pub mod Opinions
pub mod Verdicts
pub mod Promotion
pub mod Rounds
pub mod SameRun
pub mod Loop
pub mod Gates
pub mod Routes
pub mod Graph
pub mod Durable
pub mod Submission
pub mod Example
mod Tests
