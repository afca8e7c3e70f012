-- ===== src/Ci.antt =====
-- ci/: what follows a delivered pull request, its red builds and the gradual rollout.
pub mod Canary
pub mod Ladder
pub mod Actions
pub mod Triage
pub mod Watcher
pub mod Labels
pub mod Watched
mod Tests
