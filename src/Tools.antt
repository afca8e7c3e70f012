-- ===== src/Tools.antt =====
-- agent/tools.py: the tools of the coding model. A worktree is its text files by their path from the
-- root; a directory is there as long as a file lies in it.
pub mod Files
pub mod Search
pub mod Dispatch
pub mod Confined
pub mod Edited
pub mod Commands
mod Tests
