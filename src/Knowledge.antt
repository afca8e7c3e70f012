-- ===== src/Knowledge.antt =====
-- repo_intelligence: the chunks that files are indexed by, and the measure of retrieval.
pub mod Chunks
pub mod Windows
pub mod Whole
mod Tests
