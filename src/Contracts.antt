-- ===== src/Contracts.antt =====
-- contracts.py: the records that every part of the platform shares, and their methods.
pub mod Types
pub mod Paths
pub mod Trace
pub mod Run
pub mod Limits
mod Tests
