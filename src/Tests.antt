-- ===== src/Tests.antt =====
-- Runs of the models on small concrete data, each property applied at a concrete input among them.
pub mod Samples
mod Trees
mod Judgements
mod Cleanup
mod Scans
mod Worktrees
mod Caches
