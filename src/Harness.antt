-- ===== src/Harness.antt =====
-- reports/issue-0154/tools/harness: one document through either parser, in chunks, with its events.
pub mod Chunks
pub mod Recorder
pub mod Resolve
pub mod Pool
pub mod Worker
