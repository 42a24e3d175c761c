-- ===== src/Dual.antt =====
-- scripts/run_dual_w3c.py: one catalog on two implementations.
pub mod Comparison
pub mod Qualification
pub mod Report
pub mod Build
pub mod Lane
pub mod Run
