-- ===== src/Conformance.antt =====
-- scripts/run_w3c_conformance.py: the W3C XML conformance runner.
pub mod Profile
pub mod Case
pub mod Runner
pub mod Catalog
pub mod Archive
pub mod Reports
pub mod Known
pub mod Main
