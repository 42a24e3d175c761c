-- ===== src/Benchmark.antt =====
-- scripts/compare_eiffel_benchmarks.py: two executables of the benchmark, measured in pairs.
pub mod Options
pub mod Sample
pub mod Workloads
pub mod Measure
pub mod Publish
pub mod Comparison
