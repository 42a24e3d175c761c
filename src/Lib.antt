-- ===== src/Lib.antt =====
-- xpact: the conformance tools of the XML parser library.
--
-- scripts/run_w3c_conformance.py runs the W3C XML test suite through parser executables and turns
-- their answers into reports and an exit code. Its parts and the modules that model them:
--
--   Conformance.Profile    expectation, out_of_profile_lane: what a catalog case must give
--   Conformance.Case       the dataclasses Case and Result, tsv_row
--   Conformance.Archive    verify_archive, extract_archive, prepare_suite: the suite's archive
--   Conformance.Catalog    load_catalog, local_uri, contained_path: the catalog's cases
--   Conformance.Runner     run_case: one case through one executable
--   Conformance.Reports    unexpected, no_crash_only, the summaries of write_reports
--   Conformance.Known      load_, apply_ and write_known_failures
--   Conformance.Main       main: options, the loop over engines and cases, the exit code
--
-- scripts/run_dual_w3c.py runs the same catalog on two implementations, with load_catalog and
-- run_case of the first script:
--
--   Dual.Qualification     validate_qualification: the report of the directed controls
--   Dual.Comparison        comparison_rows and the loop of run_lane over the cases
--   Dual.Report            the report that the lane builds and the plots read
--   Dual.Build             the builds of run_lane, their qualification and their gate
--   Dual.Lane              the suite, the verified loop over the cases, the summaries
--   Dual.Run               run_lane, clear_reports and main, with the writes of run.json
--
-- scripts/run_dual_jenkins.py runs the catalog lane and the W3C lane for one build, keeps run.json
-- and publishes what they report:
--
--   Jenkins.Campaign       validate_arguments, run_campaign and main
--
-- student/results/expat-2.8.1/compare.py compares runs of the same inputs through two libraries:
--
--   Expat.Events           joined_events: events with their text in one piece
--   Expat.Rows             classify and finding: what differs, and which finding that is
--
-- scripts/dual_jenkins_reports.py checks the reports of both lanes and plots them:
--
--   Jenkins.Plots          validate_artifacts, validate_controls; Plots.W3c has w3c_plots
--   Jenkins.CatalogPlots   catalog_plots
--   Jenkins.Publication    clear_reports, publish_reports: the campaign's state and the files
--
-- scripts/jenkins_xpact_summary.py publishes the own tests alone, from the evidence of both lanes:
--
--   Jenkins.Junit          the suites that run_w3c_conformance.py writes, and _case_counts
--   Jenkins.Own            _own_controls, _verify_builds, _control_suites; Own.Full has _w3c_suite
--   Jenkins.Summary        publish_summary and main
--
-- scripts/compare_eiffel_benchmarks.py measures two executables in pairs:
--
--   Benchmark.Options      parse_args, positive_int, preflight_inputs
--   Benchmark.Workloads    prepare_workloads
--   Benchmark.Sample       run_sample: one process
--   Benchmark.Measure      the loop over one workload: calibration, warm-up, pairs, summary
--   Benchmark.Publish      clear_reports and publish_reports, with the failures of system calls
--   Benchmark.Comparison   run_comparison and main
--
-- reports/issue-0154/tools/harness runs documents through pyexpat and the library in child processes:
--
--   Harness.Chunks         engines.py: chunks and the feeding loops of parse_expat, parse_xpact
--   Harness.Recorder       engines.py: Recorder
--   Harness.Resolve        engines.py: resolve
--   Harness.Pool           pool.py: Pool
--   Harness.Worker         worker.py: explain_split and compare_splits
--
-- main loads the known-failures list and the options, then the catalog; every engine runs every
-- case with run_case; the list marks results and adds an error for each entry that is out of date;
-- a result that is unexpected makes the exit code 1. Each definition has the name of its function;
-- a helper is a part of that function's body. The module Prelude holds lists over the native
-- numbers, text, and exceptions as the values of Outcome.
--
-- Not under the repository and so parameters: the file system (Disk), processes (a function from
-- the command line to an Execution), the clock, the XML parser, urllib and hashes (Site). All loops
-- run over lists or trees, but for the calibration of the benchmark, whose 32 rounds are enough,
-- and the slices of an input, with a round for each byte. Paths are their texts; times are counted
-- in thousandths of a millisecond. A known-failures file that is read is its list of lines,
-- none with a quoted field, where a missing field is an empty one; one that is written is its rows,
-- with fields quoted as csv quotes them (Prelude.Csv). Not modelled are the handler that expands
-- entities of the catalog, the metadata, and the writing of the conformance reports; of the dual
-- script, the walk over the suite, the tools that build and the text of the reports, whose writes
-- are a parameter that can fail. Diagnostic files are a part of what run_case gives, and persisted
-- is run_case with their writing, which can fail. repr, json and floating-point numbers are
-- parameters. Of the plots, the HTML is not modelled; of the harness, the handlers of the parsers
-- and the canonical form. Of the campaign, the lanes and publishers are parameters that end with a
-- value or an exception, and writing its run.json always succeeds.
pub mod Prelude
pub mod Conformance
pub mod Dual
pub mod Jenkins
pub mod Expat
pub mod Harness
pub mod Benchmark
