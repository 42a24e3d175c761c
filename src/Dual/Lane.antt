-- ===== src/Dual/Lane.antt =====
-- The suite, the loops over the cases and the report of `run_lane` in scripts/run_dual_w3c.py:
-- `suite_snapshot` as an interface, `prepare_suite`, `verify_case_input`.

use xpact.Prelude.{
  ℕ, suc, String, Bool, true, false, not, ◌&&◌, ◌||◌, Option, none, some, List, [], ◌∷◌, ◌++◌, map,
  any, all, count, length, ◌==◌, ◌<>◌, contains, if◌then◌else◌,
}
use xpact.Prelude.Int.{pos}
use xpact.Prelude.Outcome.{Outcome, ok, err, lane_error, ◌>>=◌, ◌>>◌, refuse}
use xpact.Conformance.Case.{Case, Result}
use xpact.Conformance.Runner.{Disk, Execution, Options, Diagnostics, persisted}
use xpact.Conformance.Reports.{with_status, of_engine}
use xpact.Dual.Comparison.{Row, gc_policies}
use xpact.Dual.Qualification.{Control}
use xpact.Dual.Report.{Artifact, BuildRow, Engine, Report}
use xpact.Dual.Build.{Moment, engine, Builds, verify_artifact}

-- `suite_snapshot`: a hash for each file of the suite, and one of them all.
pub record Snapshot : Type 0 where
  pub sha256 : String
  pub files : List (String × String)

abbrev pub hash_of : String → List (String × String) → Option String
hash_of name [] = none
hash_of name ((file, sha256) ∷ files) = if file == name then some sha256 else hash_of name files

abbrev pub same_option : Option String → Option String → Bool
same_option none none = true
same_option none (some b) = false
same_option (some a) none = false
same_option (some a) (some b) = a == b

-- The equality of two dicts of files.
abbrev pub within : List (String × String) → List (String × String) → Bool
within files other = all (λ f. same_option (hash_of f.0 other) (hash_of f.0 files)) files

abbrev pub same_snapshot : Snapshot → Snapshot → Bool
same_snapshot a b = a.sha256 == b.sha256 && (within a.files b.files && within b.files a.files)

-- The suite on disk.
pub record Suite : Type 0 where
  pub resolve : String → String
  -- whether the archive is cached, its verification with its extraction, and the download
  pub cached : Bool
  pub extract : Outcome (Unit {0})
  pub download : Outcome String
  pub target : String
  pub snapshot : Moment → Outcome Snapshot
  pub relative : String → Outcome String
  -- the hash of a case's file before and after it is run, if it is a file
  pub input :
      (implementation : String) (index : ℕ) (after : Bool) → String → Outcome (Option String)

module _ (suite : Suite) where
  unfoldable pub prepare_suite : Option String → (offline : Bool) → Outcome String
  prepare_suite (some suite_dir) offline = ok (suite.resolve suite_dir)
  prepare_suite none offline =
      if suite.cached
      then suite.extract >> ok (suite.target <> "/xmlconf")
      else if offline
      then err (
          lane_error
            "Pinned W3C archive is not cached; provide --suite-dir or prepare it online once")
      else suite.download

  unfoldable pub verify_case_input : String → ℕ → Bool → Case → Snapshot → Outcome (Unit {0})
  verify_case_input implementation index after case snapshot = do
    name ← suite.relative case.path
    actual ← suite.input implementation index after case.path
    refuse (not (same_option actual (hash_of name snapshot.files)))
        (lane_error ("W3C input bytes changed during execution: " <> case.id))

  -- `manifest["cases"]`: each case's path below the suite.
  unfoldable pub manifest_paths : List Case → Outcome (List String)
  manifest_paths [] = ok []
  manifest_paths (case ∷ cases) = do
    path ← suite.relative case.path
    paths ← manifest_paths cases
    ok (path ∷ paths)

-- `run_case` on a disk, with the processes and the clock.
pub record Runs : Type 0 where
  pub disk : Disk
  pub launch : List String → Execution
  pub clock : List String → ℕ
  pub options : ℕ → Case → Options
  -- the writing of a case's diagnostic files
  pub persist : Diagnostics → Outcome (Unit {0})

module _ (builds : Builds) (suite : Suite) (runs : Runs) where
  -- The loop over the cases, each with its input verified before and after.
  unfoldable pub run_verified :
      (implementation executable : String) (index : ℕ)
      → Snapshot
      → List Case
      → Outcome (List Result)
  unfolding verify_case_input
  run_verified implementation executable index before [] = ok []
  run_verified implementation executable index before (case ∷ cases) = do
    verify_case_input suite implementation index false case before
    result ←
        persisted runs.disk runs.launch runs.clock runs.persist case implementation executable
          (runs.options index case)
    verify_case_input suite implementation index true case before
    rest ← run_verified implementation executable (suc index) before cases
    ok (result ∷ rest)

  -- The loop over the artifacts.
  unfoldable pub run_artifacts :
      Snapshot → List Case → List (String × Artifact) → Outcome (List Result)
  unfolding run_verified verify_artifact
  run_artifacts before cases [] = ok []
  run_artifacts before cases ((implementation, artifact) ∷ rest) = do
    verify_artifact builds (engine implementation) artifact
    now ← suite.snapshot (engine implementation)
    refuse (not (same_snapshot now before))
        (lane_error "W3C suite bytes changed before engine execution")
    results ← run_verified implementation artifact.executable 1 before cases
    more ← run_artifacts before cases rest
    ok (results ++ more)

  abbrev pub verify_all : Moment → List (String × Artifact) → Outcome (Unit {0})
  verify_all moment [] = ok tt
  verify_all moment ((implementation, artifact) ∷ rest) = do
    verify_artifact builds moment artifact
    verify_all moment rest

abbrev pub summary_of : List Result → String → Engine
summary_of results implementation =
    let group = of_engine implementation results in
    record {
      engine = implementation;
      total = pos (length group);
      passed = pos (with_status "passed" group);
      failed = pos (with_status "failed" group);
      errors = pos (with_status "error" group);
      skipped = pos (with_status "skipped" group);
    }

-- `row.get("qualification_error")` as a test
abbrev pub has_error : Option String → Bool
has_error none = false
has_error (some text) = not (text == "")

abbrev pub failing_controls : List Control → Bool
failing_controls cases = any (λ case. case.status == "FAIL") cases

-- `failures`
unfoldable pub has_failures : List Result → List BuildRow → Bool
has_failures results qualification =
    any (λ row. contains ("failed" ∷ "error" ∷ []) row.status) results
    || (any (λ row. has_error row.qualification_error) qualification
        || any (λ row. failing_controls row.cases) qualification)

unfoldable pub report_of :
    List Case
    → (artifacts : List (String × Artifact)) → (qualification : List BuildRow) → List Row
    → List Result
    → Report
unfolding has_failures
report_of cases artifacts qualification rows results = record {
  status = if has_failures results qualification then "complete_with_failures" else "complete";
  lane = "w3c-finalized-assertions-off";
  catalog_cases = pos (length cases);
  artifacts = artifacts;
  qualification = qualification;
  engines = map (summary_of results) gc_policies;
  same_outcome = count (λ row. row.agreement) rows;
  different_outcome = count (λ row. not row.agreement) rows;
}

-- What run.json holds.
pub record State : Type 0 where
  pub status : String
  pub builds : List BuildRow
  pub catalog_cases : Option ℕ
  pub error : Option String

-- What a run leaves: the contents that it gave run.json, in order, and the report files in its
-- directory; and how it ended.
pub record Ended : Type 0 where
  pub written : List State
  pub published : List String
  pub outcome : Outcome Report
