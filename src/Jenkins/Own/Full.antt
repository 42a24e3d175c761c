-- ===== src/Jenkins/Own/Full.antt =====
-- `_w3c_suite` of scripts/jenkins_xpact_summary.py: the results of the full catalog.
use xpact.Prelude.{
  ℕ, ◌+◌, String, Bool, not, ◌&&◌, ◌||◌, Option, none, some, List, [], ◌∷◌, any, keep, ◌==◌,
  starts_with, contains, nat_eq,
}
use xpact.Prelude.Int.{ℤ, pos, is_nat}
use xpact.Prelude.Outcome.{Outcome, ok, err, value_error, ◌>>=◌, ◌>>◌, refuse}
use xpact.Dual.Report.{Report}
use xpact.Jenkins.Own.{Evidence}
use xpact.Jenkins.Junit.{Test, Suite, Counts, case_counts}

abbrev pub number : ℤ → Outcome ℕ
number (pos n) = ok n
number (ℤ.negsuc n) = err (value_error "Own W3C report contains an invalid case count")

abbrev pub only {κ} : {A : Type κ} → String → List A → Outcome A
only message [] = err (value_error message)
only message (a ∷ []) = ok a
only message (a ∷ b ∷ rest) = err (value_error message)

-- The engine's own counts, which cover the catalog.
unfoldable pub engine_counts : Report → Outcome Counts
engine_counts report = do
  own ←
      only "Own full W3C engine summary is missing or duplicated"
        (keep (λ row. row.engine == "xpact") report.engines)
  total ← number own.total
  passed ← number own.passed
  failed ← number own.failed
  errors ← number own.errors
  skipped ← number own.skipped
  refuse (nat_eq total 0 || not (nat_eq total (passed + (failed + (errors + skipped)))))
      (value_error "Own W3C summary counts do not reconcile")
  cases ← number report.catalog_cases
  refuse (not (nat_eq total cases))
      (value_error "Own W3C summary does not cover the selected catalog")
  ok (record {
    tests = total;
    passed = passed;
    failures = failed;
    errors = errors;
    skipped = skipped;
    time_us = 0;
  })

abbrev pub same_counts : Counts → Counts → Bool
same_counts a b =
    nat_eq a.tests b.tests
    && (nat_eq a.passed b.passed
        && (nat_eq a.failures b.failures
            && (nat_eq a.errors b.errors && nat_eq a.skipped b.skipped)))

abbrev pub declares : Suite → Counts → Bool
declares suite counts =
    is_nat suite.tests counts.tests
    && (is_nat suite.failures counts.failures
        && (is_nat suite.errors counts.errors && is_nat suite.skipped counts.skipped))

abbrev pub is_own : Test → Bool
is_own test = test.classname == "w3c.xml.xpact" || starts_with test.classname "w3c.xml.xpact."

-- The suite of the full catalog, with the time of its cases.
unfoldable pub check_suite : Counts → Suite → Outcome Suite
unfolding case_counts
check_suite expected suite = do
  refuse suite.nested (value_error "Nested JUnit suites or testcases cannot enter own W3C results")
  refuse (any (λ test. not (is_own test)) suite.cases)
      (value_error "Foreign implementation testcase found inside own W3C suite")
  counts ← case_counts suite.cases
  refuse (not (same_counts counts expected))
      (value_error "Own W3C JUnit results contradict the engine summary")
  refuse (not (declares suite counts))
      (value_error "Own W3C JUnit declared counts contradict its cases")
  ok (record suite { time_us = counts.time_us })

abbrev pub finished_report : Option Report → Outcome Report
finished_report none = err (value_error "Own full W3C catalog results are unavailable")
finished_report (some report) = do
  refuse (not (contains ("complete" ∷ "complete_with_failures" ∷ []) report.status))
      (value_error "Own full W3C catalog results are unavailable")
  ok report

unfoldable pub w3c_suite : Evidence → Option Report → Outcome Suite
unfolding engine_counts check_suite
w3c_suite evidence given = do
  report ← finished_report given
  expected ← engine_counts report
  document ← evidence.junit
  suite ←
      only "Own full W3C JUnit suite is missing or duplicated"
        (keep (λ suite. suite.name == "w3c-xml-xpact") document)
  check_suite expected suite
