-- ===== src/Conformance/Reports/Tests.antt =====
-- Engine summaries of a small run.
use xpact.Prelude.{String, ◌≡◌, refl, none, List, [], ◌∷◌, map, sum, All, length}
use xpact.Conformance.Case.{Result}
use xpact.Conformance.Reports.{summaries}
use xpact.Conformance.Reports.Totals.{Reconciles, summaries_total}

abbrev row : String → String → String → Result
row engine status expected = record {
  engine = engine;
  case_id = "a";
  path = "a.xml";
  kind = "not-wf";
  expected = expected;
  actual = "REJECT";
  status = status;
  elapsed_us = 10;
  message = "";
  known = "";
  exit_code = none;
  lane = "core";
  catalog_expected = "REJECT";
  expectation_adjustment = "";
}

abbrev rows : List Result
rows =
    row "xpact" "passed" "REJECT"
    ∷ row "core" "failed" "ACCEPT"
    ∷ row "xpact" "passed" "ANY"
    ∷ row "xpact" "skipped" "REJECT"
    ∷ []

passes : map (λ s. s.passed) (summaries rows) ≡ 1 ∷ 0 ∷ []
unfolding summaries
passes = refl

summaries_total_example :
    All Reconciles (summaries rows) × (sum (λ s. s.total) (summaries rows) ≡ length rows)
summaries_total_example = summaries_total rows (refl, (refl, (refl, (refl, tt))))
