-- ===== src/Jenkins/Junit/Tests.antt =====
-- A suite of three results.
use xpact.Prelude.{String, ◌≡◌, refl, some, List, [], ◌∷◌}
use xpact.Prelude.Int.{pos}
use xpact.Prelude.Outcome.{ok}
use xpact.Conformance.Case.{Result}
use xpact.Jenkins.Junit.{details_of, junit_suite, count_tests, case_counts}
use xpact.Jenkins.Junit.Written.{counts_from, case_counts-junit_suite}

abbrev result : String → String → String → Result
result id status message = record {
  engine = "xpact";
  case_id = id;
  path = "a.xml";
  kind = "valid";
  expected = "ACCEPT";
  actual = "ACCEPT";
  status = status;
  elapsed_us = 5;
  message = message;
  known = "";
  exit_code = some (pos 0);
  lane = "core";
  catalog_expected = "ACCEPT";
  expectation_adjustment = "";
}

abbrev three_results : List Result
three_results =
    result "a" "passed" "" ∷ result "b" "failed" "wrong" ∷ result "c" "skipped" "lane" ∷ []

case_counts-three :
    case_counts (junit_suite "w3c-xml-xpact" three_results).cases ≡ ok (counts_from three_results)
unfolding case_counts count_tests junit_suite details_of
case_counts-three = refl

case_counts-junit_suite_example :
    (case_counts (junit_suite "w3c-xml-xpact" three_results).cases ≡ ok (counts_from three_results))
    × ((junit_suite "w3c-xml-xpact" three_results).time_us ≡ (counts_from three_results).time_us)
case_counts-junit_suite_example =
    case_counts-junit_suite "w3c-xml-xpact" three_results refl refl (refl, (refl, (refl, tt)))
