-- ===== src/Jenkins/Summary/Tests.antt =====
-- The summary of the W3C run on the small catalog, in which only the other implementation failed.
use xpact.Prelude.{◌≡◌, refl, true, false, Option, none, some, [], ◌∷◌, ◌==◌, splitlines}
use xpact.Prelude.Int.{pos}
use xpact.Prelude.Outcome.{ok, err, os_error}
use xpact.Dual.Run.Example.{artifact, long_hex, report}
use xpact.Jenkins.Plots.{Profile, catalog, w3c}
use xpact.Jenkins.Junit.{skipped, Suite, count_tests, case_counts, xml_text}
use xpact.Jenkins.Own.{Evidence, control_suites}
use xpact.Jenkins.Own.Full.{w3c_suite}
use xpact.Jenkins.Summary.{
  Handed, Summary, error_suite, lane_part, all_parts, summarise, collect, publish_summary, main,
}

abbrev catalog_suite : Suite
catalog_suite = record {
  name = "w3c-xml-xpact";
  tests = pos 2;
  failures = pos 0;
  errors = pos 0;
  skipped = pos 1;
  time_us = 1;
  nested = false;
  cases =
      record { classname = "w3c.xml.xpact"; name = "a"; time_us = pos 1; details = [] }
      ∷ record {
        classname = "w3c.xml.xpact.xml-1.1";
        name = "b";
        time_us = pos 0;
        details = record { tag = skipped; message = "XML 1.1"; text = "XML 1.1" } ∷ [];
      }
      ∷ [];
}

abbrev evidence : Evidence
evidence = record {
  run_json = λ lane. err (os_error "no run.json");
  manifest = λ path. elim (path == "on.json") [
    | true ↦ ok (artifact "xpact" true)
    | false ↦ ok (artifact "xpact" false)
  ];
  hash = λ path. ok long_hex;
  fingerprint = λ lane. none;
  junit = ok (catalog_suite ∷ []);
}

abbrev w3c_only : {A : Type 0} → A → Profile → Option A
w3c_only a catalog = none
w3c_only a w3c = some a

abbrev handed : Handed
handed = record {
  reports = w3c_only report;
  states = w3c_only "complete_with_failures";
  evidence = evidence;
}

abbrev own_summary : Summary
own_summary = record {
  status = "complete";
  tests = 12;
  passed = 11;
  failures = 0;
  errors = 0;
  skipped = 1;
}

-- Without a report the lane has failed.
main-without_report : main (record handed { reports = λ lane. none }) (ok tt) (ok tt) w3c ≡ 2
unfolding main publish_summary collect all_parts lane_part error_suite control_suites w3c_suite
    case_counts count_tests summarise splitlines xml_text
main-without_report = refl
