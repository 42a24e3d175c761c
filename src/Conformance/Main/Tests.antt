-- ===== src/Conformance/Main/Tests.antt =====
-- The whole run on a catalog of two cases.
use xpact.Prelude.{
  split, ℕ, String, ◌≡◌, refl, Bool, true, false, not, ◌||◌, some, List, [], ◌∷◌, map, any, all,
  splitlines, strip, last_chars, if◌then◌else◌,
}
use xpact.Prelude.Int.{pos}
use xpact.Prelude.Outcome.{Outcome, value_error, ok, err}
use xpact.Conformance.Runner.{Execution, completed, run_case}
use xpact.Conformance.Reports.{unexpected}
use xpact.Conformance.Known.Gate.{uncovered}
use xpact.Conformance.Known.Marking.{current}
use xpact.Conformance.Known.{load_known_failures, apply_known_failures}
use xpact.Conformance.Profile.{get, expectation, out_of_profile_lane}
use xpact.Conformance.Catalog.{load_catalog, local_uri}
use xpact.Conformance.Catalog.Example.{disk, site, parse, cases}
use xpact.Conformance.Main.{Arguments, Engines, Plan, setup, run_engines, main}
use xpact.Conformance.Main.Skips.{marked, skips, run_engines-skipped}
use xpact.Conformance.Main.Exit.{main-exit_code}

abbrev accepting : List String → Execution
accepting command = completed (pos 0) "XPACT_CONFORMANCE\tACCEPT\n" ""

abbrev clock : List String → ℕ
clock command = 1250

abbrev prepared : Outcome String
prepared = ok "/suite"

abbrev arguments : Bool → Arguments
arguments all_cases = record {
  engine = "xpact=/bin/xpact" ∷ "expat=/bin/expat" ∷ [];
  entity_engine = [];
  all_cases = all_cases;
  timeout = "10";
  write_known = false;
  known_failures =
      some ("k", ok ("engine\tcase_id\tstatus\tcategory" ∷ "xpact\ta\tfailed\troots" ∷ []));
}

abbrev engines : Engines
engines = ("xpact", "/bin/xpact") ∷ ("expat", "/bin/expat") ∷ []

abbrev plan : Plan
plan = record {
  known = record { engine = "xpact"; case_id = "a"; status = "failed"; category = "roots" } ∷ [];
  engines = engines;
  entity_engines = [];
  suite_dir = "/suite";
  cases = cases;
}

ready : setup disk site parse prepared (arguments false) ≡ ok plan
unfolding setup load_known_failures load_catalog expectation out_of_profile_lane split strip get
    local_uri
ready = refl

-- The other engine accepts the case as well, and no entry lists it.
exit_code : (main disk accepting clock site parse prepared (arguments false)).exit_code ≡ 1
unfolding main load_known_failures run_case splitlines last_chars apply_known_failures load_catalog
    expectation out_of_profile_lane split strip get local_uri unexpected
exit_code = refl

run_engines-skipped_example :
    map marked (run_engines disk accepting clock (arguments false) plan engines)
    ≡ skips false engines plan.cases
run_engines-skipped_example =
    run_engines-skipped disk accepting clock (arguments false) plan engines

main-exit_code_example :
    let rows = run_engines disk accepting clock (arguments false) plan engines in
    (main disk accepting clock site parse prepared (arguments false)).exit_code
    ≡ (if any (uncovered plan.known) rows || not (all (current rows) plan.known) then 1 else 0)
main-exit_code_example =
    main-exit_code disk accepting clock site parse prepared (arguments false) plan ready refl

refused :
    setup disk site parse prepared (arguments true)
    ≡ err (value_error "--all-cases needs one --entity-engine for every --engine")
unfolding setup load_known_failures load_catalog expectation out_of_profile_lane split strip get
    local_uri
refused = refl

-- With an entry for the other engine the run passes.
abbrev covered : Arguments
covered = record {
  engine = "xpact=/bin/xpact" ∷ [];
  entity_engine = [];
  all_cases = false;
  timeout = "10";
  write_known = false;
  known_failures =
      some ("k", ok ("engine\tcase_id\tstatus\tcategory" ∷ "xpact\ta\tfailed\troots" ∷ []));
}
