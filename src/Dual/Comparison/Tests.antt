-- ===== src/Dual/Comparison/Tests.antt =====
-- Both implementations on the small catalog.
use xpact.Prelude.{
  ℕ, String, ◌≡◌, refl, Bool, true, false, none, some, List, [], ◌∷◌, ◌++◌, map, splitlines, strip,
  last_chars, contains, if◌then◌else◌,
}
use xpact.Prelude.Int.{pos}
use xpact.Prelude.Outcome.{Outcome, ok, err, lane_error}
use xpact.Conformance.Case.{Case, Result}
use xpact.Conformance.Runner.{Execution, completed, Options, run_case}
use xpact.Conformance.Catalog.Example.{disk, site, parse, cases, loaded}
use xpact.Dual.Comparison.{Row, comparison_rows, run_cases}
use xpact.Dual.Comparison.Complete.{ArePaired, comparison_rows-run_cases}

-- Only the second implementation rejects.
abbrev launch : List String → Execution
launch command =
    if contains command "/bin/core"
    then completed (pos 1) "XPACT_CONFORMANCE\tREJECT\n" ""
    else completed (pos 0) "XPACT_CONFORMANCE\tACCEPT\n" ""

abbrev clock : List String → ℕ
clock command = 1

abbrev options : ℕ → Case → Options
options index case = record {
  timeout = "10";
  diagnostic_dir = none;
  suite_root = some "/suite";
  extra_arguments = [];
}

abbrev own : List Result
own = run_cases disk launch clock options "xpact" "/bin/xpact" 1 cases

abbrev core : List Result
core = run_cases disk launch clock options "xpact-core" "/bin/core" 1 cases

abbrev agreements : Outcome (List Row) → List Bool
agreements (ok rows) = map (λ row. row.agreement) rows
agreements (err error) = []

agreement : agreements (comparison_rows cases (own ++ core)) ≡ false ∷ true ∷ []
unfolding comparison_rows run_cases run_case splitlines strip last_chars
agreement = refl

incomplete :
    comparison_rows cases own
    ≡ err (lane_error "W3C result matrix is incomplete or contains duplicate/extra cases")
unfolding comparison_rows run_cases run_case splitlines strip last_chars
incomplete = refl

comparison_rows-run_cases_example :
    (rows : List Row) × (comparison_rows cases (own ++ core) ≡ ok rows)
    × ArePaired (own ++ core) cases rows
comparison_rows-run_cases_example =
    comparison_rows-run_cases disk site parse launch clock options "/suite" cases loaded
      "/bin/xpact" "/bin/core"
