-- ===== src/Conformance/Runner/Tests.antt =====
-- `run_case` on a small disk with scripted engines.
use xpact.Prelude.{
  ℕ, String, ◌≡◌, refl, true, false, some, List, [], ◌∷◌, contains, splitlines, strip, last_chars,
}
use xpact.Prelude.Int.{pos}
use xpact.Conformance.Case.{Case, tsv_row}
use xpact.Conformance.Runner.{
  Disk, Execution, completed, Options, Diagnostics, command_line, run_case,
}
use xpact.Conformance.Runner.Coherent.{IsCoherent, run_case-IsCoherent}
use xpact.Conformance.Runner.Evidence.{IsEvidence, run_case-Records}

abbrev disk : Disk
disk = record {
  is_file = λ path. contains ("/suite/a.xml" ∷ "/suite/b.xml" ∷ []) path;
  is_dir = λ path. contains ("/suite" ∷ []) path;
  resolve = λ path. path;
  is_relative_to = λ path root. true;
}

-- Accepts every input.
abbrev accepting : List String → Execution
accepting command = completed (pos 0) "starting\nXPACT_CONFORMANCE\tACCEPT\n" ""

-- Prints a verdict and then ends with another exit code.
abbrev crashing : List String → Execution
crashing command = completed (pos 3) "XPACT_CONFORMANCE\tACCEPT\r\n" "broken"

abbrev clock : List String → ℕ
clock command = 1250

abbrev options : Options
options = record {
  timeout = "10";
  diagnostic_dir = some "/work/0001";
  suite_root = some "/suite";
  extra_arguments = [];
}

abbrev case : Case
case = record {
  id = "a";
  path = "/suite/a.xml";
  kind = "not-wf";
  namespaces = true;
  expected = "REJECT";
  skip_reason = "";
  description = "Two roots.";
  recommendation = "XML1.0";
  lane = "core";
  lane_expected = "REJECT";
  entities = false;
  catalog_expected = "REJECT";
  expectation_adjustment = "";
}

wrong_verdict :
    (run_case disk accepting clock case "xpact" "/bin/xpact" options).0.message
    ≡ "Expected REJECT, got ACCEPT. Two roots.\nstarting\nXPACT_CONFORMANCE\tACCEPT"
unfolding run_case splitlines strip last_chars
wrong_verdict = refl

crash : (run_case disk crashing clock case "xpact" "/bin/xpact" options).0.status ≡ "error"
unfolding run_case splitlines
crash = refl

run_case-IsCoherent_example :
    IsCoherent case "xpact" (run_case disk crashing clock case "xpact" "/bin/xpact" options).0
run_case-IsCoherent_example =
    run_case-IsCoherent disk crashing clock case "xpact" "/bin/xpact" options

abbrev left : Diagnostics
left = record {
  directory = "/work/0001";
  stdout = "XPACT_CONFORMANCE\tACCEPT\r\n";
  stderr = "broken";
  command = command_line disk case "/bin/xpact" options;
  result = tsv_row (run_case disk crashing clock case "xpact" "/bin/xpact" options).0;
}

left_by_run : (run_case disk crashing clock case "xpact" "/bin/xpact" options).1 ≡ some left
unfolding run_case
left_by_run = refl

run_case-Records_example :
    let answer = run_case disk crashing clock case "xpact" "/bin/xpact" options in
    IsEvidence disk case "/bin/xpact" options answer answer.1
run_case-Records_example = run_case-Records disk crashing clock case "xpact" "/bin/xpact" options
