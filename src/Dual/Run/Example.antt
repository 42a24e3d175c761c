-- ===== src/Dual/Run/Example.antt =====
-- Both implementations on the small catalog: the second accepts what it should reject.
use xpact.Prelude.{
  String, ◌≡◌, refl, Bool, true, false, none, some, List, [], ◌∷◌, ◌<>◌, splitlines, strip,
  last_chars, if◌then◌else◌, contains, split,
}
use xpact.Prelude.Int.{pos}
use xpact.Prelude.Outcome.{Outcome, ok, err}
use xpact.Conformance.Known.{split_tabs, join_tabs}
use xpact.Conformance.Profile.{get, expectation, out_of_profile_lane}
use xpact.Conformance.Runner.{Execution, completed, run_case}
use xpact.Conformance.Catalog.{local_uri, load_catalog}
use xpact.Conformance.Catalog.Example.{disk, site, parse}
use xpact.Dual.Comparison.{comparison_rows}
use xpact.Dual.Qualification.{validate_qualification}
use xpact.Dual.Report.{Artifact, Report}
use xpact.Dual.Build.{
  policy_of, printed, Builds, verify_artifact, validate_build, run_qualification, build_row,
  verify_sources,
}
use xpact.Dual.Lane.{
  prepare_suite, verify_case_input, manifest_paths, run_verified, run_artifacts, has_failures,
  report_of,
}
use xpact.Dual.Run.{Machine, report_files, prepare, execute, run_lane}

abbrev pub hex : String
hex = "0123456789abcdef0123456789abcdef01234567"

abbrev pub long_hex : String
long_hex = "0123456789abcdef0123456789abcdef0123456789abcdef0123456789abcdef"

abbrev pub artifact : String → Bool → Artifact
artifact implementation assertions = record {
  status = "verified";
  profile = "w3c";
  implementation = implementation;
  gc_policy = policy_of implementation;
  configuration =
      if assertions
      then "finalized/assertions-on/msvc-x64"
      else "finalized/assertions-off/msvc-x64";
  mode = "finalized";
  assertions = assertions;
  revision = hex;
  source_sha256 = long_hex;
  executable = "/bin/" <> implementation;
  executable_sha256 = long_hex;
  build_inputs_sha256 = long_hex;
}

abbrev pub output : String → Bool → String
output implementation assertions =
    "XPACT_W3C_IDENTITY\t"
    <> implementation
    <> "\t"
    <> hex
    <> "\t"
    <> (if assertions
        then "finalized/assertions-on/msvc-x64"
        else "finalized/assertions-off/msvc-x64")
    <> "\t"
    <> policy_of implementation
    <> "\nXPACT_W3C_CASE\traw_utf8\tPASS\tok\nXPACT_W3C_CASE\traw_utf16\tPASS\tok\nXPACT_W3C_CASE\tnamespace_switch\tPASS\tok\nXPACT_W3C_CASE\treuse_recovery\tPASS\tok\nXPACT_W3C_CASE\tgc_restoration\tPASS\tok\n"

abbrev pub builds : Builds
builds = record {
  build_one = λ implementation assertions.
      ok (if assertions then "on.json" else "off.json", artifact implementation assertions);
  qualify = λ implementation assertions. printed (output implementation assertions) (pos 0);
  hash = λ moment path. ok long_hex;
  fingerprint = λ moment implementation. ok long_hex;
  repr = λ line. line;
}

abbrev pub launch : List String → Execution
launch command =
    if contains command "/bin/xpact"
    then completed (pos 1) "XPACT_CONFORMANCE\tREJECT\n" ""
    else completed (pos 0) "XPACT_CONFORMANCE\tACCEPT\n" ""

abbrev pub machine : Machine
machine = record {
  timeout_finite = true;
  timeout_positive = true;
  run_root = "/run";
  existing = [];
  mkdir = ok tt;
  save = λ state. ok tt;
  site = site;
  parse = parse;
  toolchain = ok tt;
  builds = builds;
  suite = record {
    resolve = λ path. path;
    cached = false;
    extract = ok tt;
    download = ok "/suite";
    target = "/run/suite";
    snapshot = λ moment. ok (record { sha256 = long_hex; files = ("a.xml", long_hex) ∷ [] });
    relative = λ path. ok "a.xml";
    input = λ implementation index after path. ok (some long_hex);
  };
  runs = record {
    disk = disk;
    launch = launch;
    clock = λ command. 1;
    persist = λ diagnostics. ok tt;
    options = λ index case. record {
      timeout = "10";
      diagnostic_dir = none;
      suite_root = some "/suite";
      extra_arguments = [];
    };
  };
  write_reports = λ report. (report_files, ok tt);
}

abbrev empty : Report
empty = record {
  status = "";
  lane = "";
  catalog_cases = pos 0;
  artifacts = [];
  qualification = [];
  engines = [];
  same_outcome = 0;
  different_outcome = 0;
}

abbrev pub or_empty : Outcome Report → Report
or_empty (ok report) = report
or_empty (err error) = empty

-- What the run returns.
unfoldable pub report : Report
unfolding run_lane prepare execute prepare_suite manifest_paths load_catalog expectation
    out_of_profile_lane split strip get local_uri build_row verify_artifact validate_build
    run_qualification validate_qualification split_tabs join_tabs verify_sources verify_case_input
    run_verified run_artifacts run_case splitlines last_chars comparison_rows has_failures report_of
report = or_empty (run_lane machine (some "/suite") false).outcome

pub report_returned : (run_lane machine (some "/suite") false).outcome ≡ ok report
unfolding report run_lane prepare execute prepare_suite manifest_paths load_catalog expectation
    out_of_profile_lane split strip get local_uri build_row verify_artifact validate_build
    run_qualification validate_qualification split_tabs join_tabs verify_sources verify_case_input
    run_verified run_artifacts run_case splitlines last_chars comparison_rows has_failures report_of
report_returned = refl
