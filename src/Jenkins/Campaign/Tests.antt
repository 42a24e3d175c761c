-- ===== src/Jenkins/Campaign/Tests.antt =====
-- A campaign whose first lane fails, and one that is interrupted.
use xpact.Prelude.Int.{pos}
use xpact.Prelude.{ℕ, starts_with, strip, String, ◌≡◌, refl, true, false, Option, none, some}
use xpact.Jenkins.Campaign.{Raised, Ending, finished, raised, Outside, run_campaign}
use xpact.Jenkins.Campaign.Arguments.{Arguments, validate_arguments, start_campaign, main}
use xpact.Jenkins.Plots.Example.{whole_numbers}
use xpact.Conformance.Runner.{Disk}
use xpact.Jenkins.Campaign.Final.{IsFinal, run_campaign-IsFinal}

abbrev broken : Raised
broken = record { name = "LaneError"; message = "no compiler"; interruption = false }

abbrev stopped : Raised
stopped = record { name = "KeyboardInterrupt"; message = ""; interruption = true }

abbrev outside : Ending (Option String) → Outside
outside catalog = record {
  catalog = catalog;
  catalog_digest = finished "aa";
  w3c = finished (some "complete_with_failures");
  w3c_digest = finished "bb";
  publish_summary = λ state.
      finished
        (record { implementation = "xpact"; junit = "xpact-junit.xml"; status = "complete" });
  publish_reports = λ state. finished "plots.tsv";
  cleanup = none;
}

abbrev disk : Disk
disk = record {
  is_file = λ path. true;
  is_dir = λ path. true;
  resolve = λ path. path;
  is_relative_to = λ path root. starts_with path root;
}

abbrev arguments : (build_id : String) → Arguments ℕ
arguments build_id = record {
  build_id = build_id;
  output_dir = "/run/42";
  suite_dir = some "/suite";
  iterations = pos 1000;
  pairs = pos 6;
  warmups = pos 2;
  sample_timeout_seconds = pos 120;
  min_sample_seconds = 1;
  timeout_seconds = 10;
}

exit_code :
    main whole_numbers disk (outside (raised broken)) (finished tt) (arguments "42") ≡ finished 0
unfolding main start_campaign validate_arguments run_campaign strip
exit_code = refl

unnamed :
    main whole_numbers disk (outside (raised broken)) (finished tt) (arguments " ") ≡ finished 2
unfolding main start_campaign validate_arguments strip
unnamed = refl

interrupted :
    main whole_numbers disk (outside (raised stopped)) (finished tt) (arguments "42")
    ≡ raised stopped
unfolding main start_campaign validate_arguments run_campaign strip
interrupted = refl

run_campaign-IsFinal_example : IsFinal (run_campaign (outside (raised stopped)) "42")
run_campaign-IsFinal_example = run_campaign-IsFinal (outside (raised stopped)) "42"
