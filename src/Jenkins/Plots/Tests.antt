-- ===== src/Jenkins/Plots/Tests.antt =====
-- The plots of the run on the small catalog.
use xpact.Prelude.{ℕ, ◌≡◌, refl, false, some, List, [], ◌∷◌, map}
use xpact.Prelude.Outcome.{Outcome, ok, err}
use xpact.Dual.Run.Example.{machine, report, report_returned}
use xpact.Jenkins.Plots.{
  is_hex, validate_artifact, validate_artifacts, validate_cases, validate_row, validate_rows,
  validate_controls, count, Plot,
}
use xpact.Jenkins.Plots.W3c.{counts_of, w3c_counts, w3c_plots}
use xpact.Jenkins.Plots.Example.{whole_numbers, identified}
use xpact.Jenkins.Plots.Accepted.{IsPlotted, w3c_plots-run_lane}

values_of : Outcome (List (Plot ℕ)) → List (List ℕ)
values_of (ok plots) = map (λ (plot : Plot ℕ). plot.values) plots
values_of (err error) = []

-- Passed, wrong verdicts, errors and exclusions.
w3c_plots-values :
    values_of (w3c_plots whole_numbers report)
    ≡ (1 ∷ 0 ∷ []) ∷ (0 ∷ 1 ∷ []) ∷ (0 ∷ 0 ∷ []) ∷ (1 ∷ 1 ∷ []) ∷ []
unfolding values_of report w3c_plots w3c_counts validate_artifacts validate_artifact
    validate_controls validate_rows validate_row validate_cases is_hex count counts_of
w3c_plots-values = refl

w3c_plots-run_lane_example : IsPlotted whole_numbers report
w3c_plots-run_lane_example =
    w3c_plots-run_lane whole_numbers machine (some "/suite") false report report_returned identified
