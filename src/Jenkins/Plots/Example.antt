-- ===== src/Jenkins/Plots/Example.antt =====
-- Whole numbers in place of floating-point numbers, and the artifacts of the run on the small catalog.
use Prim.Native.Nat.{◌/◌}
use xpact.Prelude.{ℕ, ◌*◌, String, refl, true, List, [], ◌∷◌, ltb, show, All}
use xpact.Benchmark.Options.{Float}
use xpact.Dual.Report.{Artifact}
use xpact.Dual.Run.Example.{report}
use xpact.Jenkins.Plots.{is_hex}
use xpact.Jenkins.Plots.Controlled.{HasIdentity}

abbrev pub first_of : List ℕ → ℕ
first_of [] = 0
first_of (n ∷ ns) = n

abbrev pub whole_numbers : Float ℕ
whole_numbers = record {
  of_nat = λ n. n;
  times = λ a b. a * b;
  divided_by = λ a b. a / b;
  less = ltb;
  median = first_of;
  is_finite = λ n. true;
  show = show;
}

pub identified : All (λ (a : String × Artifact). HasIdentity a.1) report.artifacts
unfolding report is_hex
identified = ((refl, refl, refl), ((refl, refl, refl), tt))
