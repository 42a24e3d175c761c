-- ===== src/Jenkins/Campaign/Arguments.antt =====
-- `validate_arguments`, the start of `run_campaign`, and `main` of scripts/run_dual_jenkins.py. Paths
-- are resolved by the disk; whether the output directory can be made is a parameter.
use Prim.Native.Char.{code}
use xpact.Prelude.{
  ℕ, zero, suc, String, Bool, true, false, not, ◌||◌, ◌&&◌, Option, none, some, List, [], ◌∷◌, any,
  ltb, chars, strip, ◌==◌,
}
use xpact.Prelude.Int.{ℤ, pos, negsuc}
use xpact.Benchmark.Options.{Float}
use xpact.Conformance.Runner.{Disk}
use xpact.Jenkins.Campaign.{
  Ending, finished, raised, campaign_error, Outside, Campaign, run_campaign, exit_of,
}

pub record Arguments (F : Type 0) : Type 0 where
  pub build_id : String
  pub output_dir : String
  pub suite_dir : Option String
  pub iterations : ℤ
  pub pairs : ℤ
  pub warmups : ℤ
  pub sample_timeout_seconds : ℤ
  pub min_sample_seconds : F
  pub timeout_seconds : F

-- `if test: raise CampaignError(message)`, one check after the other.
abbrev pub run_checks : List (Bool × String) → Ending (Unit {0})
run_checks [] = finished tt
run_checks ((true, message) ∷ checks) = raised (campaign_error message)
run_checks ((false, message) ∷ checks) = run_checks checks

-- `value <= 0`
abbrev pub is_positive : ℤ → Bool
is_positive (pos (suc n)) = true
is_positive (pos zero) = false
is_positive (negsuc n) = false

abbrev pub has_control : String → Bool
has_control text = any (λ c. ltb (code c) 32) (chars text)

module _ {F : Type 0} (float : Float F) (disk : Disk) (outside : Outside)
    (mkdir : Ending (Unit {0})) where
  -- `value == 0`, of a finite number.
  abbrev pub is_zero : F → Bool
  is_zero value = not (float.less value (float.of_nat 0)) && not (float.less (float.of_nat 0) value)

  abbrev pub overlaps : String → Option String → Bool
  overlaps output_dir none = false
  overlaps output_dir (some suite_dir) =
      disk.is_relative_to output_dir (disk.resolve suite_dir)
      || disk.is_relative_to (disk.resolve suite_dir) output_dir

  abbrev pub checks_of : Arguments F → List (Bool × String)
  checks_of args =
      (
        (strip args.build_id == "" || has_control args.build_id),
        "A nonempty Jenkins build identity without control characters is required",
      )
      ∷ (not (is_positive args.iterations), "iterations must be a positive integer")
      ∷ (not (is_positive args.pairs), "pairs must be a positive integer")
      ∷ (not (is_positive args.warmups), "warmups must be a positive integer")
      ∷ (
        not (is_positive args.sample_timeout_seconds),
        "sample_timeout_seconds must be a positive integer",
      )
      ∷ (
        (not (float.is_finite args.min_sample_seconds)
            || float.less args.min_sample_seconds (float.of_nat 0)),
        "min_sample_seconds must be finite and nonnegative",
      )
      ∷ (
        (not (float.is_finite args.timeout_seconds)
            || (float.less args.timeout_seconds (float.of_nat 0) || is_zero args.timeout_seconds)),
        "timeout_seconds must be finite and positive",
      )
      ∷ (
        overlaps args.output_dir args.suite_dir,
        "W3C inputs and Jenkins run output must be separate directories",
      )
      ∷ []

  unfoldable pub validate_arguments : Arguments F → Ending (Unit {0})
  validate_arguments args = run_checks (checks_of args)

  -- Before the first state nothing is written.
  abbrev pub started : String → Ending (Unit {0}) → Ending (Unit {0}) → Campaign
  started build_id (raised error) made = (raised error, [])
  started build_id (finished done) (raised error) = (raised error, [])
  started build_id (finished done) (finished also) = run_campaign outside build_id

  unfoldable pub start_campaign : Arguments F → Campaign
  unfolding validate_arguments run_campaign
  start_campaign args =
      let resolved = record args { output_dir = disk.resolve args.output_dir } in
      started args.build_id (validate_arguments resolved) mkdir

  unfoldable pub main : Arguments F → Ending ℕ
  unfolding start_campaign
  main args = exit_of (start_campaign args).0
