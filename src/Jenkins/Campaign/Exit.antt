-- ===== src/Jenkins/Campaign/Exit.antt =====
-- The exit code of a campaign.
use xpact.Prelude.{ℕ, suc, ◌≢◌, true, false, strip, ◌≡◌}
use xpact.Prelude.Int.{ℤ, pos}
use xpact.Benchmark.Options.{Float}
use xpact.Conformance.Runner.{Disk}
use xpact.Jenkins.Campaign.Arguments.{Arguments, has_control, overlaps}
use xpact.Jenkins.Campaign.{Ending, finished, State, Outside, Campaign, summary_status}

-- A campaign that returned, with the summary of a complete test run.
abbrev pub IsComplete : Campaign → Type 0
IsComplete campaign =
    (state : State) × (campaign.0 ≡ finished state)
    × (summary_status state.subject_summary ≡ "complete")

abbrev pub IsPositive : ℤ → Type 0
IsPositive value = (n : ℕ) × (value ≡ pos (suc n))

module _ {F : Type 0} (float : Float F) (disk : Disk) (outside : Outside)
    (mkdir : Ending (Unit {0})) where
  -- A build with a name, positive numbers, and an output that does not overlap the suite.
  abbrev pub IsValid : Arguments F → Type 0
  IsValid args =
      (strip args.build_id ≢ "")
      × (has_control args.build_id ≡ false)
      × IsPositive args.iterations
      × IsPositive args.pairs
      × IsPositive args.warmups
      × IsPositive args.sample_timeout_seconds
      × (float.is_finite args.min_sample_seconds ≡ true)
      × (float.less args.min_sample_seconds (float.of_nat 0) ≡ false)
      × (float.is_finite args.timeout_seconds ≡ true)
      × (float.less args.timeout_seconds (float.of_nat 0) ≡ false)
      × (float.less (float.of_nat 0) args.timeout_seconds ≡ true)
      × (overlaps float disk outside mkdir args.output_dir args.suite_dir ≡ false)
