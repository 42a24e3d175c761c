-- ===== src/Benchmark/Measure/Trace.antt =====
-- The processes that a step runs, in order.
use mathlib.Core.List.{append_assoc}
use xpact.Prelude.{
  ℕ, zero, suc, ◌≡◌, refl, ap, ◌∙◌, ◌⊎◌, inl, inr, String, Bool, true, false, not, List, [], ◌∷◌,
  ◌++◌, ◌<>◌, show,
}
use xpact.Benchmark.Options.{Float, Options}
use xpact.Benchmark.Sample.{
  Workload, Role, baseline, candidate, Ran, World, Processes, sampled, measured, command_of, log_of,
  letter, run_sample,
}
use xpact.Benchmark.Measure.{
  Step, ◌>>=◌, pure, ending_of, Calibration, is_even, sample, sample_both, executable_of,
}
use xpact.Benchmark.Measure.Steps.{Ends, >>=-Ends, Ends-weaken}

-- Both samples, in the order AB or BA.
abbrev pub runs :
    (reversed : Bool) → (workload : String) → (count : ℕ) → (phase : String) → List Ran
runs false workload count phase =
    record { role = baseline; count = count; workload = workload; phase = phase }
    ∷ record { role = candidate; count = count; workload = workload; phase = phase }
    ∷ []
runs true workload count phase =
    record { role = candidate; count = count; workload = workload; phase = phase }
    ∷ record { role = baseline; count = count; workload = workload; phase = phase }
    ∷ []

abbrev pub calibration_runs : {F : Type 0} → String → List (Calibration F) → List Ran
calibration_runs workload [] = []
calibration_runs workload (row ∷ rows) =
    runs false workload row.iterations "calibration" ++ calibration_runs workload rows

abbrev pub warm_up_runs : String → (count warmup left : ℕ) → List Ran
warm_up_runs workload count warmup zero = []
warm_up_runs workload count warmup (suc left) =
    runs (not (is_even warmup)) workload count ("warmup-" <> show (suc warmup))
    ++ warm_up_runs workload count (suc warmup) left

abbrev pub pair_runs : String → (count pair left : ℕ) → List Ran
pair_runs workload count pair zero = []
pair_runs workload count pair (suc left) =
    runs (is_even pair) workload count ("pair-" <> show pair)
    ++ pair_runs workload count (suc pair) left

-- The processes run before, and those of a step.
abbrev pub Adds : List Ran → List Ran → World → Type 0
Adds before more after = after.ran ≡ before ++ more

pub Adds-both :
    (before first second : List Ran) (mid after : World)
    → Adds before first mid
    → Adds mid.ran second after
    → Adds before (first ++ second) after
Adds-both before first second mid after h k =
    k ∙ ap (λ r. r ++ second) h ∙ append_assoc before first second

pub >>=-Adds :
    {A B : Type 0} (m : Step A) (next : A → Step B) (first second : List Ran) (world : World)
    → Ends (λ after a. Adds world.ran first after) (m world)
    → ((mid : World) (a : A) → Ends (λ after b. Adds mid.ran second after) (next a mid))
    → Ends (λ after b. Adds world.ran (first ++ second) after) ((m >>= next) world)
>>=-Adds m next first second world h k =
    >>=-Ends (λ after a. Adds world.ran first after)
      (λ after b. Adds world.ran (first ++ second) after) m next world h
      (λ mid a added.
        Ends-weaken (λ after b. Adds mid.ran second after)
          (λ after b. Adds world.ran (first ++ second) after) (next a mid) (k mid a)
          (λ after b more. Adds-both world.ran first second mid after added more))

-- A result that is only turned into another.
pub then_pure-Adds :
    {A B : Type 0} (m : Step A) (f : A → B) (first : List Ran) (world : World)
    → Ends (λ after a. Adds world.ran first after) (m world)
    → Ends (λ after b. Adds world.ran first after) ((m >>= (λ a. pure (f a))) world)
then_pure-Adds m f first world h =
    >>=-Ends (λ after a. Adds world.ran first after) (λ after b. Adds world.ran first after) m
      (λ a. pure (f a)) world h (λ mid a added. added)

sampled-ran :
    {F : Type 0} (processes : Processes F) (command : List String) (phase log : String)
    (world : World) (m : F ⊎ String)
    → Ends
        (λ after a. after.ran ≡ world.ran)
        (ending_of (sampled processes command phase log world m))
sampled-ran processes command phase log world (inl elapsed) = refl
sampled-ran processes command phase log world (inr details) = tt

module _ {F : Type 0} (float : Float F) (processes : Processes F) (options : Options F)
    (workload : Workload) where
  pub sample-Adds :
      (count : ℕ) (role : Role) (phase : String) (world : World)
      → Ends
          (λ after a.
            Adds world.ran
              (record { role = role; count = count; workload = workload.name; phase = phase } ∷ [])
              after)
          (sample float processes options workload count role phase world)
  unfolding sample run_sample
  sample-Adds count role phase world =
      let command =
        command_of (executable_of float processes options workload role) count workload.path in
      let full = workload.name <> "-" <> phase <> "-" <> letter role in
      let started : World = record world {
        ran =
            world.ran
            ++ (record { role = role; count = count; workload = workload.name; phase = phase }
                ∷ []);
      } in
      sampled-ran processes command full (log_of processes options.output_dir full) started
        (measured processes count (processes.execute world command options.timeout_seconds))

  pub sample_both-Adds :
      (reversed : Bool) (count : ℕ) (phase : String) (world : World)
      → Ends
          (λ after ab. Adds world.ran (runs reversed workload.name count phase) after)
          (sample_both float processes options workload reversed count phase world)
  unfolding sample_both
  sample_both-Adds false count phase world =
      >>=-Adds (sample float processes options workload count baseline phase)
        (λ a. sample float processes options workload count candidate phase >>= (λ b. pure (a, b)))
        _ _ world (sample-Adds count baseline phase world)
        (λ mid a.
          then_pure-Adds (sample float processes options workload count candidate phase)
            (λ b. (a, b)) _ mid (sample-Adds count candidate phase mid))
  sample_both-Adds true count phase world =
      >>=-Adds (sample float processes options workload count candidate phase)
        (λ b. sample float processes options workload count baseline phase >>= (λ a. pure (a, b))) _
        _ world (sample-Adds count candidate phase world)
        (λ mid b.
          then_pure-Adds (sample float processes options workload count baseline phase)
            (λ a. (a, b)) _ mid (sample-Adds count baseline phase mid))
