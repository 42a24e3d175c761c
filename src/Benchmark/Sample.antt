-- ===== src/Benchmark/Sample.antt =====
-- `run_sample` of scripts/compare_eiffel_benchmarks.py: one process, and the log of one that failed.
use Prim.Native.Char.{Char}
use xpact.Prelude.{
  ℕ, ◌⊎◌, inl, inr, String, Bool, ◌&&◌, ◌||◌, Option, none, some, List, [], ◌∷◌, ◌++◌, ◌==◌, ◌<>◌,
  chars, text_of, contains, strip, show, if◌then◌else◌,
}
use xpact.Prelude.Int.{ℤ, is_nat, show_int}
use xpact.Prelude.Outcome.{Outcome, ok, err, lane_error}

pub record Workload : Type 0 where
  pub name : String
  pub path : Option String
  pub document_bytes : ℕ
  pub iterations : ℕ

-- The executables "A" and "B".
pub data Role : Type 0 where
  baseline candidate : Role

abbrev pub letter : Role → String
letter baseline = "A"
letter candidate = "B"

-- How a process ends; `raised` is an `OSError` or a `TimeoutExpired`.
pub data Execution (F : Type 0) : Type 0 where
  completed : (returncode : ℤ) (stdout stderr : String) (elapsed : F) → Execution F
  raised : String → Execution F

-- A process that was run: the executable, the iterations, the workload's name and the phase.
pub record Ran : Type 0 where
  pub role : Role
  pub count : ℕ
  pub workload : String
  pub phase : String

-- What the script does outside itself: the processes that it ran and the logs that it left.
pub record World : Type 0 where
  pub ran : List Ran
  pub logs : List (String × String)

-- A process by what was run before it, its command line and its time limit; `str.isalnum` of one
-- character; the text of a command by `json.dumps`.
pub record Processes (F : Type 0) : Type 0 where
  pub execute : World → List String → Option ℕ → Execution F
  pub positive : F → Bool
  pub is_alnum : Char → Bool
  pub dumps : List String → String

abbrev pub command_of : (executable : String) (iterations : ℕ) → Option String → List String
command_of executable iterations none = executable ∷ "--iterations" ∷ show iterations ∷ []
command_of executable iterations (some path) =
    executable ∷ "--iterations" ∷ show iterations ∷ "--file" ∷ path ∷ []

module _ {F : Type 0} (processes : Processes F) where
  abbrev pub safe : Char → String
  safe c =
      if processes.is_alnum c || contains ("-" ∷ "_" ∷ "." ∷ []) (text_of (c ∷ []))
      then text_of (c ∷ [])
      else "_"

  abbrev pub safe_text : List Char → String
  safe_text [] = ""
  safe_text (c ∷ cs) = safe c <> safe_text cs

  -- The elapsed time of a process that did what was asked, or the details of what it did.
  unfoldable pub measured : (iterations : ℕ) → Execution F → F ⊎ String
  measured iterations (raised text) = inr text
  measured iterations (completed returncode stdout stderr elapsed) =
      if is_nat returncode 0
        && (strip stdout == ("xpact benchmark harness parsed " <> show iterations <> " documents.")
            && processes.positive elapsed)
      then inl elapsed
      else inr
          ("exit=" <> show_int returncode <> "\nstdout:\n" <> stdout <> "\nstderr:\n" <> stderr)

  abbrev pub log_of : (output_dir phase : String) → String
  log_of output_dir phase = output_dir <> "/logs/" <> safe_text (chars phase) <> ".log"

  -- The end of `run_sample`.
  abbrev pub sampled :
      (command : List String) (phase log : String) → World → F ⊎ String → World × Outcome F
  sampled command phase log world (inl elapsed) = (world, ok elapsed)
  sampled command phase log world (inr details) = (
    record world { logs = world.logs ++ ((log, processes.dumps command <> "\n" <> details) ∷ []) },
    err (lane_error ("Invalid benchmark result for " <> phase <> ". See " <> log)),
  )

  unfoldable pub run_sample :
      (executable : String) (iterations : ℕ) (workload : Workload) (role : Role)
      (phase output_dir : String) (timeout : Option ℕ)
      → World
      → World × Outcome F
  unfolding measured
  run_sample executable iterations workload role phase output_dir timeout world =
      let command = command_of executable iterations workload.path in
      let full = workload.name <> "-" <> phase <> "-" <> letter role in
      let started = record world {
        ran =
            world.ran
            ++ (record { role = role; count = iterations; workload = workload.name; phase = phase }
                ∷ []);
      } in
      sampled command full (log_of output_dir full) started
        (measured iterations (processes.execute world command timeout))
