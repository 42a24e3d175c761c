-- ===== src/Conformance/Runner.antt =====
-- `run_case` of scripts/run_w3c_conformance.py: one catalog case through one engine executable.
-- The file system, the process and the clock are the section's parameters. `run_case` gives the
-- result with the diagnostic files that it is to write; `persisted` is `run_case` with the writing of
-- these, which may raise.
pub mod Coherent
pub mod Passed
pub mod Evidence
mod Tests
use xpact.Prelude.{
  ℕ, String, Bool, false, not, ◌||◌, ◌&&◌, Option, none, some, List, [], ◌∷◌, ◌++◌, ◌==◌,
  starts_with, ◌<>◌, keep, splitlines, strip, last_chars, if◌then◌else◌,
}
use xpact.Prelude.Int.{ℤ, is_nat, show_int}
use xpact.Prelude.Outcome.{Outcome, ok, ◌>>◌}
use xpact.Conformance.Case.{Case, Result, tsv_row}

-- What `pathlib` answers about the disk.
pub record Disk : Type 0 where
  pub is_file : String → Bool
  pub is_dir : String → Bool
  pub resolve : String → String
  pub is_relative_to : String → String → Bool

-- How `subprocess.run` ends: with an exit code and the decoded output, by the timeout with what
-- was captured until then, or with an `OSError`.
pub data Execution : Type 0 where
  completed : ℤ → (stdout stderr : String) → Execution
  timed_out : (stdout stderr : String) → Execution
  not_started : String → Execution

-- The three files that a run with a diagnostic directory leaves there.
pub record Diagnostics : Type 0 where
  pub directory : String
  pub stdout : String
  pub stderr : String
  pub command : List String
  pub result : Result

-- What an engine is run with; `timeout` is the limit as the message prints it.
pub record Options : Type 0 where
  pub timeout : String
  pub diagnostic_dir : Option String
  pub suite_root : Option String
  pub extra_arguments : List String

abbrev pub prefix : String
prefix = "XPACT_CONFORMANCE\t"

abbrev pub accept_marker : String
accept_marker = "XPACT_CONFORMANCE\tACCEPT"

abbrev pub reject_marker : String
reject_marker = "XPACT_CONFORMANCE\tREJECT"

-- `markers == [text]`
abbrev pub is_only : List String → String → Bool
is_only (line ∷ []) text = line == text
is_only _ text = false

-- `a or b`
abbrev pub or_text : String → String → String
or_text a b = if a == "" then b else a

-- The result before anything is run.
abbrev pub initial : Case → String → Result
initial case engine = record {
  engine = engine;
  case_id = case.id;
  path = case.path;
  kind = case.kind;
  expected = case.expected;
  actual = "not-run";
  status = "skipped";
  elapsed_us = 0;
  message = "";
  known = "";
  exit_code = none;
  lane = case.lane;
  catalog_expected = or_text case.catalog_expected case.expected;
  expectation_adjustment = case.expectation_adjustment;
}

-- The verdict that the markers and the exit code agree on.
verdict : List String → ℤ → Option String
verdict markers code =
    if is_only markers accept_marker && is_nat code 0
    then some "ACCEPT"
    else if is_only markers reject_marker && is_nat code 1
    then some "REJECT"
    else none

-- `case.expected in (result.actual, "ANY")`
abbrev pub meets : String → String → Bool
meets expected actual = expected == actual || expected == "ANY"

-- The result of a process that ended by itself, given the verdict that was read.
conclude : Case → Result → ℤ → Option String → Result
conclude case result code none = record result {
  status = "error";
  actual = "process-error";
  message =
      "Exit code " <> show_int code <> "; missing or inconsistent verdict.\n" <> result.message;
}
conclude case result code (some actual) =
    if meets case.expected actual
    then record result { actual = actual; status = "passed" }
    else record result {
      actual = actual;
      status = "failed";
      message =
          "Expected " <> case.expected <> ", got " <> actual <> ". " <> case.description <> "\n"
          <> result.message;
    }

judge : Case → Result → String → Execution → Result
judge case result timeout (completed code stdout stderr) =
    conclude case
      (record result {
        exit_code = some code;
        message = strip (last_chars 12000 (stdout <> stderr));
      })
      code (verdict (keep (λ line. starts_with line prefix) (splitlines stdout)) code)
judge case result timeout (timed_out stdout stderr) = record result {
  status = "error";
  actual = "timeout";
  message = "Parser exceeded the per-case timeout of " <> timeout <> " seconds";
}
judge case result timeout (not_started message) = record result {
  status = "error";
  actual = "process-error";
  message = message;
}

abbrev captured : Execution → String × String
captured (completed code stdout stderr) = (stdout, stderr)
captured (timed_out stdout stderr) = (stdout, stderr)
captured (not_started message) = ("", "")

abbrev fail_early : Result → String → Result × Option Diagnostics
fail_early result message = (record result { status = "error"; message = message }, none)

abbrev namespaced : Case → List String
namespaced case = if case.namespaces then "--namespaces" ∷ [] else []

module _ (disk : Disk) where
  -- Whether the suite root, if one is given, exists and holds the input; and its arguments.
  abbrev outside : Case → Option String → Bool
  outside case none = false
  outside case (some root) =
      not (disk.is_dir (disk.resolve root))
      || not (disk.is_relative_to (disk.resolve case.path) (disk.resolve root))

  abbrev rooted : Option String → List String
  rooted none = []
  rooted (some root) = "--suite-root" ∷ disk.resolve root ∷ []

  abbrev pub command_line : Case → String → Options → List String
  command_line case executable options =
      executable
      ∷ "--conformance-file"
      ∷ case.path
      ∷ (rooted options.suite_root ++ (namespaced case ++ options.extra_arguments))

-- `if diagnostic_dir is not None: …`
leave : Option String → String × String → List String → Result → Option Diagnostics
leave none output command final = none
leave (some directory) (stdout, stderr) command final = some (record {
  directory = directory;
  stdout = stdout;
  stderr = stderr;
  command = command;
  result = tsv_row final;
})

-- An error in writing the files is raised instead of any result.
abbrev pub stored :
    (Diagnostics → Outcome (Unit {0})) → Result × Option Diagnostics → Outcome Result
stored persist (result, none) = ok result
stored persist (result, some diagnostics) = persist diagnostics >> ok result

module _ (disk : Disk) (launch : List String → Execution) (clock : List String → ℕ) where
  -- From the start of the process on; the files are written however it ended.
  execute : Case → Result → Options → List String → Result × Option Diagnostics
  unfolding leave
  execute case result options command =
      let final = record (judge case result options.timeout (launch command)) {
        elapsed_us = clock command;
      } in
      (final, leave options.diagnostic_dir (captured (launch command)) command final)

  unfoldable pub run_case : Case → String → String → Options → Result × Option Diagnostics
  unfolding execute judge conclude verdict
  run_case case engine executable options =
      let result = initial case engine in
      if not (case.skip_reason == "")
      then (record result { message = case.skip_reason }, none)
      else if not (disk.is_file case.path)
      then fail_early result "Catalog input file is missing"
      else if outside disk case options.suite_root
      then fail_early result "Catalog input is outside an existing local suite root"
      else execute case result options (command_line disk case executable options)

  abbrev pub persisted :
      (Diagnostics → Outcome (Unit {0})) → Case → String → String → Options → Outcome Result
  persisted persist case engine executable options =
      stored persist (run_case case engine executable options)
