-- ===== src/Conformance/Runner/Evidence.antt =====
-- When `run_case` leaves diagnostic files, and what they say.
use xpact.Prelude.{
  ℕ, String, ◌≡◌, ◌≢◌, ◌⊎◌, refl, ap, true, false, Option, none, some, List, arith, eq_iff, ◌==◌,
  inl, inr, Bool-cases,
}
use mathlib.Core.Option
use xpact.Conformance.Case.{Case, Result, tsv_row}
use xpact.Conformance.Runner.{
  Disk, Execution, Options, Diagnostics, outside, command_line, leave, execute, run_case,
}

-- The files record the command and the result that is returned.
pub record Records (options : Options) (command : List String)
    (answer : Result × Option Diagnostics) (d : Diagnostics) : Type 0 where
  pub asked : options.diagnostic_dir ≡ some d.directory
  pub same_command : d.command ≡ command
  pub same_result : d.result ≡ tsv_row answer.0

leave-none :
    (o : Option String) (output : String × String) (command : List String) (final : Result)
    → leave o output command final ≡ none
    → o ≡ none
unfolding leave
leave-none none output command final h = refl
leave-none (some directory) output command final h = cc

leave-Records :
    (o : Option String) (output : String × String) (command : List String) (final : Result)
    (d : Diagnostics)
    → leave o output command final ≡ some d
    → (o ≡ some d.directory) × (d.command ≡ command) × (d.result ≡ tsv_row final)
unfolding leave
leave-Records none output command final d h = cc
leave-Records (some directory) output command final d h = (
  cc (ap (Option.map {A = Diagnostics} (λ e. e.directory)) h),
  cc (ap (Option.map {A = Diagnostics} (λ e. e.command)) h),
  cc (ap (Option.map {A = Diagnostics} (λ e. e.result)) h),
)

-- Diagnostic files `left` for a case, and why none are.
abbrev pub IsEvidence :
    Disk → Case → String → Options → Result × Option Diagnostics → Option Diagnostics → Type 0
IsEvidence disk case executable options answer none =
    (case.skip_reason ≢ "")
    ⊎ (disk.is_file case.path ≡ false)
    ⊎ (outside disk case options.suite_root ≡ true)
    ⊎ (options.diagnostic_dir ≡ none)
IsEvidence disk case executable options answer (some d) =
    (case.skip_reason ≡ "")
    × (disk.is_file case.path ≡ true)
    × (outside disk case options.suite_root ≡ false)
    × Records options (command_line disk case executable options) answer d

leave-IsEvidence :
    (disk : Disk) (case : Case) (executable : String) (options : Options) (output : String × String)
    (final : Result)
    → case.skip_reason ≡ ""
    → disk.is_file case.path ≡ true
    → outside disk case options.suite_root ≡ false
    → (left : Option Diagnostics)
    → leave options.diagnostic_dir output (command_line disk case executable options) final ≡ left
    → IsEvidence disk case executable options (final, left) left
leave-IsEvidence disk case executable options output final applies there inside none h =
    inr (inr (inr (leave-none options.diagnostic_dir output _ final h)))
leave-IsEvidence disk case executable options output final applies there inside (some d) h =
    let (asked, same_command, same_result) =
      leave-Records options.diagnostic_dir output _ final d h in
    (
      applies,
      there,
      inside,
      record { asked = asked; same_command = same_command; same_result = same_result },
    )

module _ (disk : Disk) (launch : List String → Execution) (clock : List String → ℕ) (case : Case)
    (engine executable : String) (options : Options) where
  -- Diagnostic files are left exactly where a directory is given, for a case of the profile whose
  -- file is there and inside the suite root, however the process ends, also if it cannot be
  -- started. They record the command line and the result that is returned, with its NULs replaced.
  pub run_case-Records :
      let answer = run_case disk launch clock case engine executable options in
      IsEvidence disk case executable options answer answer.1
  unfolding run_case execute
  run_case-Records = elim (Bool-cases (case.skip_reason == "")) [
    | inr skipped ↦ rw skipped (inl (λ e. ground (arith, eq_iff case.skip_reason "", skipped, e)))
    | inl applies ↦ rw applies (elim (Bool-cases (disk.is_file case.path)) [
      | inr missing ↦ rw missing (inr (inl missing))
      | inl there ↦ rw there (elim (Bool-cases (outside disk case options.suite_root)) [
        | inl out ↦ rw out (inr (inr (inl out)))
        | inr inside ↦ rw inside (
            leave-IsEvidence disk case executable options _ _
              ((eq_iff case.skip_reason "").0 applies) there inside _ refl)
      ])
    ])
  ]
