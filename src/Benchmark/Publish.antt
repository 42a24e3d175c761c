-- ===== src/Benchmark/Publish.antt =====
-- `clear_reports` and `publish_reports` of scripts/compare_eiffel_benchmarks.py: both reports are
-- replaced, or neither is left. Where a system call fails is a parameter.
pub mod AllOrNothing
use xpact.Prelude.{String, Bool, true, false, Option, none, some, List, [], ◌∷◌, if◌then◌else◌}
use xpact.Prelude.Outcome.{Outcome, ok, err, Error}

-- "comparison.json" and "comparison.tsv"
pub data Name : Type 0 where
  json tsv : Name

-- The output directory: both reports, and the temporary files for them.
pub record Disk : Type 0 where
  pub json_report : Option String
  pub tsv_report : Option String
  pub json_temporary : Option String
  pub tsv_temporary : Option String

-- The calls of `clear_reports`: before the run, in `publish_reports`, and after an exception.
pub data Moment : Type 0 where
  before publishing after : Moment

-- A staged file can fail before the temporary file is made, or with a part of the content in it.
pub data Staging : Type 0 where
  staged : Staging
  unmade : Error → Staging
  partly : (content : String) → Error → Staging

pub record Faults : Type 0 where
  pub staging : Name → Staging
  pub replacing : Name → Option Error
  pub clearing : Moment → Name → Option Error
  pub removing : Name → Option Error

-- A change of the directory that may raise.
abbrev pub Action : Type 0
Action = Disk → Disk × Outcome (Unit {0})

abbrev pub continue : Disk × Outcome (Unit {0}) → Action → Disk × Outcome (Unit {0})
continue (disk, ok done) next = next disk
continue (disk, err error) next = (disk, err error)

infixl 5 ◌>>◌
abbrev pub ◌>>◌ : Action → Action → Action
◌>>◌ first next disk = continue (first disk) next

abbrev pub raise_if : Option Error → Action → Action
raise_if none action disk = action disk
raise_if (some error) action disk = (disk, err error)

abbrev pub without : Name → Disk → Disk
without json disk = record disk { json_report = none }
without tsv disk = record disk { tsv_report = none }

abbrev pub report_of : Name → Disk → Option String
report_of json disk = disk.json_report
report_of tsv disk = disk.tsv_report

abbrev pub temporary_of : Name → Disk → Option String
temporary_of json disk = disk.json_temporary
temporary_of tsv disk = disk.tsv_temporary

abbrev pub with_temporary : Name → Option String → Disk → Disk
with_temporary json content disk = record disk { json_temporary = content }
with_temporary tsv content disk = record disk { tsv_temporary = content }

-- `temporary.replace(destination)`
abbrev pub moved : Name → Disk → Disk
moved json disk = record disk { json_report = disk.json_temporary; json_temporary = none }
moved tsv disk = record disk { tsv_report = disk.tsv_temporary; tsv_temporary = none }

-- `if path.exists(): path.unlink()`
abbrev pub unlink_existing : Option String → Option Error → (Disk → Disk) → Action
unlink_existing none fault change disk = (disk, ok tt)
unlink_existing (some content) none change disk = (change disk, ok tt)
unlink_existing (some content) (some error) change disk = (disk, err error)

module _ (faults : Faults) where
  abbrev pub clear_report : Moment → Name → Action
  clear_report moment name disk =
      unlink_existing (report_of name disk) (faults.clearing moment name) (without name) disk

  unfoldable pub clear_reports : Moment → Action
  clear_reports moment = clear_report moment json >> clear_report moment tsv

  abbrev pub stage_with : Staging → Name → String → Action
  stage_with staged name content disk = (with_temporary name (some content) disk, ok tt)
  stage_with (unmade error) name content disk = (disk, err error)
  stage_with (partly written error) name content disk =
      (with_temporary name (some written) disk, err error)

  abbrev pub stage : Name → String → Action
  stage name content = stage_with (faults.staging name) name content

  abbrev pub replace : Name → Action
  replace name = raise_if (faults.replacing name) (λ disk. (moved name disk, ok tt))

  -- The `finally` block.
  abbrev pub remove : Name → Action
  remove name disk =
      unlink_existing (temporary_of name disk) (faults.removing name) (with_temporary name none)
        disk

  abbrev pub remove_staged : Action
  remove_staged = remove json >> remove tsv

  -- `except BaseException: clear_reports(output_dir); raise`
  abbrev pub or_clear : Moment → Disk × Outcome (Unit {0}) → Disk × Outcome (Unit {0})
  or_clear moment (disk, ok done) = (disk, ok done)
  or_clear moment (disk, err error) =
      continue (clear_reports moment disk) (λ cleared. (cleared, err error))

  -- What the `finally` block raises takes the place of what was raised before.
  abbrev pub finally_remove : Disk × Outcome (Unit {0}) → Disk × Outcome (Unit {0})
  finally_remove (disk, result) = continue (remove_staged disk) (λ cleaned. (cleaned, result))

  unfoldable pub publish_reports : (json_content tsv_content : String) → Action
  unfolding clear_reports
  publish_reports json_content tsv_content disk = finally_remove (
      or_clear publishing
        ((stage json json_content >> stage tsv tsv_content >> replace json >> replace tsv) disk))
