-- ===== src/Dual/Qualification.antt =====
-- `validate_qualification` of scripts/run_dual_w3c.py: the report of the directed controls that a
-- build prints. `repr` is a parameter.
pub mod Once
mod Tests
use xpact.Prelude.{
  ℕ, String, Bool, not, ◌||◌, ◌&&◌, List, [], ◌∷◌, map, ◌==◌, ◌<>◌, any, all, contains, length,
  nat_eq, splitlines, if◌then◌else◌,
}
use xpact.Prelude.Int.{ℤ, is_nat}
use xpact.Prelude.Outcome.{Outcome, ok, err, lane_error, ◌>>=◌, ◌>>◌, refuse}
use xpact.Conformance.Known.{split_tabs, join_tabs}

abbrev pub qualification_cases : List String
qualification_cases =
    "raw_utf8" ∷ "raw_utf16" ∷ "namespace_switch" ∷ "reuse_recovery" ∷ "gc_restoration" ∷ []

-- What the build says of itself.
pub record Metadata : Type 0 where
  pub implementation : String
  pub revision : String
  pub configuration : String
  pub gc_policy : String

pub record Control : Type 0 where
  pub case_id : String
  pub status : String
  pub detail : String

abbrev pub identity : Metadata → String
identity metadata = join_tabs (
    "XPACT_W3C_IDENTITY" ∷ metadata.implementation ∷ metadata.revision ∷ metadata.configuration
    ∷ metadata.gc_policy ∷ [])

abbrev pub statuses : List String
statuses = "PASS" ∷ "FAIL" ∷ []

abbrev pub names_of : List Control → List String
names_of rows = map (λ row. row.case_id) rows

abbrev pub complete : List String → Bool
complete names =
    nat_eq (length names) (length qualification_cases)
    && (all (contains qualification_cases) names && all (contains names) qualification_cases)

abbrev pub expected_code : List Control → ℕ
expected_code rows = if any (λ row. row.status == "FAIL") rows then 1 else 0

module _ (repr : String → String) where
  unfoldable pub control_of : String → List String → Outcome Control
  control_of line (marker ∷ case_id ∷ status ∷ detail ∷ []) = do
    refuse (not (marker == "XPACT_W3C_CASE") || (not (contains statuses status) || detail == ""))
        (lane_error ("Invalid W3C qualification output: " <> repr line))
    ok (record { case_id = case_id; status = status; detail = detail })
  control_of line fields = err (lane_error ("Invalid W3C qualification output: " <> repr line))

  unfoldable pub controls_of : List String → Outcome (List Control)
  unfolding control_of split_tabs
  controls_of [] = ok []
  controls_of (line ∷ lines) = do
    control ← control_of line (split_tabs line)
    controls ← controls_of lines
    ok (control ∷ controls)

  -- After the first line.
  unfoldable pub validate_rows : List String → ℤ → Outcome (List Control)
  unfolding controls_of
  validate_rows lines returncode = do
    rows ← controls_of lines
    refuse (not (complete (names_of rows)))
        (lane_error "W3C qualification must report each named control exactly once")
    refuse (not (is_nat returncode (expected_code rows)))
        (lane_error "W3C qualification exit status contradicts its case results")
    ok rows

  unfoldable pub validate_lines : List String → Metadata → ℤ → Outcome (List Control)
  unfolding validate_rows join_tabs
  validate_lines [] metadata returncode =
      err (lane_error "W3C qualification identity does not match the build")
  validate_lines (first ∷ lines) metadata returncode =
      refuse (not (first == identity metadata))
        (lane_error "W3C qualification identity does not match the build")
      >> validate_rows lines returncode

  unfoldable pub validate_qualification : String → Metadata → ℤ → Outcome (List Control)
  unfolding validate_lines splitlines
  validate_qualification output metadata returncode =
      validate_lines (splitlines output) metadata returncode
