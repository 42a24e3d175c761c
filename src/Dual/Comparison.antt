-- ===== src/Dual/Comparison.antt =====
-- `comparison_rows` of scripts/run_dual_w3c.py, which checks the results of both implementations
-- against the catalog and pairs them, and the loop of `run_lane` that makes the results.
mod Checked
pub mod Table
pub mod Complete
mod Tests
use xpact.Prelude.{
  bool_eq, ℕ, ◌+◌, suc, String, Bool, true, false, not, ◌||◌, ◌&&◌, Option, none, some, List, [],
  ◌∷◌, ◌++◌, map, ◌==◌, any, all, contains, length, count, nat_eq, if◌then◌else◌,
}
use xpact.Prelude.Int.{ℤ, is_nat}
use xpact.Prelude.Outcome.{Outcome, ok, err, key_error, lane_error, ◌>>=◌, ◌>>◌, refuse}
use xpact.Conformance.Case.{Case, Result}
use xpact.Conformance.Runner.{Disk, Execution, Options, or_text, run_case}

-- The keys of `GC_POLICIES`.
abbrev pub gc_policies : List String
gc_policies = "xpact" ∷ "xpact-core" ∷ []

abbrev pub Key : Type 0
Key = String × String

abbrev pub key_of : Result → Key
key_of row = (row.engine, row.case_id)

abbrev pub same_key : Key → Key → Bool
same_key (engine, id) (other, name) = engine == other && id == name

-- `indexed[key]`: the last result with the key.
unfoldable pub indexed : String → String → List Result → Option Result
indexed engine id [] = none
indexed engine id (row ∷ rows) = elim (indexed engine id rows) [
  | some later ↦ some later
  | none ↦ if same_key (engine, id) (key_of row) then some row else none
]

-- `len(indexed)`: a key counts where it stands last.
unfoldable pub distinct_count : List Key → ℕ
distinct_count [] = 0
distinct_count (key ∷ keys) = (if any (same_key key) keys then 0 else 1) + distinct_count keys

-- `expected`, a set.
unfoldable pub expected_keys : List String → List Case → List Key
expected_keys [] cases = []
expected_keys (engine ∷ engines) cases =
    map (λ case. (engine, case.id)) cases ++ expected_keys engines cases

abbrev pub same_set : List Key → List Key → Bool
same_set a b = all (λ k. any (same_key k) b) a && all (λ k. any (same_key k) a) b

abbrev pub has_code : Option ℤ → ℕ → Bool
has_code none n = false
has_code (some code) n = is_nat code n

abbrev pub suppressed : Case → Result → Bool
suppressed case result =
    not (result.expected == case.expected)
    || not (result.kind == case.kind)
    || not (result.known == "")

abbrev pub adjusted : Case → Result → Bool
adjusted case result =
    not (
      or_text result.catalog_expected result.expected
      == or_text case.catalog_expected case.expected)
    || not (result.expectation_adjustment == case.expectation_adjustment)

abbrev pub included : Case → Result → Bool
included case result =
    not (result.status == "skipped")
    || not (result.actual == "not-run")
    || not (result.message == case.skip_reason)

abbrev pub inconsistent : Case → Result → Bool
inconsistent case result =
    not (contains ("ACCEPT" ∷ "REJECT" ∷ []) result.actual)
    || not (bool_eq (result.status == "passed") (result.actual == case.expected))
    || not (has_code result.exit_code (if result.actual == "ACCEPT" then 0 else 1))

-- The checks of one result against its case.
unfoldable pub check_row : Case → Result → Outcome (Unit {0})
check_row case result = do
  refuse (suppressed case result)
      (lane_error "W3C result expectations changed or a failure was suppressed")
  refuse (adjusted case result)
      (lane_error "W3C catalog expectation adjustment changed for one implementation")
  if not (case.skip_reason == "")
      then refuse (included case result)
          (lane_error "W3C profile exclusion changed for one implementation")
      else if not (contains ("passed" ∷ "failed" ∷ "error" ∷ []) result.status)
      then err (lane_error "An applicable W3C case was not executed")
      else if contains ("passed" ∷ "failed" ∷ []) result.status
      then refuse (inconsistent case result)
          (lane_error "W3C verdict, status and process exit code are inconsistent")
      else ok tt

pub record Row : Type 0 where
  pub case_id : String
  pub kind : String
  pub namespaces : Bool
  pub expected : String
  pub skip_reason : String
  pub catalog_expected : String
  pub expectation_adjustment : String
  pub xpact_status : String
  pub xpact_actual : String
  pub xpact_exit_code : Option ℤ
  pub core_status : String
  pub core_actual : String
  pub core_exit_code : Option ℤ
  pub agreement : Bool

abbrev pub row_of : Case → Result → Result → Row
row_of case own core = record {
  case_id = case.id;
  kind = case.kind;
  namespaces = case.namespaces;
  expected = case.expected;
  skip_reason = case.skip_reason;
  catalog_expected = or_text case.catalog_expected case.expected;
  expectation_adjustment = case.expectation_adjustment;
  xpact_status = own.status;
  xpact_actual = own.actual;
  xpact_exit_code = own.exit_code;
  core_status = core.status;
  core_actual = core.actual;
  core_exit_code = core.exit_code;
  agreement = own.status == core.status && own.actual == core.actual;
}

abbrev pub at_key : String → Option Result → Outcome Result
at_key id none = err (key_error id)
at_key id (some row) = ok row

-- The loop over the cases.
unfoldable pub compare : List Case → List Result → Outcome (List Row)
unfolding indexed check_row
compare [] results = ok []
compare (case ∷ cases) results = do
  own ← at_key case.id (indexed "xpact" case.id results)
  core ← at_key case.id (indexed "xpact-core" case.id results)
  check_row case own
  check_row case core
  rows ← compare cases results
  ok (row_of case own core ∷ rows)

unfoldable pub comparison_rows : List Case → List Result → Outcome (List Row)
unfolding compare distinct_count expected_keys
comparison_rows cases results = do
  refuse
      (not (nat_eq (distinct_count (map key_of results)) (length results))
        || not (same_set (map key_of results) (expected_keys gc_policies cases)))
      (lane_error "W3C result matrix is incomplete or contains duplicate/extra cases")
  compare cases results

-- The loop of `run_lane` over the cases of one implementation; `work` is the directory of a case
-- by its number.
module _ (disk : Disk) (launch : List String → Execution) (clock : List String → ℕ)
    (options : ℕ → Case → Options) where
  unfoldable pub run_cases : String → String → ℕ → List Case → List Result
  run_cases engine executable index [] = []
  run_cases engine executable index (case ∷ cases) =
      (run_case disk launch clock case engine executable (options index case)).0
      ∷ run_cases engine executable (suc index) cases
