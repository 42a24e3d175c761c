-- ===== src/Conformance/Case.antt =====
-- The dataclasses `Case` and `Result` of scripts/run_w3c_conformance.py. A path is its text, and
-- `elapsed_ms`, which the runner rounds to three decimals, is counted in thousandths.
use Prim.Native.Char.{Char, code}
use xpact.Prelude.{ℕ, String, Bool, Option, map, nat_eq, chars, text_of, if◌then◌else◌}
use xpact.Prelude.Int.{ℤ}

pub record Case : Type 0 where
  pub id : String
  pub path : String
  pub kind : String
  pub namespaces : Bool
  pub expected : String
  pub skip_reason : String
  pub description : String
  pub recommendation : String
  pub lane : String
  pub lane_expected : String
  pub entities : Bool
  pub catalog_expected : String
  pub expectation_adjustment : String

pub record Result : Type 0 where
  pub engine : String
  pub case_id : String
  pub path : String
  pub kind : String
  pub expected : String
  pub actual : String
  pub status : String
  pub elapsed_us : ℕ
  pub message : String
  pub known : String
  pub exit_code : Option ℤ
  pub lane : String
  pub catalog_expected : String
  pub expectation_adjustment : String

-- `value.replace("\x00", "?")`
visible : Char → Char
visible c = if nat_eq (code c) 0 then "?" else c

unfoldable pub no_nul : String → String
unfolding visible
no_nul text = text_of (map visible (chars text))

-- `tsv_row`: the fields of a result with the NULs of its texts replaced.
unfoldable pub tsv_row : Result → Result
tsv_row row = record {
  engine = no_nul row.engine;
  case_id = no_nul row.case_id;
  path = no_nul row.path;
  kind = no_nul row.kind;
  expected = no_nul row.expected;
  actual = no_nul row.actual;
  status = no_nul row.status;
  elapsed_us = row.elapsed_us;
  message = no_nul row.message;
  known = no_nul row.known;
  exit_code = row.exit_code;
  lane = no_nul row.lane;
  catalog_expected = no_nul row.catalog_expected;
  expectation_adjustment = no_nul row.expectation_adjustment;
}
