-- ===== src/Dual/Qualification/Tests.antt =====
-- The output of a build with one failing control.
use xpact.Prelude.{String, ◌≡◌, refl, List, [], ◌∷◌, ◌<>◌, splitlines}
use xpact.Prelude.Int.{pos}
use xpact.Prelude.Outcome.{ok, err, lane_error}
use xpact.Conformance.Known.{split_tabs, join_tabs}
use xpact.Dual.Qualification.{Metadata, Control, validate_qualification}
use xpact.Dual.Qualification.Once.{IsAccepted, validate_qualification-IsAccepted}

abbrev metadata : Metadata
metadata = record {
  implementation = "xpact";
  revision = "abc";
  configuration = "finalized/assertions-off/msvc-x64";
  gc_policy = "normal";
}

abbrev repr : String → String
repr line = "'" <> line <> "'"

abbrev output : String
output =
    "XPACT_W3C_IDENTITY\txpact\tabc\tfinalized/assertions-off/msvc-x64\tnormal\r\nXPACT_W3C_CASE\traw_utf8\tPASS\tok\nXPACT_W3C_CASE\traw_utf16\tPASS\tok\nXPACT_W3C_CASE\tgc_restoration\tFAIL\tleft off\nXPACT_W3C_CASE\tnamespace_switch\tPASS\tok\nXPACT_W3C_CASE\treuse_recovery\tPASS\tok\n"

abbrev control : String → String → String → Control
control case_id status detail = record { case_id = case_id; status = status; detail = detail }

abbrev rows : List Control
rows =
    control "raw_utf8" "PASS" "ok"
    ∷ control "raw_utf16" "PASS" "ok"
    ∷ control "gc_restoration" "FAIL" "left off"
    ∷ control "namespace_switch" "PASS" "ok"
    ∷ control "reuse_recovery" "PASS" "ok"
    ∷ []

accepted : validate_qualification repr output metadata (pos 1) ≡ ok rows
unfolding validate_qualification split_tabs join_tabs splitlines
accepted = refl

contradicted :
    validate_qualification repr output metadata (pos 0)
    ≡ err (lane_error "W3C qualification exit status contradicts its case results")
unfolding validate_qualification split_tabs join_tabs splitlines
contradicted = refl

validate_qualification-IsAccepted_example : IsAccepted output metadata (pos 1) rows
validate_qualification-IsAccepted_example =
    validate_qualification-IsAccepted repr metadata (pos 1) rows output accepted
