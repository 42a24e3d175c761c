-- ===== src/Conformance/Known/Tests.antt =====
-- Known-failures lists on a small run.
use xpact.Prelude.{
  String, ◌≡◌, refl, true, false, not, ◌||◌, some, List, [], ◌∷◌, ◌++◌, any, all, All, arith,
  eq_iff,
}
use xpact.Prelude.Outcome.{ok, err, value_error}
use xpact.Prelude.Int.{pos}
use xpact.Conformance.Case.{Result}
use xpact.Conformance.Reports.{unexpected}
use xpact.Conformance.Known.{Entry, load_known_failures, apply_known_failures, write_known_failures}
use xpact.Conformance.Known.Lookup.{DistinctCases}
use xpact.Conformance.Known.Marking.{current}
use xpact.Conformance.Known.Gate.{uncovered, HasCategory, unexpected-apply_known_failures}
use xpact.Conformance.Known.Lines.{IsPlain}
use xpact.Conformance.Known.RoundTrip.{write-load-apply}

abbrev row : String → String → String → Result
row id status actual = record {
  engine = "xpact";
  case_id = id;
  path = "a.xml";
  kind = "not-wf";
  expected = "REJECT";
  actual = actual;
  status = status;
  elapsed_us = 10;
  message = "";
  known = "";
  exit_code = some (pos 0);
  lane = "core";
  catalog_expected = "REJECT";
  expectation_adjustment = "";
}

abbrev rows : List Result
rows = row "a" "failed" "ACCEPT" ∷ row "b" "passed" "REJECT" ∷ row "c" "error" "timeout" ∷ []

abbrev entry : String → String → String → Entry
entry id status category = record {
  engine = "xpact";
  case_id = id;
  status = status;
  category = category;
}

written_lines :
    write_known_failures rows
    ≡ "engine\tcase_id\tstatus\tcategory" ∷ "xpact\ta\tfailed\taccepts input that must be rejected"
      ∷ "xpact\tc\terror\ttimeout" ∷ []
unfolding write_known_failures
written_lines = refl

-- A field with a line break or a quote is quoted.
quoted_lines :
    write_known_failures (row "a\n#b" "failed" "ACCEPT" ∷ row "say \"no\"" "error" "timeout" ∷ [])
    ≡ "engine\tcase_id\tstatus\tcategory"
      ∷ "xpact\t\"a\n#b\"\tfailed\taccepts input that must be rejected"
      ∷ "xpact\t\"say \"\"no\"\"\"\terror\ttimeout" ∷ []
unfolding write_known_failures
quoted_lines = refl

-- Columns may stand in another order, and comments anywhere.
loaded :
    load_known_failures "known.tsv"
      ("# gaps" ∷ "case_id\tengine\tcategory\tstatus" ∷ "a\txpact\tnames\tfailed" ∷ "" ∷ [])
    ≡ ok (entry "a" "failed" "names" ∷ [])
unfolding load_known_failures
loaded = refl

duplicate :
    load_known_failures "k"
      ("engine\tcase_id\tstatus\tcategory" ∷ "x\ta\terror\tt" ∷ "x\ta\tfailed\tu" ∷ [])
    ≡ err (value_error "Duplicate known failure x a: k")
unfolding load_known_failures
duplicate = refl

abbrev gaps : List Entry
gaps = entry "a" "failed" "names" ∷ entry "b" "failed" "entities" ∷ []

stale_message : any unexpected (apply_known_failures rows gaps).1 ≡ true
unfolding apply_known_failures unexpected
stale_message = refl

rows-DistinctCases : DistinctCases rows
rows-DistinctCases = (refl, (refl, (refl, tt)))

gaps-HasCategory : All HasCategory gaps
gaps-HasCategory =
    ((λ e. ground (arith, eq_iff "names" "")), ((λ e. ground (arith, eq_iff "entities" "")), tt))

unexpected-apply_known_failures_example :
    let (marked, stale) = apply_known_failures rows gaps in
    any unexpected (marked ++ stale) ≡ (any (uncovered gaps) rows || not (all (current rows) gaps))
unexpected-apply_known_failures_example =
    unexpected-apply_known_failures rows gaps rows-DistinctCases gaps-HasCategory

row-IsPlain : (status actual : String) → IsPlain (row "a" status actual)
row-IsPlain status actual = record {
  engine_name = (refl, refl);
  case_given = λ e. ground (arith, eq_iff "a" "");
  case_plain = refl;
  unmarked = refl;
  ours = refl;
}

abbrev failures : List Result
failures = row "a" "failed" "ACCEPT" ∷ []

write-load-apply_example :
    (known : List Entry) × (load_known_failures "known.tsv" (write_known_failures failures)
      ≡ ok known)
    × (let (marked, stale) = apply_known_failures failures known in
        any unexpected (marked ++ stale) ≡ false)
write-load-apply_example =
    write-load-apply "known.tsv" failures (refl, tt) (row-IsPlain "failed" "ACCEPT", tt)

-- Both sides hold there.
accepted :
    load_known_failures "k" (write_known_failures failures)
    ≡ ok (entry "a" "failed" "accepts input that must be rejected" ∷ [])
unfolding load_known_failures write_known_failures
accepted = refl
