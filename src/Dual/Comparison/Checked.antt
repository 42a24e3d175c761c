-- ===== src/Dual/Comparison/Checked.antt =====
-- A result of `run_case` passes the checks of `comparison_rows`.
use xpact.Prelude.{
  String, ◌≡◌, ◌≢◌, refl, Bool, true, false, ◌&&◌, [], ◌∷◌, ◌==◌, contains, inl, inr, arith, eq_iff,
  eq_refl,
}
use xpact.Prelude.Outcome.{ok}
use xpact.Conformance.Case.{Case, Result}
use xpact.Conformance.Runner.{or_text, meets}
use xpact.Conformance.Runner.Coherent.{IsCopied, IsCoherent, IsVerdict, IsJudged, WasSkipped}
use xpact.Dual.Comparison.{suppressed, adjusted, included, inconsistent, check_row}

-- A case that is run has a verdict of its own to meet.
abbrev pub IsDefinite : Case → Type 0
IsDefinite case = case.expected ≢ "ANY"

or_text-again : (a b : String) → or_text (or_text a b) b ≡ or_text a b
or_text-again a b = ground arith

suppressed-copied :
    (case : Case) (engine : String) (row : Result)
    → IsCopied case engine row
    → suppressed case row ≡ false
suppressed-copied case engine row h =
    rw (h.expected_kept, h.kind_kept, h.not_known, eq_refl case.expected, eq_refl case.kind) refl

adjusted-copied :
    (case : Case) (engine : String) (row : Result)
    → IsCopied case engine row
    → adjusted case row ≡ false
adjusted-copied case engine row h =
    rw
      (
        h.catalog_kept,
        h.expected_kept,
        h.adjustment_kept,
        or_text-again case.catalog_expected case.expected,
        eq_refl (or_text case.catalog_expected case.expected),
        eq_refl case.expectation_adjustment,
      )
      refl

included-skipped : (case : Case) (row : Result) → WasSkipped case row → included case row ≡ false
included-skipped case row (reason, skipped, actual, message) =
    rw (skipped, actual, message, eq_refl case.skip_reason) refl

meets-definite :
    (expected actual : String) (wanted : Bool)
    → expected ≢ "ANY"
    → meets expected actual ≡ wanted
    → (actual == expected) ≡ wanted
meets-definite expected actual wanted definite h =
    ground
      (arith, h, eq_iff expected "ANY", eq_iff expected actual, eq_iff actual expected, definite)

inconsistent-verdict :
    (case : Case) (row : Result) (wanted : Bool)
    → (row.status == "passed") ≡ wanted
    → (row.actual == case.expected) ≡ wanted
    → IsVerdict row.actual row.exit_code
    → inconsistent case row ≡ false
inconsistent-verdict case row true passed met (inl (accept, code)) =
    rw (passed, met, accept, code) refl
inconsistent-verdict case row true passed met (inr (reject, code)) =
    rw (passed, met, reject, code) refl
inconsistent-verdict case row false passed met (inl (accept, code)) =
    rw (passed, met, accept, code) refl
inconsistent-verdict case row false passed met (inr (reject, code)) =
    rw (passed, met, reject, code) refl

judged-checked :
    (case : Case) (row : Result)
    → IsDefinite case
    → IsJudged case.expected row
    → (contains ("passed" ∷ "failed" ∷ "error" ∷ []) row.status ≡ true)
      × ((contains ("passed" ∷ "failed" ∷ []) row.status && inconsistent case row) ≡ false)
judged-checked case row definite (inl (passed, met, code)) = (
  rw passed refl,
  rw
      (inconsistent-verdict case row true (rw passed refl)
        (meets-definite case.expected row.actual true definite met) code)
      (ground arith),
)
judged-checked case row definite (inr (inl (failed, unmet, code))) = (
  rw failed refl,
  rw
      (inconsistent-verdict case row false (rw failed refl)
        (meets-definite case.expected row.actual false definite unmet) code)
      (ground arith),
)
judged-checked case row definite (inr (inr (broken, rest))) = (rw broken refl, rw broken refl)

pub check_row-eq-ok :
    (case : Case) (engine : String) (row : Result)
    → IsDefinite case
    → IsCoherent case engine row
    → check_row case row ≡ ok tt
unfolding check_row
check_row-eq-ok case engine row definite h =
    rw (suppressed-copied case engine row h.copied, adjusted-copied case engine row h.copied)
      (elim h.outcome [
        | inl skipped ↦
            rw (included-skipped case row skipped)
              (ground (arith, eq_iff case.skip_reason "", skipped.0))
        | inr (applies, judged) ↦
            let (known, consistent) = judged-checked case row definite judged in
            ground (arith, eq_iff case.skip_reason "", applies, known, consistent)
      ])
