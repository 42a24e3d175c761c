-- ===== src/Jenkins/Plots/Reconciled.antt =====
-- The counts of a run pass the checks of the plots.
use xpact.Prelude.{
  bool_eq, ◌+◌, String, ◌≡◌, refl, Bool, true, false, not, ◌||◌, List, [], ◌∷◌, ◌++◌, ◌==◌, any,
  any-append, length, contains, nat_eq, map, arith, if◌then◌else◌,
}
use xpact.Prelude.Int.{pos}
use xpact.Prelude.Outcome.{ok, not_refused}
use xpact.Conformance.Case.{Case, Result}
use xpact.Conformance.Reports.{with_status}
use xpact.Dual.Comparison.Table.{Answers}
use xpact.Dual.Report.{BuildRow}
use xpact.Dual.Build.{Builds}
use xpact.Dual.Lane.{has_failures, summary_of}
use xpact.Jenkins.Plots.{count}
use xpact.Jenkins.Plots.W3c.{counts_of, Counts, all_counts, has_failed}
use xpact.Jenkins.Plots.Counting.{length-Answers, status_total-Answers, any_failed, of_engine_both}
use xpact.Jenkins.Plots.Controlled.{row_failed}

abbrev pub counts_from : List Result → Counts
counts_from group = record {
  passed = with_status "passed" group;
  failed = with_status "failed" group;
  errors = with_status "error" group;
  skipped = with_status "skipped" group;
}

counts_of-eq-ok :
    (name : String) (cases : List Case) (group : List Result)
    → Answers name cases group
    → counts_of (length cases) (record {
      engine = name;
      total = pos (length group);
      passed = pos (with_status "passed" group);
      failed = pos (with_status "failed" group);
      errors = pos (with_status "error" group);
      skipped = pos (with_status "skipped" group);
    })
      ≡ ok (counts_from group)
unfolding counts_of count
counts_of-eq-ok name cases group h =
    not_refused
      (not (nat_eq (length group) (length cases))
        || not (
            nat_eq
              (with_status "passed" group
                + (with_status "failed" group
                    + (with_status "error" group + with_status "skipped" group)))
              (length cases)))
      _ _
      (ground (arith, length-Answers name cases group h, status_total-Answers name cases group h))

-- The counts of both.
pub all_counts-eq-ok :
    (cases : List Case) (own core : List Result)
    → Answers "xpact" cases own
    → Answers "xpact-core" cases core
    → all_counts (length cases) (map (summary_of (own ++ core)) ("xpact" ∷ "xpact-core" ∷ []))
      ≡ ok (("xpact", counts_from own) ∷ ("xpact-core", counts_from core) ∷ [])
all_counts-eq-ok cases own core a b =
    let (first, second) = of_engine_both cases own core a b in
    let one = counts_of-eq-ok "xpact" cases own a in
    let two = counts_of-eq-ok "xpact-core" cases core b in rw (first, second) (rw (one, two) refl)

pub failures_agree :
    (builds : Builds) (own core : List Result) (a b c d : BuildRow)
    → has_failures (own ++ core) (a ∷ b ∷ c ∷ d ∷ []) ≡ (
        (row_failed builds a
          || (row_failed builds b || (row_failed builds c || (row_failed builds d || false))))
        || (has_failed (counts_from own) || (has_failed (counts_from core) || false)))
unfolding has_failures
failures_agree builds own core a b c d =
    let both =
      any-append (λ (row : Result). contains ("failed" ∷ "error" ∷ []) row.status) own core in
    ground (arith, both, any_failed own, any_failed core)

pub bool_eq_refl : (a b : Bool) → a ≡ b → not (bool_eq a b) ≡ false
bool_eq_refl a b h = ground (arith, h)

pub status_says :
    (failures : Bool)
    → ((if failures then "complete_with_failures" else "complete") == "complete_with_failures")
      ≡ failures
status_says true = refl
status_says false = refl

pub status_known :
    (failures : Bool)
    → (not (
          contains
            ("complete" ∷ "complete_with_failures" ∷ [])
            (if failures then "complete_with_failures" else "complete"))
        || false)
      ≡ false
status_known true = refl
status_known false = refl

pub applicable_some :
    (cases : List Case)
    → any (λ case. case.skip_reason == "") cases ≡ true
    → count true (pos (length cases)) ≡ ok (length cases)
unfolding count
applicable_some [] h = cc
applicable_some (case ∷ cases) h = refl
