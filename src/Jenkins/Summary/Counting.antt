-- ===== src/Jenkins/Summary/Counting.antt =====
-- The counts of the suites add up.
use xpact.Prelude.{
  ℕ, ◌+◌, ◌≤◌, ◌≡◌, refl, ◌∙◌, subst, Bool, not, ◌||◌, List, [], ◌∷◌, sum, length, All, ◌==◌, arith,
  any, map,
}
use xpact.Prelude.Int.{ℤ, pos, negsuc}
use xpact.Prelude.Outcome.{ok, refused, >>=-eq-ok, ok_inj}
use xpact.Jenkins.Junit.{
  Tag, failure, error, skipped, Detail, Test, Suite, Counts, counted, with_details, with_time,
  count_tests, no_counts, with_passed, case_counts, distinct,
}
use xpact.Jenkins.Summary.{all_counts, summarise}

-- The outcomes that were counted.
abbrev decided : Counts → ℕ
decided counts = counts.failures + (counts.errors + counts.skipped)

-- At most one more outcome, and as many tests.
abbrev Adds : ℕ → Counts → Counts → Type 0
Adds n counts after = (after.tests ≡ counts.tests) × (decided after ≤ n + decided counts)

counted-Adds : (tag : Tag) (counts : Counts) → Adds 1 counts (counted tag counts)
counted-Adds failure counts = (refl, omega arith)
counted-Adds error counts = (refl, omega arith)
counted-Adds skipped counts = (refl, omega arith)

with_details-Adds :
    (details : List Detail) (counts after : Counts)
    → with_details details counts ≡ ok after
    → Adds 1 counts after
with_details-Adds [] counts after h =
    subst (Adds 1 counts) (ok_inj counts after h) (refl, omega arith)
with_details-Adds (detail ∷ []) counts after h =
    subst (Adds 1 counts) (ok_inj (counted detail.tag counts) after h)
      (counted-Adds detail.tag counts)
with_details-Adds (detail ∷ next ∷ details) counts after h = cc

with_time-Adds :
    (time : ℤ) (counts after : Counts) → with_time time counts ≡ ok after → Adds 0 counts after
with_time-Adds (negsuc n) counts after h = cc
with_time-Adds (pos n) counts after h = subst (Adds 0 counts) (ok_inj _ after h) (refl, omega arith)

count_tests-Adds :
    (tests : List Test) (counts after : Counts)
    → count_tests tests counts ≡ ok after
    → Adds (length tests) counts after
unfolding count_tests
count_tests-Adds [] counts after h =
    subst (Adds 0 counts) (ok_inj counts after h) (refl, omega arith)
count_tests-Adds (test ∷ tests) counts after h =
    let (first, e1, h1) = >>=-eq-ok (with_details test.details counts) _ h in
    let (timed, e2, h2) = >>=-eq-ok (with_time test.time_us first) _ h1 in
    let (same, more) = with_details-Adds test.details counts first e1 in
    let (still, none_more) = with_time-Adds test.time_us first timed e2 in
    let (last, rest) = count_tests-Adds tests timed after h2 in
    (last ∙ still ∙ same, omega (arith, more, none_more, rest))

-- The counts add up.
abbrev pub Reconciles : Counts → Type 0
Reconciles counts =
    counts.passed + (counts.failures + (counts.errors + counts.skipped)) ≡ counts.tests

case_counts-Reconciles :
    (tests : List Test) (counts : Counts) → case_counts tests ≡ ok counts → Reconciles counts
unfolding case_counts
case_counts-Reconciles tests counts h =
    let (named, h1) =
      refused
        (any (λ name. name == "") (map (λ (t : Test). t.name) tests)
          || not (distinct (map (λ (t : Test). t.name) tests)))
        _ _ counts h in
    let (found, e, h2) = >>=-eq-ok (count_tests tests (no_counts (length tests))) _ h1 in
    let (same, few) = count_tests-Adds tests (no_counts (length tests)) found e in
    subst Reconciles (ok_inj (with_passed found) counts h2) (omega (arith, same, few))

pub all_counts-Reconciles :
    (suites : List Suite) (counts : List Counts)
    → all_counts suites ≡ ok counts
    → All Reconciles counts
all_counts-Reconciles [] counts h = subst (All Reconciles) (ok_inj [] counts h) tt
all_counts-Reconciles (suite ∷ suites) counts h =
    let (first, e1, h1) = >>=-eq-ok (case_counts suite.cases) _ h in
    let (more, e2, h2) = >>=-eq-ok (all_counts suites) _ h1 in
    subst (All Reconciles) (ok_inj (first ∷ more) counts h2)
      (case_counts-Reconciles suite.cases first e1, all_counts-Reconciles suites more e2)

sums-Reconcile :
    (counts : List Counts)
    → All Reconciles counts
    → sum (λ (c : Counts). c.passed) counts
        + (sum (λ (c : Counts). c.failures) counts
            + (sum (λ (c : Counts). c.errors) counts + sum (λ (c : Counts). c.skipped) counts))
      ≡ sum (λ (c : Counts). c.tests) counts
sums-Reconcile [] h = refl
sums-Reconcile (c ∷ counts) h = omega (arith, h.0, sums-Reconcile counts h.1)

pub summarise-totals :
    (infrastructure : Bool) (counts : List Counts)
    → All Reconciles counts
    → (summarise infrastructure counts).passed
        + ((summarise infrastructure counts).failures
            + ((summarise infrastructure counts).errors
                + (summarise infrastructure counts).skipped))
      ≡ (summarise infrastructure counts).tests
unfolding summarise
summarise-totals infrastructure counts h = sums-Reconcile counts h
