-- ===== src/Conformance/Reports.antt =====
-- What scripts/run_w3c_conformance.py counts of its results: the engine summaries of
-- `write_reports`.
pub mod Totals
mod Tests
use xpact.Prelude.{
  ℕ, ◌-◌, String, Bool, not, ◌&&◌, List, [], ◌∷◌, map, ◌==◌, contains, length, count, keep, sum,
}
use xpact.Conformance.Case.{Result}

unfoldable pub unexpected : Result → Bool
unexpected row = contains ("failed" ∷ "error" ∷ []) row.status && row.known == ""

-- A pass in a lane that accepts either verdict.
unfoldable pub no_crash_only : Result → Bool
no_crash_only row = row.status == "passed" && row.expected == "ANY"

pub record Summary : Type 0 where
  pub engine : String
  pub total : ℕ
  pub passed : ℕ
  pub no_crash_only : ℕ
  pub failed : ℕ
  pub errors : ℕ
  pub skipped : ℕ
  pub accepted : ℕ
  pub rejected : ℕ
  pub known : ℕ
  pub unexpected : ℕ
  pub elapsed_us : ℕ

-- `Counter(row.status for row in rows)[status]`
abbrev pub with_status : String → List Result → ℕ
with_status status rows = count (λ row. row.status == status) rows

summarise : String → List Result → Summary
unfolding unexpected no_crash_only
summarise engine rows = record {
  engine = engine;
  total = length rows;
  passed = with_status "passed" rows - count no_crash_only rows;
  no_crash_only = count no_crash_only rows;
  failed = with_status "failed" rows;
  errors = with_status "error" rows;
  skipped = with_status "skipped" rows;
  accepted = count (λ row. row.actual == "ACCEPT") rows;
  rejected = count (λ row. row.actual == "REJECT") rows;
  known = count (λ row. not (row.known == "")) rows;
  unexpected = count unexpected rows;
  elapsed_us = sum (λ row. row.elapsed_us) rows;
}

-- `dict.fromkeys(texts)`: each text once, where it occurs first.
unfoldable pub unique : List String → List String
unique [] = []
unique (text ∷ texts) = text ∷ keep (λ other. not (other == text)) (unique texts)

abbrev pub of_engine : String → List Result → List Result
of_engine engine rows = keep (λ row. row.engine == engine) rows

abbrev pub engines_of : List Result → List String
engines_of results = map (λ row. row.engine) results

-- The summaries of `write_reports`, one for each engine of the results.
unfoldable pub summaries : List Result → List Summary
unfolding summarise unique
summaries results =
    map (λ engine. summarise engine (of_engine engine results)) (unique (engines_of results))
