-- ===== src/Jenkins/Plots/Counting.antt =====
-- What one implementation's results on a catalog count to.
use mathlib.Core.List.{append-nil}
use xpact.Prelude.{
  suc, ◌+◌, String, ◌≡◌, refl, ap, ◌∙◌, inl, inr, Bool, true, false, not, ◌||◌, List, [], ◌∷◌, ◌++◌,
  ◌==◌, any, count, length, All, contains, leb, Bool-cases, eq_iff, eq_refl, arith, if◌then◌else◌,
}
use xpact.Conformance.Case.{Case, Result}
use xpact.Conformance.Runner.Coherent.{IsCoherent}
use xpact.Conformance.Reports.{with_status, of_engine}
use xpact.Conformance.Reports.Totals.{HasStatus, status_total}
use xpact.Dual.Comparison.Table.{Answers}

pub length-Answers :
    (engine : String) (cases : List Case) (rows : List Result)
    → Answers engine cases rows
    → length rows ≡ length cases
length-Answers engine [] [] h = refl
length-Answers engine [] (row ∷ rows) h = absurd h
length-Answers engine (case ∷ cases) [] h = absurd h
length-Answers engine (case ∷ cases) (row ∷ rows) h = ap suc (length-Answers engine cases rows h.1)

-- The results of one engine among those of both.
of_engine_same :
    (engine : String) (cases : List Case) (rows : List Result)
    → Answers engine cases rows
    → of_engine engine rows ≡ rows
of_engine_same engine [] [] h = refl
of_engine_same engine [] (row ∷ rows) h = absurd h
of_engine_same engine (case ∷ cases) [] h = absurd h
of_engine_same engine (case ∷ cases) (row ∷ rows) h =
    let found : (row.engine == engine) ≡ true =
      ap (λ name. name == engine) h.0.copied.engine_kept ∙ eq_refl engine in
    rw found (ap (λ rest. row ∷ rest) (of_engine_same engine cases rows h.1))

of_engine_other :
    (engine name : String) (cases : List Case) (rows : List Result)
    → (engine == name) ≡ false
    → Answers engine cases rows
    → of_engine name rows ≡ []
of_engine_other engine name [] [] e h = refl
of_engine_other engine name [] (row ∷ rows) e h = absurd h
of_engine_other engine name (case ∷ cases) [] e h = absurd h
of_engine_other engine name (case ∷ cases) (row ∷ rows) e h =
    rw (h.0.copied.engine_kept, e) (of_engine_other engine name cases rows e h.1)

of_engine_append :
    (name : String) (xs ys : List Result)
    → of_engine name (xs ++ ys) ≡ of_engine name xs ++ of_engine name ys
of_engine_append name [] ys = refl
of_engine_append name (x ∷ xs) ys = elim (Bool-cases (x.engine == name)) [
  | inl e ↦ rw e (ap (λ rest. x ∷ rest) (of_engine_append name xs ys))
  | inr e ↦ rw e (of_engine_append name xs ys)
]

status-HasStatus :
    (status : String)
    → (row : Result) → row.status ≡ status
    → contains ("passed" ∷ "failed" ∷ "error" ∷ "skipped" ∷ []) status ≡ true
    → HasStatus row
status-HasStatus status row e h =
    ap (contains ("passed" ∷ "failed" ∷ "error" ∷ "skipped" ∷ [])) e ∙ h

coherent-HasStatus :
    (case : Case) (engine : String) (row : Result) → IsCoherent case engine row → HasStatus row
coherent-HasStatus case engine row h = elim h.outcome [
  | inl skipped ↦ status-HasStatus "skipped" row skipped.1 refl
  | inr (run, inl passed) ↦ status-HasStatus "passed" row passed.0 refl
  | inr (run, inr (inl failed)) ↦ status-HasStatus "failed" row failed.0 refl
  | inr (run, inr (inr error)) ↦ status-HasStatus "error" row error.0 refl
]

skips_as :
    (reason status : String) (row : Result) (wanted : Bool)
    → row.status ≡ status
    → (status == "skipped") ≡ wanted
    → (reason == "") ≡ not wanted
    → (row.status == "skipped") ≡ not (reason == "")
skips_as reason status row wanted e h k = ap (λ s. s == "skipped") e ∙ ground (arith, h, k)

coherent_skips :
    (case : Case) (engine : String) (row : Result)
    → IsCoherent case engine row
    → (row.status == "skipped") ≡ not (case.skip_reason == "")
coherent_skips case engine row h = elim h.outcome [
  | inl skipped ↦
      skips_as case.skip_reason "skipped" row true skipped.1 refl
        (ground (arith, eq_iff case.skip_reason "", skipped.0))
  | inr (run, inl passed) ↦
      skips_as case.skip_reason "passed" row false passed.0 refl
        ((eq_iff case.skip_reason "").1 run)
  | inr (run, inr (inl failed)) ↦
      skips_as case.skip_reason "failed" row false failed.0 refl
        ((eq_iff case.skip_reason "").1 run)
  | inr (run, inr (inr error)) ↦
      skips_as case.skip_reason "error" row false error.0 refl ((eq_iff case.skip_reason "").1 run)
]

pub skipped-Answers :
    (engine : String) (cases : List Case) (rows : List Result)
    → Answers engine cases rows
    → with_status "skipped" rows ≡ count (λ case. not (case.skip_reason == "")) cases
skipped-Answers engine [] [] h = refl
skipped-Answers engine [] (row ∷ rows) h = absurd h
skipped-Answers engine (case ∷ cases) [] h = absurd h
skipped-Answers engine (case ∷ cases) (row ∷ rows) h = rw (coherent_skips case engine row h.0) (
    ap (λ n. (if not (case.skip_reason == "") then 1 else 0) + n)
      (skipped-Answers engine cases rows h.1))

HasStatus-Answers :
    (engine : String) (cases : List Case) (rows : List Result)
    → Answers engine cases rows
    → All HasStatus rows
HasStatus-Answers engine [] [] h = tt
HasStatus-Answers engine [] (row ∷ rows) h = absurd h
HasStatus-Answers engine (case ∷ cases) [] h = absurd h
HasStatus-Answers engine (case ∷ cases) (row ∷ rows) h =
    (coherent-HasStatus case engine row h.0, HasStatus-Answers engine cases rows h.1)

pub status_total-Answers :
    (engine : String) (cases : List Case) (rows : List Result)
    → Answers engine cases rows
    → with_status "passed" rows
        + (with_status "failed" rows + (with_status "error" rows + with_status "skipped" rows))
      ≡ length cases
status_total-Answers engine cases rows h = omega (
  arith,
  status_total rows (HasStatus-Answers engine cases rows h),
  length-Answers engine cases rows h,
)

pub any_failed :
    (rows : List Result)
    → any (λ row. contains ("failed" ∷ "error" ∷ []) row.status) rows
      ≡ (leb 1 (with_status "failed" rows) || leb 1 (with_status "error" rows))
any_failed [] = refl
any_failed (row ∷ rows) = ground (arith, any_failed rows)

-- The results of both, one implementation's at a time.
pub of_engine_both :
    (cases : List Case) (own core : List Result)
    → Answers "xpact" cases own
    → Answers "xpact-core" cases core
    → (of_engine "xpact" (own ++ core) ≡ own) × (of_engine "xpact-core" (own ++ core) ≡ core)
of_engine_both cases own core a b = (
  of_engine_append "xpact" own core
      ∙ rw
          (
            of_engine_same "xpact" cases own a,
            of_engine_other "xpact-core" "xpact" cases core refl b,
          )
          (append-nil own),
  of_engine_append "xpact-core" own core
      ∙ rw
          (
            of_engine_other "xpact" "xpact-core" cases own refl a,
            of_engine_same "xpact-core" cases core b,
          )
          refl,
)
