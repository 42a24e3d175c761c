-- ===== src/Conformance/Reports/Totals.antt =====
-- The counts of the engine summaries add up.
use xpact.Prelude.{
  ℕ, ◌+◌, ◌≤◌, String, ◌≡◌, refl, ap, ◌∙◌, Bool, true, false, not, List, [], ◌∷◌, map, arith,
  eq_iff, eq_refl, ◌==◌, contains, length, count, nat_eq, nat_eq-eq, ◌++◌, all-contains, sum, keep,
  All, if◌then◌else◌, Bool-cases, inl, inr,
}
use mathlib.Core.Path.{subst}
use mathlib.Core.List.{append_assoc}
use xpact.Conformance.Case.{Result}
use xpact.Conformance.Reports.{
  no_crash_only, Summary, with_status, summarise, unique, of_engine, engines_of, summaries,
}

abbrev pub statuses : List String
statuses = "passed" ∷ "failed" ∷ "error" ∷ "skipped" ∷ []

abbrev pub HasStatus : Result → Type 0
HasStatus row = contains statuses row.status ≡ true

no_crash-le-passed : (rows : List Result) → count no_crash_only rows ≤ with_status "passed" rows
unfolding no_crash_only
no_crash-le-passed [] = omega arith
no_crash-le-passed (row ∷ rows) = ground (arith, no_crash-le-passed rows)

abbrev once : String → ℕ
once status =
    (if status == "passed" then 1 else 0)
    + (if status == "failed" then 1 else 0)
    + (if status == "error" then 1 else 0)
    + (if status == "skipped" then 1 else 0)

-- Exactly one of the four statuses.
status_once : (status : String) → contains statuses status ≡ true → once status ≡ 1
status_once status h =
    nat_eq-eq _ _ (all-contains (λ (t : String). nat_eq (once t) 1) statuses status refl h)

pub status_total :
    (rows : List Result)
    → All HasStatus rows
    → with_status "passed" rows
        + with_status "failed" rows
        + with_status "error" rows
        + with_status "skipped" rows
      ≡ length rows
status_total [] h = omega arith
status_total (row ∷ rows) h = omega (arith, status_once row.status h.0, status_total rows h.1)

-- The counts of a summary add up.
abbrev pub Reconciles : Summary → Type 0
Reconciles s = s.passed + s.no_crash_only + s.failed + s.errors + s.skipped ≡ s.total

summarise-Reconciles :
    (engine : String) (rows : List Result) → All HasStatus rows → Reconciles (summarise engine rows)
unfolding summarise
summarise-Reconciles engine rows h = omega (arith, status_total rows h, no_crash-le-passed rows)

-- Each engine has one summary.

count_dropped :
    (t x : String) (texts : List String)
    → (t == x) ≡ true
    → count (λ e. t == e) (keep (λ o. not (o == x)) texts) ≡ 0
count_dropped t x [] h = refl
count_dropped t x (o ∷ texts) h =
    ground (arith, count_dropped t x texts, eq_iff t x, eq_iff t o, eq_iff o x)

count_kept :
    (t x : String) (texts : List String)
    → (t == x) ≡ false
    → count (λ e. t == e) (keep (λ o. not (o == x)) texts) ≡ count (λ e. t == e) texts
count_kept t x [] h = refl
count_kept t x (o ∷ texts) h =
    ground (arith, count_kept t x texts, eq_iff t x, eq_iff t o, eq_iff o x)

unique_once :
    (t : String) (texts : List String)
    → contains texts t ≡ true
    → count (λ e. t == e) (unique texts) ≡ 1
unfolding unique
unique_once t [] h = cc
unique_once t (x ∷ texts) h = elim (Bool-cases (t == x)) [
  | inl same ↦ rw (same, count_dropped t x (unique texts) same) (omega arith)
  | inr differ ↦
      rw (differ, count_kept t x (unique texts) differ, unique_once t texts (rw differ at h))
        (omega arith)
]

sum-zero : (engines : List String) → sum (λ e. length (of_engine e [])) engines ≡ 0
sum-zero [] = refl
sum-zero (e ∷ engines) = omega (arith, sum-zero engines)

sum-row :
    (row : Result) (rows : List Result) (engines : List String)
    → sum (λ e. length (of_engine e (row ∷ rows))) engines
      ≡ count (λ e. row.engine == e) engines + sum (λ e. length (of_engine e rows)) engines
sum-row row rows [] = omega arith
sum-row row rows (e ∷ engines) = ground (arith, sum-row row rows engines)

-- The results of each engine, added up over engines that name each result once.
engines_total :
    (engines : List String) (rows : List Result)
    → All (λ row. count (λ e. row.engine == e) engines ≡ 1) rows
    → sum (λ e. length (of_engine e rows)) engines ≡ length rows
engines_total engines [] h = sum-zero engines
engines_total engines (row ∷ rows) h =
    omega (arith, sum-row row rows engines, h.0, engines_total engines rows h.1)

contains-append :
    (texts more : List String) (t : String)
    → contains more t ≡ true
    → contains (texts ++ more) t ≡ true
contains-append [] more t h = h
contains-append (x ∷ texts) more t h = ground (arith, contains-append texts more t h)

-- The rows named by the engines of a list that ends with them.
engines_once :
    (before : List String) (rows : List Result)
    → All (λ row. count (λ e. row.engine == e) (unique (before ++ engines_of rows)) ≡ 1) rows
engines_once before [] = tt
engines_once before (row ∷ rows) = (
  unique_once row.engine (before ++ engines_of (row ∷ rows))
      (contains-append before (row.engine ∷ engines_of rows) row.engine (rw eq_refl)),
  subst (λ texts. All (λ other. count (λ e. other.engine == e) (unique texts) ≡ 1) rows)
      (append_assoc before (row.engine ∷ []) (engines_of rows))
      (engines_once (before ++ (row.engine ∷ [])) rows),
)

All-keep {ℓ κ} :
    {A : Type ℓ} (P : A → Type κ) (p : A → Bool) (xs : List A) → All P xs → All P (keep p xs)
All-keep P p [] h = tt
All-keep P p (x ∷ xs) h = elim (Bool-cases (p x)) [
  | inl kept ↦ rw kept (h.0, All-keep P p xs h.1)
  | inr dropped ↦ rw dropped (All-keep P p xs h.1)
]

module _ (results : List Result) (statuses : All HasStatus results) where
  summaries-Reconciles :
      (engines : List String)
      → All Reconciles (map (λ engine. summarise engine (of_engine engine results)) engines)
  summaries-Reconciles [] = tt
  summaries-Reconciles (e ∷ engines) = (
    summarise-Reconciles e (of_engine e results)
        (All-keep HasStatus (λ row. row.engine == e) results statuses),
    summaries-Reconciles engines,
  )

  total-map :
      (engines : List String)
      → sum (λ s. s.total) (map (λ engine. summarise engine (of_engine engine results)) engines)
        ≡ sum (λ e. length (of_engine e results)) engines
  unfolding summarise
  total-map [] = refl
  total-map (e ∷ engines) = ap (λ n. length (of_engine e results) + n) (total-map engines)

  -- Where every result has one of the four statuses, each engine's summary adds up: passes whose
  -- verdict was checked, passes that only show no crash, failures, errors and skipped cases make
  -- its total. The totals add up to the number of results, so each result is counted once.
  pub summaries_total :
      All Reconciles (summaries results) × (sum (λ s. s.total) (summaries results) ≡ length results)
  unfolding summaries
  summaries_total = (
    summaries-Reconciles (unique (engines_of results)),
    total-map (unique (engines_of results))
        ∙ engines_total (unique (engines_of results)) results (engines_once [] results),
  )
