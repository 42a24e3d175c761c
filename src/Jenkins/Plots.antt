-- ===== src/Jenkins/Plots.antt =====
-- The checks of scripts/dual_jenkins_reports.py on what is plotted: `validate_artifacts`
-- and `validate_controls`, and the plot that `plot_spec` makes. A `ReportsError` is a `ValueError`.
pub mod W3c
pub mod Reconciled
pub mod Controlled
pub mod Counting
pub mod Accepted
pub mod Example
mod Tests
use Prim.Native.Char.{Char, code}
use Prim.Native.String
use xpact.Prelude.{
  bool_eq, ℕ, zero, suc, ◌+◌, ◌*◌, String, Bool, true, false, not, ◌&&◌, ◌||◌, Option, none, some,
  List, [], ◌∷◌, ◌++◌, map, any, all, sum, length, ◌==◌, ◌<>◌, chars, contains, leb, nat_eq,
  if◌then◌else◌,
}
use xpact.Prelude.Int.{ℤ, pos, negsuc}
use xpact.Prelude.Outcome.{Outcome, ok, err, value_error, ◌>>=◌, ◌>>◌, refuse}
use xpact.Benchmark.Options.{Float}
use xpact.Benchmark.Measure.{is_even}
use xpact.Dual.Qualification.{Control}
use xpact.Dual.Build.{policy_of}
use xpact.Dual.Report.{Artifact, BuildRow, Engine, Report}
use xpact.Dual.Lane.{has_error}

abbrev pub engines : List String
engines = "xpact" ∷ "xpact-core" ∷ []

abbrev pub catalog_controls : List String
catalog_controls =
    "catalog_observed" ∷ "catalog_noop" ∷ "observed_reuse_recovery" ∷ "noop_reuse_recovery"
    ∷ "gc_restoration" ∷ []

abbrev pub w3c_controls : List String
w3c_controls =
    "raw_utf8" ∷ "raw_utf16" ∷ "namespace_switch" ∷ "reuse_recovery" ∷ "gc_restoration" ∷ []

-- The two lanes by their profile.
pub data Profile : Type 0 where
  catalog w3c : Profile

abbrev pub profile_name : Profile → String
profile_name catalog = "catalog"
profile_name w3c = "w3c"

-- `count`
unfoldable pub count : (positive : Bool) → ℤ → Outcome ℕ
count positive (negsuc n) = err (value_error "Case counts must be nonnegative integers")
count true (pos zero) = err (value_error "Case counts must be nonnegative integers")
count true (pos (suc n)) = ok (suc n)
count false (pos n) = ok n

-- `set(a) == set(b)`
abbrev pub same_names : List String → List String → Bool
same_names a b = all (contains b) a && all (contains a) b

abbrev pub is_hex_digit : ℕ → Bool
is_hex_digit n = (leb 48 n && leb n 57) || (leb 97 n && leb n 102)

-- `re.fullmatch(r"[0-9a-f]{n}", text)`
unfoldable pub is_hex : ℕ → String → Bool
is_hex n text = nat_eq (length (chars text)) n && all (λ c. is_hex_digit (code c)) (chars text)

abbrev pub differs : Profile → String → Artifact → Bool
differs profile engine artifact =
    not (artifact.status == "verified")
    || (not (artifact.profile == profile_name profile)
        || (not (artifact.implementation == engine)
            || (not (artifact.gc_policy == policy_of engine)
                || (not (artifact.configuration == "finalized/assertions-off/msvc-x64")
                    || (not (artifact.mode == "finalized") || artifact.assertions)))))

unfoldable pub validate_artifact : Profile → String → Artifact → Outcome (Unit {0})
unfolding is_hex
validate_artifact profile engine artifact = do
  refuse (differs profile engine artifact)
      (value_error "Plot artifact differs from the selected finalized configuration")
  refuse
      (not (is_hex 40 artifact.revision)
        || (not (is_hex 64 artifact.executable_sha256)
            || not (is_hex 64 artifact.build_inputs_sha256)))
      (value_error "Plot provenance lacks source or executable identity")

abbrev pub validate_each : Profile → List (String × Artifact) → Outcome (Unit {0})
validate_each profile [] = ok tt
validate_each profile ((engine, artifact) ∷ rest) = do
  validate_artifact profile engine artifact
  validate_each profile rest

unfoldable pub validate_artifacts : Profile → List (String × Artifact) → Outcome (Unit {0})
unfolding validate_artifact
validate_artifacts profile artifacts = do
  refuse (not (same_names (map (λ (a : String × Artifact). a.0) artifacts) engines))
      (value_error "Both implementation artifacts are required")
  validate_each profile artifacts

-- A row of the controls by its implementation and its assertions.
abbrev pub Key : Type 0
Key = String × Bool

abbrev pub same_key : Key → Key → Bool
same_key (engine, assertions) (other, mode) = engine == other && bool_eq assertions mode

abbrev pub same_keys : List Key → List Key → Bool
same_keys a b = all (λ k. any (same_key k) b) a && all (λ k. any (same_key k) a) b

abbrev pub key_of : BuildRow → Key
key_of row = (row.implementation, row.assertions)

abbrev pub control_keys : List Key
control_keys =
    ("xpact", true) ∷ ("xpact", false) ∷ ("xpact-core", true) ∷ ("xpact-core", false) ∷ []

abbrev pub expected_controls : Profile → List String
expected_controls catalog = catalog_controls
expected_controls w3c = w3c_controls

abbrev pub expected_status : Profile → String
expected_status catalog = "qualified"
expected_status w3c = "executed"

abbrev pub is_catalog : Profile → Bool
is_catalog catalog = true
is_catalog w3c = false

abbrev pub is_empty : List Control → Bool
is_empty [] = true
is_empty (case ∷ cases) = false

abbrev pub is_failure : Control → Bool
is_failure case = case.status == "FAIL"

-- The controls of one row; whether one of them failed.
unfoldable pub validate_cases : Profile → List Control → Outcome Bool
validate_cases profile cases = do
  refuse
      (not (
          nat_eq (length (map (λ (c : Control). c.case_id) cases))
            (length (expected_controls profile)))
        || not (same_names (map (λ (c : Control). c.case_id) cases) (expected_controls profile)))
      (value_error "Directed control matrix is incomplete or duplicated")
  refuse (any (λ c. not (contains ("PASS" ∷ "FAIL" ∷ []) c.status)) cases)
      (value_error "Invalid directed control outcome")
  ok (any is_failure cases)

unfoldable pub validate_row : Profile → BuildRow → Outcome Bool
unfolding validate_cases
validate_row profile row = do
  refuse (not (row.status == expected_status profile))
      (value_error "Directed controls were not executed")
  if has_error row.qualification_error
      then refuse (is_catalog profile || not (is_empty row.cases))
          (value_error "Control process errors cannot supply passing qualification")
        >> ok true
      else validate_cases profile row.cases

unfoldable pub validate_rows : Profile → List BuildRow → Outcome Bool
unfolding validate_row
validate_rows profile [] = ok false
validate_rows profile (row ∷ rows) = do
  failed ← validate_row profile row
  more ← validate_rows profile rows
  ok (failed || more)

unfoldable pub validate_controls : Profile → List BuildRow → Outcome Bool
unfolding validate_rows
validate_controls profile rows = do
  refuse (not (nat_eq (length rows) 4) || not (same_keys (map key_of rows) control_keys))
      (value_error "Directed controls must cover both assertion modes for both implementations")
  has_failures ← validate_rows profile rows
  refuse (is_catalog profile && has_failures)
      (value_error "A failed catalog correctness gate cannot supply benchmark values")
  ok has_failures

-- `plot_spec`
pub record Plot (F : Type 0) : Type 0 where
  pub token : String
  pub group : String
  pub title : String
  pub yaxis : String
  pub values : List F
