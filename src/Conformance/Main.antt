-- ===== src/Conformance/Main.antt =====
-- `main` of scripts/run_w3c_conformance.py: the options, the loop over engines and cases, the known
-- failures and the exit code. The suite directory that `prepare_suite` or `--suite-dir` gives is a
-- parameter, as are the XML parser, the disk, the engines' processes and the clock.
pub mod Matrix
mod Skips
pub mod Exit
mod Tests
use Prim.Native.Char.{code}
use Prim.Native.String
use xpact.Prelude.{
  ℕ, String, Bool, not, ◌||◌, ◌&&◌, Option, none, some, List, [], ◌∷◌, ◌++◌, map, ◌==◌, ◌<>◌, any,
  all, contains, nat_eq, if◌then◌else◌,
}
use xpact.Prelude.Outcome.{Error, Outcome, ok, err, value_error, message_of, ◌>>=◌, ◌>>◌, refuse}
use xpact.Conformance.Case.{Case, Result}
use xpact.Conformance.Runner.{Disk, Execution, Options, run_case}
use xpact.Conformance.Catalog.{Element, Site, load_catalog}
use xpact.Conformance.Reports.{unexpected}
use xpact.Conformance.Known.{Entry, load_known_failures, apply_known_failures, write_known_failures}

-- The parsed command line; the known-failures file with its path and what reading it gives.
pub record Arguments : Type 0 where
  pub engine : List String
  pub entity_engine : List String
  pub all_cases : Bool
  pub timeout : String
  pub write_known : Bool
  pub known_failures : Option (String × Outcome (List String))

-- `dict[str, Path]`, in the order of insertion.
abbrev pub Engines : Type 0
Engines = List (String × String)

abbrev pub names_of : Engines → List String
names_of engines = map (λ (name, path). name) engines

abbrev in_front : String → Option (String × String) → Option (String × String)
in_front text none = none
in_front text (some (before, after)) = some (text <> before, after)

-- `value.partition("=")`; `none` where there is no separator.
unfoldable pub partition : String → Option (String × String)
partition String.[] = none
partition (String.◌∷◌ c s) =
    let rest = partition s in
    if nat_eq (code c) 61 then some ("", s) else in_front (String.◌∷◌ c "") rest

-- `engines[name]`, which the loop only asks for names that are there.
unfoldable pub path_of : String → Engines → String
path_of name [] = ""
path_of name ((other, path) ∷ engines) = if other == name then path else path_of name engines

module _ (disk : Disk) where
  add_engine : String → Engines → Option (String × String) → Outcome Engines
  add_engine value engines none =
      err (value_error ("Invalid or duplicate --engine NAME=EXE: " <> value))
  add_engine value engines (some (name, executable)) = do
    refuse (name == "" || (executable == "" || contains (names_of engines) name))
        (value_error ("Invalid or duplicate --engine NAME=EXE: " <> value))
    refuse (not (disk.is_file (disk.resolve executable)))
        (value_error ("Engine executable does not exist: " <> disk.resolve executable))
    ok (engines ++ ((name, disk.resolve executable) ∷ []))

  parse_engines : Engines → List String → Outcome Engines
  unfolding add_engine partition
  parse_engines engines [] = ok engines
  parse_engines engines (value ∷ values) = do
    more ← add_engine value engines (partition value)
    parse_engines more values

  add_entity_engine : Engines → String → Engines → Option (String × String) → Outcome Engines
  add_entity_engine engines value entity_engines none =
      err (value_error ("Invalid, unknown or duplicate --entity-engine NAME=EXE: " <> value))
  add_entity_engine engines value entity_engines (some (name, executable)) = do
    refuse (not (contains (names_of engines) name) || contains (names_of entity_engines) name)
        (value_error ("Invalid, unknown or duplicate --entity-engine NAME=EXE: " <> value))
    refuse (not (disk.is_file (disk.resolve executable)))
        (value_error ("Entity engine executable does not exist: " <> disk.resolve executable))
    ok (entity_engines ++ ((name, disk.resolve executable) ∷ []))

  parse_entity_engines : Engines → Engines → List String → Outcome Engines
  unfolding add_entity_engine partition
  parse_entity_engines engines entity_engines [] = ok entity_engines
  parse_entity_engines engines entity_engines (value ∷ values) = do
    more ← add_entity_engine engines value entity_engines (partition value)
    parse_entity_engines engines more values

-- `set(a) == set(b)`
abbrev same_names : Engines → Engines → Bool
same_names a b =
    all (contains (names_of b)) (names_of a) && all (contains (names_of a)) (names_of b)

pub record Plan : Type 0 where
  pub known : List Entry
  pub engines : Engines
  pub entity_engines : Engines
  pub suite_dir : String
  pub cases : List Case

abbrev load_known : Option (String × Outcome (List String)) → Outcome (List Entry)
load_known none = ok []
load_known (some (path, lines)) = lines >>= load_known_failures path

-- Everything in the `try` block up to the first run. `prepared` is the suite directory.
unfoldable pub setup :
    Disk → Site → (Bool → String → Outcome Element) → Outcome String → Arguments → Outcome Plan
unfolding parse_engines parse_entity_engines
setup disk site parse prepared arguments = do
  known ← load_known arguments.known_failures
  engines ← parse_engines disk [] arguments.engine
  entity_engines ← parse_entity_engines disk engines [] arguments.entity_engine
  refuse (arguments.all_cases && not (same_names entity_engines engines))
      (value_error "--all-cases needs one --entity-engine for every --engine")
  suite_dir ← prepared
  cases ← load_catalog disk site parse suite_dir
  refuse (not (any (λ case. case.skip_reason == "") cases))
      (value_error "No applicable cases in the catalog")
  ok (record {
    known = known;
    engines = engines;
    entity_engines = entity_engines;
    suite_dir = suite_dir;
    cases = cases;
  })

-- `replace(case, expected=case.lane_expected, skip_reason="")`
abbrev pub in_lane : Case → Case
in_lane case = record case { expected = case.lane_expected; skip_reason = "" }

-- `if known and not any(row.engine == "harness" for row in results): …`
judge_known : List Entry → List Result → List Result
judge_known [] results = results
judge_known (entry ∷ known) results =
    if any (λ row. row.engine == "harness") results
    then results
    else let (marked, stale) = apply_known_failures results (entry ∷ known) in marked ++ stale

module _ (disk : Disk) (launch : List String → Execution) (clock : List String → ℕ) where
  abbrev pub options : Arguments → Option String → List String → Options
  options arguments root extra = record {
    timeout = arguments.timeout;
    diagnostic_dir = none;
    suite_root = root;
    extra_arguments = extra;
  }

  -- The body of the loop: a case in its lane, or under the profile.
  pub run_one : Arguments → Plan → String → String → Case → Result
  unfolding path_of
  run_one arguments plan engine executable case =
      if arguments.all_cases && not (case.skip_reason == "")
      then if case.entities
        then (run_case disk launch clock (in_lane case) engine (path_of engine plan.entity_engines)
            (options arguments none ("--entity-root" ∷ plan.suite_dir ∷ []))).0
        else (run_case disk launch clock (in_lane case) engine executable (
            options arguments (some plan.suite_dir)
              (if case.lane == "legacy-names" then "--legacy-names" ∷ [] else []))).0
      else (run_case disk launch clock case engine executable
          (options arguments (some plan.suite_dir) [])).0

  pub run_engines : Arguments → Plan → Engines → List Result
  run_engines arguments plan [] = []
  run_engines arguments plan ((engine, executable) ∷ engines) =
      map (run_one arguments plan engine executable) plan.cases
      ++ run_engines arguments plan engines

  abbrev pub setup_error : Error → Result
  setup_error error = record {
    engine = "harness";
    case_id = "suite-setup";
    path = "";
    kind = "";
    expected = "";
    actual = "not-run";
    status = "error";
    elapsed_us = 0;
    message = message_of error;
    known = "";
    exit_code = none;
    lane = "core";
    catalog_expected = "";
    expectation_adjustment = "";
  }

  unfoldable pub run_plan : Arguments → Outcome Plan → List Result
  unfolding run_engines run_one judge_known
  run_plan arguments (err error) = setup_error error ∷ []
  run_plan arguments (ok plan) = judge_known plan.known (run_engines arguments plan plan.engines)

  -- The results that are reported, the known-failures file if one is asked for, and the exit code.
  unfoldable pub main :
      Site
      → (Bool → String → Outcome Element)
      → Outcome String
      → Arguments
      → record { results : List Result; written : Option (List String); exit_code : ℕ }
  unfolding run_plan setup
  main site parse prepared arguments =
      let results = run_plan arguments (setup disk site parse prepared arguments) in
      record {
        results = results;
        written = if arguments.write_known then some (write_known_failures results) else none;
        exit_code = if any unexpected results then 1 else 0;
      }
