-- ===== src/Benchmark/Options.antt =====
-- The arguments of scripts/compare_eiffel_benchmarks.py: `positive_int`, the fields that `parse_args`
-- fills, and `preflight_inputs`. Floating-point numbers are an interface.
pub mod Range
use Prim.Native.String
use xpact.Prelude.{
  ℕ, ◌≤◌, String, Bool, true, false, not, ◌&&◌, ◌||◌, Option, none, some, List, [], ◌∷◌, ◌++◌, map,
  ◌==◌, ◌<>◌, leb, if◌then◌else◌,
}
use xpact.Prelude.Int.{ℤ, pos, negsuc}
use xpact.Prelude.Outcome.{Outcome, ok, err, value_error, lane_error, ◌>>=◌, ◌>>◌, refuse}

abbrev pub max_iterations : ℕ
max_iterations = 2147483647

-- What the script does with `float`.
pub record Float (F : Type 0) : Type 0 where
  pub of_nat : ℕ → F
  pub times : F → F → F
  pub divided_by : F → F → F
  pub less : F → F → Bool
  -- `statistics.median`
  pub median : List F → F
  pub is_finite : F → Bool
  pub show : F → String

-- `float(value)` has been read.
unfoldable pub nonnegative_float : {F : Type 0} → Float F → F → Outcome F
nonnegative_float float number =
    if not (float.is_finite number) || float.less number (float.of_nat 0)
    then err (value_error "must be finite and nonnegative")
    else ok number

-- `int(value)` has been read.
unfoldable pub positive_int : ℤ → Outcome ℕ
positive_int (negsuc n) = err (value_error "must be between 1 and 2147483647")
positive_int (pos number) =
    if leb 1 number && leb number max_iterations
    then ok number
    else err (value_error "must be between 1 and 2147483647")

pub record Options (F : Type 0) : Type 0 where
  pub baseline : String
  pub candidate : String
  pub output_dir : String
  pub workload : List String
  pub xml_file : List String
  pub iterations : ℕ
  pub file_iterations : ℕ
  pub xml_iterations : ℕ
  pub pairs : ℕ
  pub warmups : ℕ
  pub min_sample_seconds : F
  pub timeout_seconds : Option ℕ

-- The command line, with nothing for an option that is not given.
pub record Given (F : Type 0) : Type 0 where
  pub baseline : String
  pub candidate : String
  pub output_dir : Option String
  pub workload : List String
  pub xml_file : List String
  pub iterations : Option ℤ
  pub file_iterations : Option ℤ
  pub xml_iterations : Option ℤ
  pub pairs : Option ℤ
  pub warmups : Option ℤ
  pub min_sample_seconds : Option F
  pub timeout_seconds : Option ℤ

abbrev pub int_or : ℕ → Option ℤ → Outcome ℕ
int_or default none = ok default
int_or default (some value) = positive_int value

abbrev pub float_or : {F : Type 0} → Float F → Option F → Outcome F
float_or float none = ok (float.of_nat 1)
float_or float (some value) = nonnegative_float float value

abbrev pub timeout_of : Option ℤ → Outcome (Option ℕ)
timeout_of none = ok none
timeout_of (some value) = do seconds ← positive_int value; ok (some seconds)

abbrev pub text_or : String → Option String → String
text_or default none = default
text_or default (some text) = text

-- `resolve` is `expanduser` and `resolve` of a path, `default_dir` the directory of the reports.
unfoldable pub parse_args :
    {F : Type 0}
    → Float F
    → (resolve : String → String) → (default_dir : String) → Given F
    → Outcome (Options F)
unfolding positive_int nonnegative_float
parse_args float resolve default_dir given = do
  iterations ← int_or 10000 given.iterations
  file_iterations ← int_or 1000 given.file_iterations
  xml_iterations ← int_or 32 given.xml_iterations
  pairs ← int_or 6 given.pairs
  warmups ← int_or 2 given.warmups
  min_sample_seconds ← float_or float given.min_sample_seconds
  timeout_seconds ← timeout_of given.timeout_seconds
  ok (record {
    baseline = resolve given.baseline;
    candidate = resolve given.candidate;
    output_dir = resolve (text_or default_dir given.output_dir);
    workload = given.workload;
    xml_file = map resolve given.xml_file;
    iterations = iterations;
    file_iterations = file_iterations;
    xml_iterations = xml_iterations;
    pairs = pairs;
    warmups = warmups;
    min_sample_seconds = min_sample_seconds;
    timeout_seconds = timeout_seconds;
  })

abbrev pub report_names : List String
report_names = "comparison.json" ∷ "comparison.tsv" ∷ []

-- What the file system answers; `same_file` has no answer where `samefile` raises `OSError`.
pub record Site : Type 0 where
  pub resolve : String → String
  pub same_file : String → String → Option Bool
  pub name : String → String
  pub size : String → Outcome ℕ
  pub hash : String → Outcome String
  -- `write_bytes`, after the directory is made
  pub write : (path content : String) → Outcome (Unit {0})

abbrev pub or_false : Option Bool → Bool
or_false none = false
or_false (some b) = b

module _ (site : Site) where
  -- The destinations that an input may not be.
  abbrev pub reserved : {F : Type 0} → Options F → List String
  reserved options =
      let output = site.resolve options.output_dir in
      map (λ name. site.resolve (output <> ("/" <> name))) report_names
      ++ map (λ name. site.resolve (output <> ("/fixtures/" <> name)))
          ("text.xml" ∷ "attributes.xml" ∷ [])

  abbrev pub inputs : {F : Type 0} → Options F → List (String × String)
  inputs options =
      ("baseline", options.baseline)
      ∷ ("candidate", options.candidate)
      ∷ map (λ path. ("XML input", path)) options.xml_file

  abbrev pub collision : String → String → Bool
  collision source destination =
      source == destination || or_false (site.same_file source destination)

  check_destinations : (role source : String) → List String → Outcome (Unit {0})
  check_destinations role source [] = ok tt
  check_destinations role source (destination ∷ rest) = do
    refuse (collision source destination) (
        lane_error (
          "The " <> role <> " " <> source <> " aliases a reserved generated output " <> destination
          <> ". Choose a separate input or output directory."))
    check_destinations role source rest

  check_inputs : List String → List (String × String) → Outcome (Unit {0})
  unfolding check_destinations
  check_inputs destinations [] = ok tt
  check_inputs destinations ((role, path) ∷ rest) = do
    check_destinations role (site.resolve path) destinations
    check_inputs destinations rest

  unfoldable pub preflight_inputs : {F : Type 0} → Options F → Outcome (Unit {0})
  unfolding check_inputs
  preflight_inputs options = check_inputs (reserved options) (inputs options)
