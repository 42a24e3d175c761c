-- ===== src/Benchmark/Workloads.antt =====
-- `prepare_workloads` of scripts/compare_eiffel_benchmarks.py: the documents that are parsed.
pub mod Range
use Prim.Native.Nat.{◌/◌, ◌%◌}
use Prim.Native.Char.{Char, code}
use Prim.Native.String
use xpact.Prelude.{
  ℕ, zero, suc, ◌+◌, String, Bool, true, false, Option, none, some, List, [], ◌∷◌, ◌++◌, map, ◌==◌,
  ◌<>◌, chars, show, ltb, sum, if◌then◌else◌,
}
use xpact.Prelude.Outcome.{Outcome, ok, err, Error, value_error, lane_error, ◌>>=◌, ◌>>◌, refuse}
use xpact.Conformance.Reports.{unique}
use xpact.Benchmark.Options.{Options, Site}
use xpact.Benchmark.Sample.{Workload}

-- `len(text.encode("utf-8"))`
abbrev pub utf8_width : ℕ → ℕ
utf8_width n = if ltb n 128 then 1 else if ltb n 2048 then 2 else if ltb n 65536 then 3 else 4

unfoldable pub utf8_length : String → ℕ
utf8_length text = sum (λ c. utf8_width (code c)) (chars text)

-- `text * n`
unfoldable pub repeat : ℕ → String → String
repeat zero text = ""
repeat (suc n) text = text <> repeat n text

-- `"".join(f(i) for i in range(first, first + n))`
abbrev pub join_range : (ℕ → String) → (first n : ℕ) → String
join_range f first zero = ""
join_range f first (suc n) = f first <> join_range f (suc first) n

unfoldable pub text_document : String
unfolding repeat
text_document = "<root>" <> repeat 10000 "plain text " <> "</root>"

-- `'a{:02d}="value"'.format(i)` for a number of at most two digits, with a space before all but
-- the first.
abbrev pub attribute : ℕ → String
attribute i = (if ltb i 1 then "a" else " a") <> show (i / 10) <> show (i % 10) <> "=\"value\""

unfoldable pub attributes_document : String
unfolding repeat
attributes_document =
    "<root>" <> repeat 20 ("<item " <> join_range attribute 0 50 <> "/>") <> "</root>"

unfoldable pub catalog_document : String
catalog_document =
    "<catalog>"
    <> join_range (λ i. "<item id=\"" <> show i <> "\">value</item>") 1 100
    <> "</catalog>"

-- The names of `--workload`, or the default ones.
abbrev pub selected : List String → List String → List String
selected [] [] = "catalog" ∷ "text" ∷ "attributes" ∷ []
selected [] (path ∷ paths) = "catalog" ∷ "text" ∷ "attributes" ∷ "files" ∷ []
selected (name ∷ names) paths = name ∷ names

module _ {F : Type 0} (site : Site) (options : Options F) where
  -- The files with their numbers from `index` on.
  abbrev file_workloads : (index : ℕ) → List String → Outcome (List Workload)
  file_workloads index [] = ok []
  file_workloads index (path ∷ paths) = do
    size ← site.size path
    more ← file_workloads (suc index) paths
    ok (
        record {
          name = "file-" <> show index <> ":" <> site.name path;
          path = some path;
          document_bytes = size;
          iterations = options.xml_iterations;
        }
        ∷ more)

  -- A document that is written under `fixtures` and parsed from there.
  abbrev pub fixture : (name content : String) → Outcome (List Workload)
  fixture name content = do
    site.write (options.output_dir <> "/fixtures/" <> name <> ".xml") content
    ok (
        record {
          name = name;
          path = some (options.output_dir <> "/fixtures/" <> name <> ".xml");
          document_bytes = utf8_length content;
          iterations = options.file_iterations;
        }
        ∷ [])

  abbrev pub files : List String → Outcome (List Workload)
  files [] = err (lane_error "The files workload requires at least one --xml-file.")
  files (path ∷ paths) = file_workloads 1 (unique (path ∷ paths))

  workloads_of : String → Outcome (List Workload)
  unfolding text_document attributes_document catalog_document utf8_length
  workloads_of name =
      if name == "catalog"
      then ok (
          record {
            name = name;
            path = none;
            document_bytes = utf8_length catalog_document;
            iterations = options.iterations;
          }
          ∷ [])
      else if name == "text"
      then fixture name text_document
      else if name == "attributes"
      then fixture name attributes_document
      else files options.xml_file

  all_workloads : List String → Outcome (List Workload)
  unfolding workloads_of
  all_workloads [] = ok []
  all_workloads (name ∷ names) = do
    first ← workloads_of name
    more ← all_workloads names
    ok (first ++ more)

  unfoldable pub prepare_workloads : Outcome (List Workload)
  unfolding all_workloads unique
  prepare_workloads = all_workloads (unique (selected options.workload options.xml_file))
