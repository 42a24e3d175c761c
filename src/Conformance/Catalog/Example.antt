-- ===== src/Conformance/Catalog/Example.antt =====
-- A catalog with two tests, one of them outside the profile.
use xpact.Prelude.{
  if◌then◌else◌, String, ◌≡◌, refl, Bool, true, false, List, [], ◌∷◌, ◌==◌, ◌<>◌, split, strip,
  starts_with,
}
use xpact.Prelude.Outcome.{Outcome, ok}
use xpact.Conformance.Case.{Case}
use xpact.Conformance.Profile.{get, expectation, out_of_profile_lane}
use xpact.Conformance.Runner.{Disk}
use xpact.Conformance.Catalog.{Element, element, no_more, child, Site, local_uri, load_catalog}

abbrev pub disk : Disk
disk = record {
  is_file = λ path. true;
  is_dir = λ path. true;
  resolve = λ path. path;
  is_relative_to = λ path root. starts_with path root;
}

abbrev pub site : Site
site = record {
  urljoin = λ base reference. if reference == "" then base else "file:///suite/" <> reference;
  urlsplit = λ url. record {
    scheme = "file";
    netloc = "";
    path = "/suite/a.xml";
    query = "";
    fragment = "";
  };
  url2pathname = λ path. path;
  as_uri = λ path. "file://" <> path;
  join = λ root name. root <> "/" <> name;
  relative_to = λ path root. path;
  digest = λ path. "";
}

abbrev pub test : String → String → Element
test id recommendation =
    element "TEST"
      (("ID", id) ∷ ("TYPE", "not-wf") ∷ ("URI", "a.xml") ∷ ("RECOMMENDATION", recommendation) ∷ [])
      "Two " "\n" (child (element "EM" [] "roots" "." no_more) no_more)

abbrev pub tree : Element
tree = element "TESTSUITE" [] "" "" (
    child (test "a" "XML1.0")
      (child (element "TESTCASES" [] "" "" (child (test "b" "XML1.1") no_more)) no_more))

abbrev pub parse : Bool → String → Outcome Element
parse pinned path = ok tree

abbrev pub case : String → String → String → String → String → Case
case id recommendation skip_reason lane lane_expected = record {
  id = id;
  path = "/suite/a.xml";
  kind = "not-wf";
  namespaces = true;
  expected = "REJECT";
  skip_reason = skip_reason;
  description = "Two  roots .";
  recommendation = recommendation;
  lane = lane;
  lane_expected = lane_expected;
  entities = false;
  catalog_expected = "REJECT";
  expectation_adjustment = "";
}

abbrev pub cases : List Case
cases =
    case "a" "XML1.0" "" "core" "REJECT"
    ∷ case "b" "XML1.1" "XML 1.1 / Namespaces 1.1 is outside this profile" "xml-1.1" "ANY"
    ∷ []

pub loaded : load_catalog disk site parse "/suite" ≡ ok cases
unfolding load_catalog expectation out_of_profile_lane split strip get local_uri
loaded = refl
