-- ===== src/Conformance/Catalog.antt =====
-- `load_catalog` of scripts/run_w3c_conformance.py with `local_uri` and `contained_path`: the walk
-- over the parsed catalog. The XML parser with its entity handler, `urllib` and the hashes of
-- files are parameters.
mod Walk
pub mod Added
pub mod Order
pub mod Sound
pub mod Example
mod Tests
use xpact.Prelude.{
  String, Bool, true, false, not, ◌||◌, ◌&&◌, Option, none, some, List, [], ◌∷◌, ◌++◌, map, ◌==◌,
  ◌<>◌, contains, keep, strip, if◌then◌else◌,
}
use xpact.Prelude.Outcome.{Outcome, ok, err, value_error, ◌>>=◌, ◌>>◌, refuse}
use xpact.Conformance.Case.{Case}
use xpact.Conformance.Profile.{
  Attributes, get, or_default, item, recommendation_of, expectation, out_of_profile_lane,
}
use xpact.Conformance.Runner.{Disk}

-- `xml.etree`: an element with the text before its first child and the text behind its end.
mutual
  pub data Element : Type 0 where
    element : (tag : String) (attributes : Attributes) (text tail : String) → Elements → Element

  pub data Elements : Type 0 where
    no_more : Elements
    child : Element → Elements → Elements

-- What `urlsplit` returns.
pub record Url : Type 0 where
  pub scheme : String
  pub netloc : String
  pub path : String
  pub query : String
  pub fragment : String

-- `urllib.parse`, `pathlib` beyond `Disk`, and the SHA-256 of a file's bytes.
pub record Site : Type 0 where
  pub urljoin : String → String → String
  pub urlsplit : String → Url
  pub url2pathname : String → String
  pub as_uri : String → String
  pub join : String → String → String
  pub relative_to : String → String → String
  pub digest : String → String

abbrev pub root_catalog_sha256 : String
root_catalog_sha256 = "a10d3fc409fc0de5ea1758d2e4fe6efcbc51df6d1942c80f299dbbe085b2fd52"

abbrev pub forward_version_case_id : String
forward_version_case_id = "rmt-e2e-38"

abbrev pub forward_version_document : String
forward_version_document = "eduni/errata-2e/E38.xml"

abbrev pub forward_version_document_sha256 : String
forward_version_document_sha256 = "b6be7039a5dfeaad8eaad16eb3976c754888985bdd598b518a81a0f9547e3cf6"

abbrev pub forward_version_entity : String
forward_version_entity = "eduni/errata-2e/E38.ent"

abbrev pub forward_version_entity_sha256 : String
forward_version_entity_sha256 = "028229ed9dda8481d7996ef03a1e17300255abef2bf082011312f09b28623eef"

abbrev pub forward_version_reason : String
forward_version_reason =
    "XML 1.0 fifth edition permits this 1.1 text declaration without non-1.0 features; fourth-edition erratum E10 reverses second-edition E38: https://www.w3.org/XML/xml-V10-4e-errata#E10"

-- `element.itertext()`, which leaves empty texts out.
abbrev given : String → List String
given text = if text == "" then [] else text ∷ []

unfoldable mutual
  itertext : Element → List String
  itertext (element tag attributes text tail children) = given text ++ inner children

  inner : Elements → List String
  inner no_more = []
  inner (child (element tag attributes text tail below) next) =
      (given text ++ inner below) ++ (given tail ++ inner next)

-- `" ".join(texts)`
unfoldable spaced : List String → String
spaced [] = ""
spaced (text ∷ []) = text
spaced (text ∷ next ∷ texts) = text <> " " <> spaced (next ∷ texts)

abbrev pub namespace_of : Attributes → String
namespace_of attributes = or_default (get "NAMESPACE" attributes) "yes"

abbrev pub entities_of : Attributes → String
entities_of attributes = or_default (get "ENTITIES" attributes) "none"

-- The misplaced directory of the pinned root catalog.
abbrev pub reference_of : Bool → Attributes → String
reference_of pinned attributes =
    let reference = or_default (get "xml:base" attributes) "" in
    if pinned && reference == "eduni/namespaces/misc/" then "eduni/misc/" else reference

abbrev pub lane_for : Attributes → String → String → Outcome (String × String)
lane_for attributes expected skip_reason =
    if skip_reason == "" then ok ("core", expected) else out_of_profile_lane attributes

abbrev is_empty : List Case → Bool
is_empty [] = true
is_empty (case ∷ cases) = false

module _ (disk : Disk) (site : Site) where
  unfoldable pub contained_path : String → String → Outcome String
  contained_path root candidate = do
    refuse (not (disk.is_relative_to (disk.resolve candidate) (disk.resolve root)))
        (value_error ("Path escapes suite directory: " <> candidate))
    ok (disk.resolve candidate)

  unfoldable pub local_uri : String → String → String → Outcome String
  unfolding contained_path
  local_uri root base reference =
      let uri = site.urlsplit (site.urljoin base reference) in
      refuse
        (not (uri.scheme == "file")
          || not (uri.netloc == "")
          || not (uri.query == "")
          || not (uri.fragment == ""))
        (value_error ("Only local suite files are allowed: " <> reference))
      >> contained_path root (site.url2pathname uri.path)

  -- The one case whose verdict the fifth edition changes, recognised with its pinned files.
  unfoldable pub is_forward_version : String → Attributes → String → String → String → String → Bool
  is_forward_version root attributes identifier skip_reason kind path =
      let entity_path = site.join root forward_version_entity in
      skip_reason == ""
      && identifier == forward_version_case_id
      && kind == "not-wf"
      && recommendation_of attributes == "XML1.0-errata2e"
      && entities_of attributes == "general"
      && namespace_of attributes == "yes"
      && site.relative_to path root == forward_version_document
      && disk.is_file path
      && disk.is_relative_to (disk.resolve entity_path) root
      && disk.is_file entity_path
      && site.digest path == forward_version_document_sha256
      && site.digest entity_path == forward_version_entity_sha256

  -- The part of `visit` about a TEST element, after its identifier is known to be new.
  unfoldable pub case_of : String → String → Element → Attributes → String → Outcome Case
  unfolding itertext spaced is_forward_version
  case_of root base test attributes identifier = do
    (expected, skip_reason) ← expectation attributes
    (lane, lane_expected) ← lane_for attributes expected skip_reason
    refuse (not (contains ("yes" ∷ "no" ∷ []) (namespace_of attributes)))
        (value_error ("Unknown NAMESPACE for " <> identifier <> ": " <> namespace_of attributes))
    uri ← item "URI" attributes
    path ← local_uri root base uri
    kind ← item "TYPE" attributes
    let forward = is_forward_version root attributes identifier skip_reason kind path
    ok (record {
      id = identifier;
      path = path;
      kind = kind;
      namespaces = namespace_of attributes == "yes";
      expected = if forward then "ACCEPT" else expected;
      skip_reason = skip_reason;
      description = strip (spaced (itertext test));
      recommendation = recommendation_of attributes;
      lane = lane;
      lane_expected = lane_expected;
      entities = not (entities_of attributes == "none");
      catalog_expected = expected;
      expectation_adjustment = if forward then forward_version_reason else "";
    })

  -- `identifiers` are the ids of `cases`, which is the same set.
  unfoldable pub add_test : String → String → Element → Attributes → List Case → Outcome (List Case)
  unfolding case_of
  add_test root base test attributes cases = do
    identifier ← item "ID" attributes
    refuse (contains (map (λ case. case.id) cases) identifier)
        (value_error ("Duplicate test ID: " <> identifier))
    case ← case_of root base test attributes identifier
    ok (cases ++ (case ∷ []))

  unfoldable mutual
    unfolding add_test

    pub visit : Bool → String → Element → String → List Case → Outcome (List Case)
    visit pinned root (element tag attributes text tail children) base cases =
        let current = site.urljoin base (reference_of pinned attributes) in
        let test = element tag attributes text tail children in
        do
          directory ← local_uri root current ""
          more ← (if tag == "TEST" then add_test root current test attributes cases else ok cases)
          visit_all pinned root children current more

    pub visit_all : Bool → String → Elements → String → List Case → Outcome (List Case)
    visit_all pinned root no_more base cases = ok cases
    visit_all pinned root (child first next) base cases = do
      more ← visit pinned root first base cases
      visit_all pinned root next base more

  -- `parse` builds the tree, the pinned root catalog read as ISO-8859-1.
  unfoldable pub load_catalog : (Bool → String → Outcome Element) → String → Outcome (List Case)
  unfolding visit
  load_catalog parse suite_dir =
      let root = disk.resolve suite_dir in
      let catalog = site.join root "xmlconf.xml" in
      let pinned = site.digest catalog == root_catalog_sha256 in
      do
        tree ← parse pinned catalog
        cases ← visit pinned root tree (site.as_uri catalog) []
        refuse (is_empty cases) (value_error "W3C catalog contains no test cases")
        ok cases
