-- ===== src/Conformance/Catalog/Tests.antt =====
-- `load_catalog` on the small catalog.
use xpact.Prelude.{◌≡◌, refl, [], ◌==◌, split, strip}
use xpact.Prelude.Outcome.{ok, err, value_error}
use xpact.Conformance.Profile.{get, expectation, out_of_profile_lane}
use xpact.Conformance.Catalog.{
  Element, element, no_more, child, root_catalog_sha256, local_uri, load_catalog,
}
use xpact.Conformance.Catalog.Walk.{tests}
use xpact.Conformance.Catalog.Sound.{DistinctIds, AreMade, load_catalog-IsSound}
use xpact.Conformance.Catalog.Example.{disk, site, test, parse, cases, loaded}

twice :
    load_catalog disk site
      (λ pinned path. ok (
        element "TESTSUITE" [] "" ""
          (child (test "a" "XML1.0") (child (test "a" "XML1.0") no_more))))
      "/suite"
    ≡ err (value_error "Duplicate test ID: a")
unfolding load_catalog expectation out_of_profile_lane split strip get local_uri
twice = refl

load_catalog-IsSound_example :
    DistinctIds cases
    × (found : Element) × (parse
          (site.digest "/suite/xmlconf.xml" == root_catalog_sha256)
          "/suite/xmlconf.xml"
        ≡ ok found)
    × AreMade disk site "/suite"
        (tests site
          (site.digest "/suite/xmlconf.xml" == root_catalog_sha256)
          found
          (site.as_uri "/suite/xmlconf.xml"))
        cases
load_catalog-IsSound_example = load_catalog-IsSound disk site parse "/suite" cases loaded
