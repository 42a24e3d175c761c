-- ===== src/Conformance/Catalog/Order.antt =====
-- `load_catalog` has one case for each TEST element, in document order.
use xpact.Prelude.{String, ◌≡◌, sym, ap, ◌∙◌, Bool, false, Option, List, [], map, ◌==◌}
use xpact.Prelude.Outcome.{refused, Outcome, ok, >>=-eq-ok, ok_inj}
use xpact.Conformance.Case.{Case}
use xpact.Conformance.Profile.{Attributes, get}
use xpact.Conformance.Runner.{Disk}
use xpact.Conformance.Catalog.{Element, Site, root_catalog_sha256, visit, is_empty, load_catalog}
use xpact.Conformance.Catalog.Walk.{tests, add_all, visit-add_all}

-- The value of ID of each element.
abbrev pub id_attributes : List (String × Element × Attributes) → List (Option String)
id_attributes elements =
    map (λ ((base, test, attributes) : String × Element × Attributes). get "ID" attributes) elements

module _ (disk : Disk) (site : Site) where
  -- The tree that is walked and what the walk gives.
  pub record IsLoaded (parse : Bool → String → Outcome Element) (suite_dir : String)
      (cases : List Case) : Type 0 where
    pub tree : Element
    pub parsed :
        let catalog = site.join (disk.resolve suite_dir) "xmlconf.xml" in
        parse (site.digest catalog == root_catalog_sha256) catalog ≡ ok tree
    pub walked :
        let catalog = site.join (disk.resolve suite_dir) "xmlconf.xml" in
        add_all disk site
          (disk.resolve suite_dir)
          (tests site (site.digest catalog == root_catalog_sha256) tree (site.as_uri catalog))
          []
        ≡ ok cases
    pub nonempty : is_empty cases ≡ false

  pub load_catalog-IsLoaded :
      (parse : Bool → String → Outcome Element) (suite_dir : String) (cases : List Case)
      → load_catalog disk site parse suite_dir ≡ ok cases
      → IsLoaded parse suite_dir cases
  unfolding load_catalog
  load_catalog-IsLoaded parse suite_dir cases h =
      let root = disk.resolve suite_dir in
      let catalog = site.join root "xmlconf.xml" in
      let pinned = site.digest catalog == root_catalog_sha256 in
      let (tree, parsed, h1) = >>=-eq-ok (parse pinned catalog) _ h in
      let (found, visited, h2) =
        >>=-eq-ok (visit disk site pinned root tree (site.as_uri catalog) []) _ h1 in
      let (nonempty, h3) = refused (is_empty found) _ _ cases h2 in
      let same = ok_inj found cases h3 in
      record {
        tree = tree;
        parsed = parsed;
        walked =
            visit-add_all disk site root pinned tree (site.as_uri catalog) [] found visited
            ∙ ap ok same;
        nonempty = ap is_empty (sym same) ∙ nonempty;
      }
