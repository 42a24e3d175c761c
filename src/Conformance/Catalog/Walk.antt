-- ===== src/Conformance/Catalog/Walk.antt =====
-- What the walk over the catalog keeps.
use xpact.Prelude.{
  String, ◌≡◌, Bool, List, [], ◌∷◌, ◌++◌, ◌==◌, inl, inr, Bool-cases, if◌then◌else◌,
}
use xpact.Prelude.Outcome.{Outcome, ok, ◌>>=◌, >>=-eq-ok, ok_inj}
use xpact.Conformance.Case.{Case}
use xpact.Conformance.Profile.{Attributes}
use xpact.Conformance.Runner.{Disk}
use xpact.Conformance.Catalog.{
  Element, element, Elements, no_more, child, Site, reference_of, local_uri, add_test, visit,
  visit_all,
}

-- The TEST elements in document order, each with the base that it inherits.
unfoldable mutual
  pub tests : Site → Bool → Element → String → List (String × Element × Attributes)
  tests site pinned (element tag attributes text tail children) base =
      let current = site.urljoin base (reference_of pinned attributes) in
      let below = tests_of site pinned children current in
      if tag == "TEST"
      then (current, element tag attributes text tail children, attributes) ∷ below
      else below

  pub tests_of : Site → Bool → Elements → String → List (String × Element × Attributes)
  tests_of site pinned no_more base = []
  tests_of site pinned (child first next) base =
      tests site pinned first base ++ tests_of site pinned next base

module _ (disk : Disk) (site : Site) (root : String) where
  unfoldable pub add_all : List (String × Element × Attributes) → List Case → Outcome (List Case)
  add_all [] cases = ok cases
  add_all ((base, test, attributes) ∷ rest) cases =
      add_test disk site root base test attributes cases >>= add_all rest

  add_all-append :
      (first next : List (String × Element × Attributes)) (cases between more : List Case)
      → add_all first cases ≡ ok between
      → add_all next between ≡ ok more
      → add_all (first ++ next) cases ≡ ok more
  unfolding add_all
  add_all-append [] next cases between more h k = rw (ok_inj cases between h) k
  add_all-append ((base, test, attributes) ∷ first) next cases between more h k =
      let (added, given, rest) =
        >>=-eq-ok (add_test disk site root base test attributes cases) (add_all first) h in
      rw given (add_all-append first next added between more rest k)

  mutual
    unfolding visit tests add_all

    pub visit-add_all :
        (pinned : Bool) (tree : Element) (base : String) (cases more : List Case)
        → visit disk site pinned root tree base cases ≡ ok more
        → add_all (tests site pinned tree base) cases ≡ ok more
    visit-add_all pinned (element tag attributes text tail children) base cases more h =
        let current = site.urljoin base (reference_of pinned attributes) in
        let test = element tag attributes text tail children in
        let (directory, inside, h1) = >>=-eq-ok (local_uri disk site root current "") _ h in
        elim (Bool-cases (tag == "TEST")) [
          | inl is_test ↦
              let (added, given, h2) =
                >>=-eq-ok (add_test disk site root current test attributes cases)
                  (visit_all disk site pinned root children current) (rw is_test at h1) in
              rw (is_test, given) (visit_all-add_all pinned children current added more h2)
          | inr other ↦
              rw other (visit_all-add_all pinned children current cases more (rw other at h1))
        ]

    visit_all-add_all :
        (pinned : Bool) (trees : Elements) (base : String) (cases more : List Case)
        → visit_all disk site pinned root trees base cases ≡ ok more
        → add_all (tests_of site pinned trees base) cases ≡ ok more
    visit_all-add_all pinned no_more base cases more h = h
    visit_all-add_all pinned (child first next) base cases more h =
        let (between, visited, rest) =
          >>=-eq-ok (visit disk site pinned root first base cases)
            (visit_all disk site pinned root next base) h in
        add_all-append (tests site pinned first base) (tests_of site pinned next base) cases between
          more (visit-add_all pinned first base cases between visited)
          (visit_all-add_all pinned next base between more rest)
