-- ===== src/Conformance/Catalog/Added.antt =====
-- What an accepted TEST element of the catalog gives.
use xpact.Prelude.{
  String, ◌≡◌, ◌⊎◌, eq_iff, refl, sym, ap, ◌∙◌, subst, Bool, true, false, not, ◌||◌, Option, none,
  some, List, [], ◌∷◌, ◌++◌, map, ◌==◌, contains, inl, inr, if◌then◌else◌, arith,
}
use xpact.Prelude.Outcome.{refused, ok, >>=-eq-ok, ok_inj}
use xpact.Conformance.Case.{Case}
use xpact.Conformance.Profile.{Attributes, get, item, found, recommendation_of, expectation}
use xpact.Conformance.Runner.{Disk}
use xpact.Conformance.Catalog.{
  Element, Site, namespace_of, entities_of, is_forward_version, lane_for, local_uri, case_of, add_test,
  forward_version_reason, contained_path,
}

abbrev pub ids : List Case → List String
ids cases = map (λ case. case.id) cases

found-eq-ok :
    (name : String) (o : Option String) (value : String) → found name o ≡ ok value → o ≡ some value
found-eq-ok name none value h = cc
found-eq-ok name (some other) value h = ap some (ok_inj other value h)

pub item-eq-ok :
    (name : String) (attributes : Attributes) (value : String)
    → item name attributes ≡ ok value
    → get name attributes ≡ some value
item-eq-ok name attributes value h = found-eq-ok name (get name attributes) value h

module _ (disk : Disk) (site : Site) (root : String) where
  local_uri-contained :
      (base reference path : String)
      → local_uri disk site root base reference ≡ ok path
      → disk.is_relative_to path (disk.resolve root) ≡ true
  unfolding local_uri contained_path
  local_uri-contained base reference path h =
      let uri = site.urlsplit (site.urljoin base reference) in
      let (local, h1) =
        refused
          (not (uri.scheme == "file")
            || not (uri.netloc == "")
            || not (uri.query == "")
            || not (uri.fragment == ""))
          _ _ path h in
      let candidate = site.url2pathname uri.path in
      let (inside, h2) =
        refused (not (disk.is_relative_to (disk.resolve candidate) (disk.resolve root))) _ _ path
          h1 in
      rw (← ok_inj (disk.resolve candidate) path h2) (ground (arith, inside))

  -- The verdict stands as in the catalog, except for the one case of the fifth edition.
  abbrev pub IsExpected : Case → Type 0
  IsExpected case =
      ((case.expected ≡ case.catalog_expected) × (case.expectation_adjustment ≡ ""))
      ⊎ ((case.id ≡ "rmt-e2e-38")
          × (case.skip_reason ≡ "")
          × (case.expected ≡ "ACCEPT")
          × (case.expectation_adjustment ≡ forward_version_reason))

  forward-facts :
      (attributes : Attributes) (identifier skip_reason kind path : String)
      → is_forward_version disk site root attributes identifier skip_reason kind path ≡ true
      → (identifier ≡ "rmt-e2e-38") × (skip_reason ≡ "")
  unfolding is_forward_version
  forward-facts attributes identifier skip_reason kind path h =
      (ground (arith, h, eq_iff identifier "rmt-e2e-38"), ground (arith, h, eq_iff skip_reason ""))

  decided :
      (forward : Bool) (identifier skip_reason expected : String)
      → (forward ≡ true → (identifier ≡ "rmt-e2e-38") × (skip_reason ≡ ""))
      → (((if forward then "ACCEPT" else expected) ≡ expected)
          × ((if forward then forward_version_reason else "") ≡ ""))
        ⊎ ((identifier ≡ "rmt-e2e-38")
            × (skip_reason ≡ "")
            × ((if forward then "ACCEPT" else expected) ≡ "ACCEPT")
            × ((if forward then forward_version_reason else "") ≡ forward_version_reason))
  decided true identifier skip_reason expected h =
      let (this, plain) = h refl in inr (this, plain, refl, refl)
  decided false identifier skip_reason expected h = inl (refl, refl)

  -- How a case follows from its element's attributes.
  pub record IsMade (base : String) (attributes : Attributes) (identifier : String) (case : Case)
      : Type 0 where
    pub named : case.id ≡ identifier
    pub located :
        (uri : String) × (get "URI" attributes ≡ some uri)
        × (local_uri disk site root base uri ≡ ok case.path)
    pub spaces : case.namespaces ≡ (namespace_of attributes == "yes")
    pub recommended : case.recommendation ≡ recommendation_of attributes
    pub external : case.entities ≡ not (entities_of attributes == "none")
    pub typed : get "TYPE" attributes ≡ some case.kind
    pub contained : disk.is_relative_to case.path (disk.resolve root) ≡ true
    pub catalogued : expectation attributes ≡ ok (case.catalog_expected, case.skip_reason)
    pub in_lane :
        lane_for attributes case.catalog_expected case.skip_reason
        ≡ ok (case.lane, case.lane_expected)
    pub expected : IsExpected case

  pub case_of-IsMade :
      (base : String) (test : Element) (attributes : Attributes) (identifier : String) (case : Case)
      → case_of disk site root base test attributes identifier ≡ ok case
      → IsMade base attributes identifier case
  unfolding case_of
  case_of-IsMade base test attributes identifier case h =
      let ((expected, skip_reason), catalogued, h1) = >>=-eq-ok (expectation attributes) _ h in
      let ((lane, lane_expected), laned, h2) =
        >>=-eq-ok (lane_for attributes expected skip_reason) _ h1 in
      let (spaces, h3) =
        refused (not (contains ("yes" ∷ "no" ∷ []) (namespace_of attributes))) _ _ case h2 in
      let (uri, given, h4) = >>=-eq-ok (item "URI" attributes) _ h3 in
      let (path, local, h5) = >>=-eq-ok (local_uri disk site root base uri) _ h4 in
      let (kind, typed, h6) = >>=-eq-ok (item "TYPE" attributes) _ h5 in
      subst (IsMade base attributes identifier) (ok_inj _ case h6) (record {
        named = refl;
        located = (uri, item-eq-ok "URI" attributes uri given, local);
        spaces = refl;
        recommended = refl;
        external = refl;
        typed = item-eq-ok "TYPE" attributes kind typed;
        contained = local_uri-contained base uri path local;
        catalogued = catalogued;
        in_lane = laned;
        expected =
            decided (is_forward_version disk site root attributes identifier skip_reason kind path)
              identifier skip_reason expected
              (forward-facts attributes identifier skip_reason kind path);
      })

  -- What an accepted TEST element gives.
  pub record IsAdded (base : String) (test : Element) (attributes : Attributes)
      (cases more : List Case) : Type 0 where
    pub case : Case
    pub made : IsMade base attributes case.id case
    pub identified : get "ID" attributes ≡ some case.id
    pub new : contains (ids cases) case.id ≡ false
    pub appended : more ≡ cases ++ (case ∷ [])

  pub add_test-IsAdded :
      (base : String) (test : Element) (attributes : Attributes) (cases more : List Case)
      → add_test disk site root base test attributes cases ≡ ok more
      → IsAdded base test attributes cases more
  unfolding add_test
  add_test-IsAdded base test attributes cases more h =
      let (identifier, there, h1) = >>=-eq-ok (item "ID" attributes) _ h in
      let (new, h2) = refused (contains (ids cases) identifier) _ _ more h1 in
      let (case, made, h3) =
        >>=-eq-ok (case_of disk site root base test attributes identifier) _ h2 in
      let same = (case_of-IsMade base test attributes identifier case made).named in
      record {
        case = case;
        made =
            subst (λ name. IsMade base attributes name case) (sym same)
              (case_of-IsMade base test attributes identifier case made);
        identified = item-eq-ok "ID" attributes identifier there ∙ ap some (sym same);
        new = ap (contains (ids cases)) same ∙ new;
        appended = sym (ok_inj (cases ++ (case ∷ [])) more h3);
      }
