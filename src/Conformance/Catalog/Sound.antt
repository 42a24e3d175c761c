-- ===== src/Conformance/Catalog/Sound.antt =====
-- What `load_catalog` promises of every case.
use mathlib.Core.List.{append-nil, append_assoc}
use xpact.Prelude.{
  String, ◌≡◌, ◌∙◌, ap, some, refl, sym, subst, Bool, false, List, [], ◌∷◌, ◌++◌, ◌==◌, any,
  any-append, All, contains, eq_iff, arith,
}
use xpact.Prelude.Outcome.{Outcome, ok, >>=-eq-ok, ok_inj}
use xpact.Conformance.Case.{Case}
use xpact.Conformance.Profile.{Attributes, get}
use xpact.Conformance.Runner.{Disk}
use xpact.Conformance.Catalog.{Element, Site, add_test, load_catalog, root_catalog_sha256}
use xpact.Conformance.Catalog.Walk.{tests, add_all}
use xpact.Conformance.Catalog.Added.{ids, IsMade, IsAdded, add_test-IsAdded}
use xpact.Conformance.Catalog.Order.{load_catalog-IsLoaded}

-- No two cases have an id in common.
abbrev pub DistinctIds : List Case → Type 0
DistinctIds [] = Unit
DistinctIds (case ∷ cases) = (any (λ other. case.id == other.id) cases ≡ false) × DistinctIds cases

DistinctIds-snoc :
    (cases : List Case) (case : Case)
    → DistinctIds cases
    → contains (ids cases) case.id ≡ false
    → DistinctIds (cases ++ (case ∷ []))
DistinctIds-snoc [] case d h = (refl, tt)
DistinctIds-snoc (first ∷ cases) case d h = (
  rw any-append (ground (arith, d.0, h, eq_iff first.id case.id, eq_iff case.id first.id)),
  DistinctIds-snoc cases case d.1 (ground (arith, h)),
)

module _ (disk : Disk) (site : Site) where
  -- What holds of the cases so far and of each case that is added holds in the end.
  add_all-keeps :
      (root : String) (P : List Case → Type 0)
      → ((base : String) (test : Element) (attributes : Attributes) (cases more : List Case)
          → IsAdded disk site root base test attributes cases more
          → P cases
          → P more)
      → (elements : List (String × Element × Attributes)) (cases more : List Case)
      → add_all disk site root elements cases ≡ ok more
      → P cases
      → P more
  unfolding add_all
  add_all-keeps root P step [] cases more h p = subst P (ok_inj cases more h) p
  add_all-keeps root P step ((base, test, attributes) ∷ rest) cases more h p =
      let (between, given, later) =
        >>=-eq-ok (add_test disk site root base test attributes cases) (add_all disk site root rest)
          h in
      add_all-keeps root P step rest between more later (
        step base test attributes cases between
          (add_test-IsAdded disk site root base test attributes cases between given) p)

  -- A case follows from an element's attributes.
  abbrev pub IsFound : String → Case → Type 0
  IsFound root case = (base : String) × (attributes : Attributes) × IsMade disk site root base attributes case.id case

  DistinctIds-added :
      (root base : String) (test : Element) (attributes : Attributes) (cases more : List Case)
      → IsAdded disk site root base test attributes cases more
      → DistinctIds cases
      → DistinctIds more
  DistinctIds-added root base test attributes cases more added d =
      subst DistinctIds (sym added.appended) (DistinctIds-snoc cases added.case d added.new)

  -- Each case follows from the element at its place.
  abbrev pub AreMade : String → List (String × Element × Attributes) → List Case → Type 0
  AreMade root [] [] = Unit
  AreMade root [] (case ∷ cases) = ⊥
  AreMade root (element ∷ elements) [] = ⊥
  AreMade root ((base, test, attributes) ∷ elements) (case ∷ cases) =
      (get "ID" attributes ≡ some case.id)
      × IsMade disk site root base attributes case.id case
      × AreMade root elements cases

  add_all-AreMade :
      (root : String) (elements : List (String × Element × Attributes)) (cases more : List Case)
      → add_all disk site root elements cases ≡ ok more
      → (new : List Case) × (more ≡ cases ++ new) × AreMade root elements new
  unfolding add_all
  add_all-AreMade root [] cases more h =
      ([], sym (ok_inj cases more h) ∙ sym (append-nil cases), tt)
  add_all-AreMade root ((base, test, attributes) ∷ rest) cases more h =
      let (between, given, later) =
        >>=-eq-ok (add_test disk site root base test attributes cases) (add_all disk site root rest)
          h in
      let added = add_test-IsAdded disk site root base test attributes cases between given in
      let (new, whole, made) = add_all-AreMade root rest between more later in
      (
        added.case ∷ new,
        whole
            ∙ ap (λ found. found ++ new) added.appended
            ∙ append_assoc cases (added.case ∷ []) new,
        (added.identified, added.made, made),
      )

  -- The cases of a catalog that loads are made one by one from the TEST elements of its tree, in
  -- document order: each has the element's ID and the path that its URI names from the element's
  -- base, which is inside the suite directory, and has the kind, the namespace mode, the
  -- recommendation, the use of entities, the verdict, the skip reason and the lane that this
  -- element's attributes call for; only the case "rmt-e2e-38", not skipped, may expect ACCEPT with the reason for it instead of the
  -- catalog's verdict. No two cases have an id in common.
  pub load_catalog-IsSound :
      (parse : Bool → String → Outcome Element) (suite_dir : String) (cases : List Case)
      → load_catalog disk site parse suite_dir ≡ ok cases
      → let root = disk.resolve suite_dir in
        let catalog = site.join root "xmlconf.xml" in
        let pinned = site.digest catalog == root_catalog_sha256 in
        DistinctIds cases
        × (tree : Element) × (parse pinned catalog ≡ ok tree)
        × AreMade root (tests site pinned tree (site.as_uri catalog)) cases
  load_catalog-IsSound parse suite_dir cases h =
      let root = disk.resolve suite_dir in
      let loaded = load_catalog-IsLoaded disk site parse suite_dir cases h in
      let (new, whole, made) = add_all-AreMade root _ [] cases loaded.walked in
      (
        add_all-keeps root DistinctIds (DistinctIds-added root) _ [] cases loaded.walked tt,
        loaded.tree,
        loaded.parsed,
        subst (AreMade root _) (sym whole) made,
      )

  -- Without the elements.
  pub All-IsFound :
      (root : String) (elements : List (String × Element × Attributes)) (cases : List Case)
      → AreMade root elements cases
      → All (IsFound root) cases
  All-IsFound root [] [] h = tt
  All-IsFound root [] (case ∷ cases) h = absurd h
  All-IsFound root (element ∷ elements) [] h = tt
  All-IsFound root ((base, test, attributes) ∷ elements) (case ∷ cases) h =
      ((base, attributes, h.1), All-IsFound root elements cases h.2)
