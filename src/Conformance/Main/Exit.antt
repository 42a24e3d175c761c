-- ===== src/Conformance/Main/Exit.antt =====
-- The exit code of scripts/run_w3c_conformance.py and what the options checked before it promise.
use mathlib.Core.List.{append-nil}
use xpact.Prelude.{
  ℕ, String, ◌≡◌, refl, sym, ap, subst, ◌∙◌, Bool, true, false, not, ◌||◌, ◌&&◌, Option, none, some,
  List, [], ◌∷◌, ◌++◌, map, arith, eq_iff, ◌==◌, any, any-append, all, All, contains, inl, inr,
  Bool-cases, if◌then◌else◌,
}
use xpact.Prelude.Outcome.{refused, Outcome, ok, err, >>=-eq-ok, ok_inj}
use xpact.Conformance.Case.{Case, Result}
use xpact.Conformance.Runner.{Disk, Execution}
use xpact.Conformance.Reports.{unexpected}
use xpact.Conformance.Known.{Entry, load_known_failures, apply_known_failures, content, read_rows}
use xpact.Conformance.Known.Load.{IsListed, load_known_failures-accepts}
use xpact.Conformance.Known.Gate.{uncovered, HasCategory, unexpected-apply_known_failures}
use xpact.Conformance.Known.Marking.{current}
use xpact.Conformance.Catalog.{Element, Site, load_catalog}
use xpact.Conformance.Catalog.Sound.{load_catalog-IsSound}
use xpact.Conformance.Main.{
  Arguments, Engines, Plan, names_of, partition, add_engine, parse_entity_engines, load_known,
  same_names, parse_engines, setup, run_engines, judge_known, run_plan, main,
}
use xpact.Conformance.Main.Matrix.{
  DistinctNames, DistinctNames-snoc, key, pairs, run_engines-DistinctCases, run_engines-pairs,
}

HasCategory-listed : (rows : List Entry) → All IsListed rows → All HasCategory rows
HasCategory-listed [] h = tt
HasCategory-listed (row ∷ rows) h =
    ((λ same. ground (arith, h.0.0, eq_iff row.category "")), HasCategory-listed rows h.1)

module _ (disk : Disk) where
  add_engine-DistinctNames :
      (value : String) (engines more : Engines) (o : Option (String × String))
      → DistinctNames engines
      → add_engine disk value engines o ≡ ok more
      → DistinctNames more
  unfolding add_engine
  add_engine-DistinctNames value engines more none d h = cc
  add_engine-DistinctNames value engines more (some (name, executable)) d h =
      elim (Bool-cases (name == "" || (executable == "" || contains (names_of engines) name))) [
        | inl refused ↦ ground (arith, refused, h)
        | inr fresh ↦ elim (Bool-cases (disk.is_file (disk.resolve executable))) [
          | inr absent ↦ ground (arith, fresh, absent, h)
          | inl there ↦
              subst DistinctNames
                (ok_inj (engines ++ ((name, disk.resolve executable) ∷ [])) more
                  (rw (fresh, there) at h))
                (DistinctNames-snoc engines name (disk.resolve executable) d
                  (ground (arith, fresh)))
        ]
      ]

  parse_engines-DistinctNames :
      (engines more : Engines) (values : List String)
      → DistinctNames engines
      → parse_engines disk engines values ≡ ok more
      → DistinctNames more
  unfolding parse_engines
  parse_engines-DistinctNames engines more [] d h = subst DistinctNames (ok_inj _ _ h) d
  parse_engines-DistinctNames engines more (value ∷ values) d h =
      let (next, added, rest) = >>=-eq-ok _ _ h in
      parse_engines-DistinctNames next more values
        (add_engine-DistinctNames value engines next (partition value) d added) rest

HasCategory-loaded :
    (path : String) (lines : List String) (known : List Entry)
    → load_known_failures path lines ≡ ok known
    → All HasCategory known
HasCategory-loaded path lines known h =
    let (same, listed, fresh) = (load_known_failures-accepts path lines known).0 h in
    subst (All HasCategory) (sym same) (HasCategory-listed (read_rows (content lines)) listed)

module _ (disk : Disk) (site : Site) (parse : Bool → String → Outcome Element)
    (prepared : Outcome String) (arguments : Arguments) where
  abbrev IsReady : Plan → Type 0
  IsReady plan =
      (load_known arguments.known_failures ≡ ok plan.known)
      × (parse_engines disk [] arguments.engine ≡ ok plan.engines)
      × ((arguments.all_cases && not (same_names plan.entity_engines plan.engines)) ≡ false)
      × (any (λ case. case.skip_reason == "") plan.cases ≡ true)
      × (load_catalog disk site parse plan.suite_dir ≡ ok plan.cases)

  setup-IsReady : (plan : Plan) → setup disk site parse prepared arguments ≡ ok plan → IsReady plan
  unfolding setup
  setup-IsReady plan ready =
      let (known, loaded, h1) = >>=-eq-ok (load_known arguments.known_failures) _ ready in
      let (engines, parsed, h2) = >>=-eq-ok (parse_engines disk [] arguments.engine) _ h1 in
      let (entity_engines, more, h3) =
        >>=-eq-ok (parse_entity_engines disk engines [] arguments.entity_engine) _ h2 in
      let (same, h4) =
        refused (arguments.all_cases && not (same_names entity_engines engines)) _ _ plan h3 in
      let (suite_dir, there, h5) = >>=-eq-ok prepared _ h4 in
      let (cases, read, h6) = >>=-eq-ok (load_catalog disk site parse suite_dir) _ h5 in
      let (applicable, h7) =
        refused (not (any (λ case. case.skip_reason == "") cases)) _ _ plan h6 in
      subst IsReady (ok_inj _ plan h7) (loaded, parsed, same, ground (arith, applicable), read)

any-key_engine :
    (rows : List Result)
    → any (λ row. row.engine == "harness") rows
      ≡ any (λ ((engine, id) : String × String). engine == "harness") (map key rows)
any-key_engine [] = refl
any-key_engine (row ∷ rows) = rw (any-key_engine rows)

any-own_engine :
    (name : String) (cases : List Case)
    → (name == "harness") ≡ false
    → any
        (λ ((engine, id) : String × String). engine == "harness")
        (map (λ case. (name, case.id)) cases)
      ≡ false
any-own_engine name [] h = refl
any-own_engine name (case ∷ cases) h = rw (h, any-own_engine name cases h)

any-harness_pairs :
    (engines : Engines) (cases : List Case)
    → contains (names_of engines) "harness" ≡ false
    → any (λ ((engine, id) : String × String). engine == "harness") (pairs engines cases) ≡ false
any-harness_pairs [] cases h = refl
any-harness_pairs ((name, path) ∷ engines) cases h =
    rw
      (
        any-append,
        any-own_engine name cases (ground (arith, h, eq_iff name "harness", eq_iff "harness" name)),
      )
      (any-harness_pairs engines cases (ground (arith, h)))

judge_known-applied :
    (known : List Entry) (rows : List Result)
    → any (λ row. row.engine == "harness") rows ≡ false
    → any unexpected (judge_known known rows)
      ≡ any unexpected ((apply_known_failures rows known).0 ++ (apply_known_failures rows known).1)
unfolding judge_known apply_known_failures
judge_known-applied [] rows h = ap (any unexpected) (sym (append-nil rows))
judge_known-applied (entry ∷ known) rows h = rw h

-- The list is loaded from a file, or it is empty.
HasCategory-load_known :
    (file : Option (String × Outcome (List String))) (known : List Entry)
    → load_known file ≡ ok known
    → All HasCategory known
HasCategory-load_known none known h = subst (All HasCategory) (ok_inj [] known h) tt
HasCategory-load_known (some (path, ok lines)) known h = HasCategory-loaded path lines known h
HasCategory-load_known (some (path, err e)) known h = cc

module _ (disk : Disk) (launch : List String → Execution) (clock : List String → ℕ) (site : Site)
    (parse : Bool → String → Outcome Element) (prepared : Outcome String)
    (arguments : Arguments) where
  -- After a setup that succeeds, and with no engine named "harness", the exit code is 1 exactly if a failure or an error of the run is listed by no
  -- entry of the known-failures list, or an entry of an engine that was run agrees with no result
  -- in key and status; otherwise it is 0.
  pub main-exit_code :
      (plan : Plan)
      → setup disk site parse prepared arguments ≡ ok plan
      → contains (names_of plan.engines) "harness" ≡ false
      → let rows = run_engines disk launch clock arguments plan plan.engines in
        (main disk launch clock site parse prepared arguments).exit_code
        ≡ (if any (uncovered plan.known) rows || not (all (current rows) plan.known) then 1 else 0)
  unfolding main run_plan
  main-exit_code plan ready free =
      let rows = run_engines disk launch clock arguments plan plan.engines in
      let (loaded, parsed, same, applicable, read) =
        setup-IsReady disk site parse prepared arguments plan ready in
      let names = parse_engines-DistinctNames disk [] plan.engines arguments.engine tt parsed in
      let none_harness =
        any-key_engine rows
        ∙ ap (any (λ ((engine, id) : String × String). engine == "harness"))
            (run_engines-pairs disk launch clock arguments plan plan.engines)
        ∙ any-harness_pairs plan.engines plan.cases free in
      let distinct =
        run_engines-DistinctCases disk launch clock arguments plan plan.engines names
          (load_catalog-IsSound disk site parse plan.suite_dir plan.cases read).0 in
      let gate =
        unexpected-apply_known_failures rows plan.known distinct
          (HasCategory-load_known arguments.known_failures plan.known loaded) in
      rw (ready, judge_known-applied plan.known rows none_harness, gate)
