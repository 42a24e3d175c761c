-- ===== src/Dual/Build/Gate.antt =====
-- What a row of the builds that executed says: the artifact has the configuration that was asked
-- for, and its controls are complete or none are there beside the error.
use text.Mathlib.TextLemmas.{append-eq-nil_iff}
use xpact.Prelude.{
  String, ◌≡◌, inl, inr, refl, sym, ◌∙◌, subst, Bool, true, false, not, ◌||◌, Option, none, some,
  List, [], ◌∷◌, ◌==◌, ◌<>◌, All, contains, Bool-cases, arith, splitlines, eq_iff, false≢true,
}
use xpact.Prelude.Int.{ℤ, is_nat}
use xpact.Prelude.Outcome.{
  Outcome, ok, err, value_error, key_error, os_error, lane_error, ◌>>=◌, refuse, refused, >>=-eq-ok,
  ok_inj,
}
use xpact.Conformance.Known.{split_tabs}
use xpact.Dual.Qualification.{
  Control, Metadata, statuses, names_of, complete, identity, expected_code, control_of, controls_of,
  validate_rows, validate_lines, validate_qualification,
}
use xpact.Dual.Qualification.Once.{IsReported, controls_of-IsReported}
use xpact.Dual.Report.{Artifact, BuildRow}
use xpact.Dual.Build.{
  qualified, Qualified, printed, stopped, unlogged, Builds, verify_artifact, mismatched,
  validate_build, outcome_of, run_qualification, metadata_of, checked_output, caught, finished,
  qualified_row, validated_row, built_row, build_row,
}

-- A text with a beginning.
prefix-said : (before rest : String) → (before == "") ≡ false → ((before <> rest) == "") ≡ false
prefix-said before rest h = elim (Bool-cases ((before <> rest) == "")) [
  | inl empty ↦
      let none_there = append-eq-nil_iff.0 ((eq_iff (before <> rest) "").0 empty) in
      absurd (false≢true (sym h ∙ (eq_iff before "").1 none_there.0))
  | inr said ↦ said
]

-- The message of a `LaneError` is not empty.
abbrev Says {ℓ} : {A : Type ℓ} → Outcome A → Type 0
Says (ok a) = Unit
Says (err (lane_error text)) = (text == "") ≡ false
Says (err (value_error text)) = Unit
Says (err (key_error key)) = Unit
Says (err (os_error text)) = Unit

>>=-Says {ℓ μ} :
    {A : Type ℓ} {B : Type μ} (m : Outcome A) (next : A → Outcome B)
    → Says m
    → ((a : A) → Says (next a))
    → Says (m >>= next)
>>=-Says (ok a) next h k = k a
>>=-Says (err (lane_error text)) next h k = h
>>=-Says (err (value_error text)) next h k = tt
>>=-Says (err (key_error key)) next h k = tt
>>=-Says (err (os_error text)) next h k = tt

refuse-Says : (b : Bool) (text : String) → (text == "") ≡ false → Says (refuse b (lane_error text))
refuse-Says true text h = h
refuse-Says false text h = tt

module _ (repr : String → String) where
  invalid-said :
      (line : String) → (("Invalid W3C qualification output: " <> repr line) == "") ≡ false
  invalid-said line = prefix-said "Invalid W3C qualification output: " (repr line) refl

  control_of-Says : (line : String) (fields : List String) → Says (control_of repr line fields)
  unfolding control_of
  control_of-Says line [] = invalid-said line
  control_of-Says line (a ∷ []) = invalid-said line
  control_of-Says line (a ∷ b ∷ []) = invalid-said line
  control_of-Says line (a ∷ b ∷ c ∷ []) = invalid-said line
  control_of-Says line (a ∷ b ∷ c ∷ d ∷ e ∷ fields) = invalid-said line
  control_of-Says line (marker ∷ case_id ∷ status ∷ detail ∷ []) =
      >>=-Says
        (refuse
          (not (marker == "XPACT_W3C_CASE") || (not (contains statuses status) || detail == ""))
          (lane_error ("Invalid W3C qualification output: " <> repr line)))
        _ (refuse-Says _ _ (invalid-said line)) (λ t. tt)

  controls_of-Says : (lines : List String) → Says (controls_of repr lines)
  unfolding controls_of
  controls_of-Says [] = tt
  controls_of-Says (line ∷ lines) =
      >>=-Says (control_of repr line (split_tabs line)) _ (control_of-Says line (split_tabs line))
        (λ control. >>=-Says (controls_of repr lines) _ (controls_of-Says lines) (λ controls. tt))

  validate_lines-Says :
      (lines : List String) (metadata : Metadata) (code : ℤ)
      → Says (validate_lines repr lines metadata code)
  unfolding validate_lines validate_rows
  validate_lines-Says [] metadata code = refl
  validate_lines-Says (first ∷ lines) metadata code =
      >>=-Says (refuse (not (first == identity metadata)) _) _ (refuse-Says _ _ refl) (λ t.
        >>=-Says (controls_of repr lines) _ (controls_of-Says lines) (λ rows.
          >>=-Says (refuse (not (complete (names_of rows))) _) _ (refuse-Says _ _ refl) (λ u.
            >>=-Says (refuse (not (is_nat code (expected_code rows))) _) _ (refuse-Says _ _ refl)
              (λ v. tt))))

  -- Accepted controls have the five names, and statuses that are reported.
  validate_lines-complete :
      (lines : List String) (metadata : Metadata) (code : ℤ) (rows : List Control)
      → validate_lines repr lines metadata code ≡ ok rows
      → (complete (names_of rows) ≡ true) × All IsReported rows
  unfolding validate_lines validate_rows
  validate_lines-complete [] metadata code rows h = cc
  validate_lines-complete (first ∷ lines) metadata code rows h =
      let (same, h1) = refused (not (first == identity metadata)) _ _ rows h in
      let (found, read, h2) = >>=-eq-ok (controls_of repr lines) _ h1 in
      let (each, h3) = refused (not (complete (names_of found))) _ _ rows h2 in
      let (agrees, h4) = refused (not (is_nat code (expected_code found))) _ _ rows h3 in
      subst (λ r. (complete (names_of r) ≡ true) × All IsReported r) (ok_inj found rows h4)
        (ground (arith, each), (controls_of-IsReported repr lines found read).0)

module _ (builds : Builds) where
  -- The controls of a row beside its error.
  abbrev pub IsControlled : List Control → Option String → Type 0
  IsControlled controls none = (complete (names_of controls) ≡ true) × All IsReported controls
  IsControlled controls (some text) = ((text == "") ≡ false) × (controls ≡ [])

  checked_output-Says :
      (artifact : Artifact) (q : Qualified)
      → Says (checked_output builds artifact (outcome_of builds q))
  unfolding validate_qualification
  checked_output-Says artifact (printed output code) =
      validate_lines-Says builds.repr (splitlines output) (metadata_of builds artifact) code
  checked_output-Says artifact (stopped text) =
      prefix-said "Cannot complete W3C qualification: " text refl
  checked_output-Says artifact (unlogged text) = tt

  checked_output-complete :
      (artifact : Artifact) (q : Qualified) (rows : List Control)
      → checked_output builds artifact (outcome_of builds q) ≡ ok rows
      → (complete (names_of rows) ≡ true) × All IsReported rows
  unfolding validate_qualification
  checked_output-complete artifact (printed output code) rows h =
      validate_lines-complete builds.repr (splitlines output) (metadata_of builds artifact) code
        rows h
  checked_output-complete artifact (stopped text) rows h = cc
  checked_output-complete artifact (unlogged text) rows h = cc

  -- A row that executed, with its artifact.
  abbrev pub IsBuilt : String → Bool → BuildRow × Option Artifact → Type 0
  IsBuilt implementation assertions (row, none) = row.status ≡ "failed"
  IsBuilt implementation assertions (row, some artifact) =
      (row.status ≡ "executed")
      × (mismatched builds artifact implementation assertions ≡ false)
      × IsControlled row.cases row.qualification_error

  abbrev pub IsNamed : String → Bool → BuildRow × Option Artifact → Type 0
  IsNamed implementation assertions result =
      (result.0.implementation ≡ implementation)
      × (result.0.assertions ≡ assertions)
      × IsBuilt implementation assertions result

  module _ (implementation : String) (assertions : Bool) (manifest : String) (artifact : Artifact)
      (matches : mismatched builds artifact implementation assertions ≡ false) where
    finished-IsNamed :
        (controls : List Control) (error : Option String) (end : Outcome (Unit {0}))
        → IsControlled controls error
        → IsNamed implementation assertions
            (finished builds implementation assertions manifest artifact (controls, error) end)
    finished-IsNamed controls error (err raised) h = (refl, refl, refl)
    finished-IsNamed controls error (ok done) h = (refl, refl, (refl, matches, h))

    caught-IsNamed :
        (m : Outcome (List Control))
        → Says m
        → ((rows : List Control) → m ≡ ok rows → IsControlled rows none)
        → IsNamed implementation assertions
            (qualified_row builds implementation assertions manifest artifact (caught builds m))
    caught-IsNamed (ok controls) h k =
        finished-IsNamed controls none (verify_artifact builds qualified artifact) (k controls refl)
    caught-IsNamed (err (lane_error text)) h k =
        finished-IsNamed [] (some text) (verify_artifact builds qualified artifact) (h, refl)
    caught-IsNamed (err (value_error text)) h k = (refl, refl, refl)
    caught-IsNamed (err (key_error key)) h k = (refl, refl, refl)
    caught-IsNamed (err (os_error text)) h k = (refl, refl, refl)

  validated-IsNamed :
      (implementation : String) (assertions : Bool) (manifest : String) (artifact : Artifact)
      (result : Outcome (Unit {0}))
      → validate_build builds artifact implementation assertions ≡ result
      → IsNamed implementation assertions
          (validated_row builds implementation assertions manifest artifact result)
  unfolding validate_build run_qualification
  validated-IsNamed implementation assertions manifest artifact (err error) e = (refl, refl, refl)
  validated-IsNamed implementation assertions manifest artifact (ok done) e =
      let q = builds.qualify implementation assertions in
      let (matches, rest) =
        refused (mismatched builds artifact implementation assertions) _ _ done e in
      caught-IsNamed implementation assertions manifest artifact matches
        (checked_output builds artifact (outcome_of builds q)) (checked_output-Says artifact q)
        (checked_output-complete artifact q)

  built-IsNamed :
      (implementation : String) (assertions : Bool) (result : Outcome (String × Artifact))
      → IsNamed implementation assertions (built_row builds implementation assertions result)
  built-IsNamed implementation assertions (err error) = (refl, refl, refl)
  built-IsNamed implementation assertions (ok (manifest, artifact)) =
      validated-IsNamed implementation assertions manifest artifact
        (validate_build builds artifact implementation assertions) refl

  pub build_row-IsNamed :
      (implementation : String) (assertions : Bool)
      → IsNamed implementation assertions (build_row builds implementation assertions)
  unfolding build_row
  build_row-IsNamed implementation assertions =
      built-IsNamed implementation assertions (builds.build_one implementation assertions)
