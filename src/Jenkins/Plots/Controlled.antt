-- ===== src/Jenkins/Plots/Controlled.antt =====
-- The artifacts and the controls of a run pass the checks of the plots.
use xpact.Prelude.{
  String, ◌≡◌, refl, ap, ◌∙◌, Bool, true, false, not, ◌||◌, Option, none, some, List, [], ◌∷◌, ◌==◌,
  any, length, All, contains, nat_eq, map, arith, if◌then◌else◌,
}
use xpact.Prelude.Outcome.{ok, Error, refuse, not_refused, ◌>>◌}
use xpact.Dual.Qualification.{Control, names_of, complete}
use xpact.Dual.Qualification.Once.{IsReported}
use xpact.Dual.Report.{Artifact, BuildRow}
use xpact.Dual.Build.{mismatched, Builds}
use xpact.Dual.Build.Gate.{IsControlled}
use xpact.Dual.Lane.{has_error, failing_controls}
use xpact.Jenkins.Plots.{
  w3c, is_hex, differs, validate_artifact, key_of, control_keys, is_failure, validate_cases,
  validate_row, validate_rows, validate_controls, is_empty, same_keys, same_names, w3c_controls,
}

-- The identities that a manifest must have: a revision and two hashes.
abbrev pub HasIdentity : Artifact → Type 0
HasIdentity artifact =
    (is_hex 40 artifact.revision ≡ true)
    × (is_hex 64 artifact.executable_sha256 ≡ true)
    × (is_hex 64 artifact.build_inputs_sha256 ≡ true)

refuse_not : (b : Bool) (e : Error) → b ≡ false → refuse b e ≡ ok tt
refuse_not true e h = cc
refuse_not false e h = refl

reported_statuses :
    (cases : List Control)
    → All IsReported cases
    → any (λ (c : Control). not (contains ("PASS" ∷ "FAIL" ∷ []) c.status)) cases ≡ false
reported_statuses [] h = refl
reported_statuses (case ∷ cases) h = ground (arith, h.0.0, reported_statuses cases h.1)

module _ (builds : Builds) where
  pub validate_artifact-eq-ok :
      (engine : String) (artifact : Artifact)
      → mismatched builds artifact engine false ≡ false
      → HasIdentity artifact
      → validate_artifact w3c engine artifact ≡ ok tt
  unfolding validate_artifact
  validate_artifact-eq-ok engine artifact h identity =
      let (revision, executable, inputs) = identity in
      not_refused (differs w3c engine artifact) _ _ (ground (arith, h))
      ∙ refuse_not
          (not (is_hex 40 artifact.revision)
            || (not (is_hex 64 artifact.executable_sha256)
                || not (is_hex 64 artifact.build_inputs_sha256)))
          _ (ground (arith, revision, executable, inputs))

  validate_cases-eq-ok :
      (cases : List Control)
      → complete (names_of cases) ≡ true
      → All IsReported cases
      → validate_cases w3c cases ≡ ok (any is_failure cases)
  unfolding validate_cases
  validate_cases-eq-ok cases h reported =
      not_refused
        (not (nat_eq (length (map (λ (c : Control). c.case_id) cases)) 5)
          || not (same_names (map (λ (c : Control). c.case_id) cases) w3c_controls))
        _ _ (ground (arith, h))
      ∙ not_refused (any (λ c. not (contains ("PASS" ∷ "FAIL" ∷ []) c.status)) cases) _ _
          (reported_statuses cases reported)

  controlled-eq-ok :
      (cases : List Control) (error : Option String) (refusal : Error)
      → IsControlled builds cases error
      → (if has_error error
          then (refuse (not (is_empty cases)) refusal >> ok true)
          else validate_cases w3c cases)
        ≡ ok (has_error error || failing_controls cases)
  controlled-eq-ok cases none refusal h = validate_cases-eq-ok cases h.0 h.1
  controlled-eq-ok cases (some text) refusal h =
      rw h.0
        (not_refused (not (is_empty cases)) refusal (λ t. ok true) (ap (λ c. not (is_empty c)) h.1))

  abbrev pub row_failed : BuildRow → Bool
  row_failed row = has_error row.qualification_error || failing_controls row.cases

  validate_row-eq-ok :
      (row : BuildRow)
      → row.status ≡ "executed"
      → IsControlled builds row.cases row.qualification_error
      → validate_row w3c row ≡ ok (row_failed row)
  unfolding validate_row
  validate_row-eq-ok row status controlled =
      not_refused (not (row.status == "executed")) _ _ (ap (λ s. not (s == "executed")) status)
      ∙ controlled-eq-ok row.cases row.qualification_error _ controlled

  -- Four rows, in the order of the builds.
  pub controls-eq-ok :
      (a b c d : BuildRow)
      → map key_of (a ∷ b ∷ c ∷ d ∷ [])
        ≡ ("xpact", true) ∷ ("xpact-core", true) ∷ ("xpact", false) ∷ ("xpact-core", false) ∷ []
      → All
          (λ (row : BuildRow).
            (row.status ≡ "executed") × IsControlled builds row.cases row.qualification_error)
          (a ∷ b ∷ c ∷ d ∷ [])
      → validate_controls w3c (a ∷ b ∷ c ∷ d ∷ [])
        ≡ ok (row_failed a || (row_failed b || (row_failed c || (row_failed d || false))))
  unfolding validate_controls validate_rows
  controls-eq-ok a b c d keys (ha, (hb, (hc, (hd, t)))) =
      not_refused (not (same_keys (map key_of (a ∷ b ∷ c ∷ d ∷ [])) control_keys)) _ _
        (ap (λ k. not (same_keys k control_keys)) keys)
      ∙ rw
          (
            validate_row-eq-ok a ha.0 ha.1,
            validate_row-eq-ok b hb.0 hb.1,
            validate_row-eq-ok c hc.0 hc.1,
            validate_row-eq-ok d hd.0 hd.1,
          )
          refl
