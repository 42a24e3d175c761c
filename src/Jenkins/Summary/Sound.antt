-- ===== src/Jenkins/Summary/Sound.antt =====
-- What the parts of the lanes say when no infrastructure failed.
use xpact.Prelude.{
  String, ◌≡◌, inl, inr, refl, sym, ap, ◌∙◌, Bool, true, false, not, ◌||◌, Option, none, some, List,
  [], ◌∷◌, All, arith, false≢true, Bool-cases, ||-false, contains,
}
use xpact.Prelude.Outcome.{Outcome, ok, err, message_of, >>=-eq-ok, ok_inj}
use xpact.Dual.Report.{Report}
use xpact.Jenkins.Plots.{Profile, catalog, w3c}
use xpact.Jenkins.Junit.{Suite}
use xpact.Jenkins.Own.{control_suites}
use xpact.Jenkins.Own.Full.{w3c_suite}
use xpact.Jenkins.Summary.{
  Handed, Part, state_is, agreed, or_error, listed, full_catalog, joined, lane_part, all_parts,
  error_suite,
}

module _ (handed : Handed) where
  abbrev pub IsCovered : Profile → Option Report → Type 0
  IsCovered catalog report = Unit
  IsCovered w3c report = (suite : Suite) × (w3c_suite handed.evidence report ≡ ok suite)

  -- The report that is used is the lane's, if there is one, and it is finished as the state says.
  abbrev pub IsAgreed : Profile → Option Report → Option Report → Type 0
  IsAgreed lane none report = report ≡ none
  IsAgreed lane (some given) report =
      (report ≡ some given)
      × (state_is handed (handed.states lane) given.status ≡ true)
      × (contains ("complete" ∷ "complete_with_failures" ∷ []) given.status ≡ true)

  -- The evidence of a lane is complete: its report agrees with its state, its controls are accepted
  -- and, for the W3C lane, its full catalog is.
  abbrev pub IsSound : Profile → Type 0
  IsSound lane =
      (report : Option Report) × IsAgreed lane (handed.reports lane) report
      × (suites : List Suite) × (control_suites handed.evidence lane report ≡ ok suites)
      × IsCovered lane report

  flag_differs :
      (a b : Option Report) (xs ys : List Suite)
      → ◌≡◌ {A = Outcome (Option Report × (List Suite × Bool))}
          (ok (a, (xs, true)))
          (ok (b, (ys, false)))
      → ⊥
  flag_differs a b xs ys e = false≢true (
      sym (
        ap (λ (p : Option Report × (List Suite × Bool)). p.1.1)
          (ok_inj (a, (xs, true)) (b, (ys, false)) e)))

  listed-ok :
      (m : Outcome Suite) (suites : List Suite)
      → listed handed m ≡ ok suites
      → (suite : Suite) × (m ≡ ok suite)
  listed-ok (ok suite) suites h = (suite, refl)
  listed-ok (err raised) suites h = cc

  agreed-IsAgreed :
      (lane : Profile) (given report : Option Report) (suites : List Suite)
      → agreed handed lane given ≡ ok (report, (suites, false))
      → IsAgreed lane given report
  agreed-IsAgreed lane none report suites h = cc
  agreed-IsAgreed lane (some given) report suites h =
      elim (Bool-cases (
        not (state_is handed (handed.states lane) given.status)
        || not (contains ("complete" ∷ "complete_with_failures" ∷ []) given.status))) [
          | inl refuted ↦
              let (suite, made, e) =
                >>=-eq-ok
                  (error_suite handed lane "campaign-evidence"
                    "Own campaign state and completed report disagree")
                  (λ suite. ok (none, (suite ∷ [], true))) (rw refuted at h) in
              absurd (flag_differs none report (suite ∷ []) suites e)
          | inr fine ↦ (
            ap (λ (p : Option Report × (List Suite × Bool)). p.0)
                (sym (ok_inj (some given, ([], false)) (report, (suites, false)) (rw fine at h))),
            ground (arith, fine),
            ground (arith, fine),
          )
        ]

  or_error-ok :
      (lane : Profile) (context : String) (m : Outcome (List Suite)) (suites : List Suite)
      → or_error handed lane context m ≡ ok (suites, false)
      → m ≡ ok suites
  or_error-ok lane context (ok found) suites h =
      ap (λ (p : List Suite × Bool). ok p.0) (ok_inj (found, false) (suites, false) h)
  or_error-ok lane context (err raised) suites h =
      let (suite, made, e) =
        >>=-eq-ok (error_suite handed lane context (message_of raised))
          (λ suite. ok (suite ∷ [], true)) h in
      absurd (
        false≢true
          (sym (ap (λ (p : List Suite × Bool). p.1) (ok_inj (suite ∷ [], true) (suites, false) e))))

  full_catalog-IsCovered :
      (lane : Profile) (report : Option Report) (suites : List Suite)
      → full_catalog handed lane report ≡ ok (suites, false)
      → IsCovered lane report
  full_catalog-IsCovered catalog report suites h = tt
  full_catalog-IsCovered w3c report suites h =
      listed-ok (w3c_suite handed.evidence report) suites
        (or_error-ok w3c "full-catalog" (listed handed (w3c_suite handed.evidence report)) suites h)

  parts_fine :
      (lane : Profile) (report : Option Report) (start controls full : Part) (suites : List Suite)
      → ok (joined handed start (joined handed controls full)) ≡ ok (suites, false)
      → (start.1 ≡ false) × (controls.1 ≡ false) × (full.1 ≡ false)
  parts_fine lane report start controls full suites h =
      let flags =
        ap (λ (p : List Suite × Bool). p.1)
          (ok_inj (joined handed start (joined handed controls full)) (suites, false) h) in
      let (a, rest) = ||-false start.1 (controls.1 || full.1) flags in
      let (b, c) = ||-false controls.1 full.1 rest in (a, b, c)

  lane_part-IsSound :
      (lane : Profile) (suites : List Suite)
      → lane_part handed lane ≡ ok (suites, false)
      → IsSound lane
  unfolding lane_part
  lane_part-IsSound lane suites h =
      let ((report, start), e1, h1) = >>=-eq-ok (agreed handed lane (handed.reports lane)) _ h in
      let (controls, e2, h2) =
        >>=-eq-ok
          (or_error handed lane "directed-controls" (control_suites handed.evidence lane report)) _
          h1 in
      let (full, e3, h3) = >>=-eq-ok (full_catalog handed lane report) _ h2 in
      let (a, b, c) = parts_fine lane report start controls full suites h3 in
      (
        report,
        agreed-IsAgreed lane (handed.reports lane) report start.0
            (e1 ∙ ap (λ flag. ok (report, (start.0, flag))) a),
        controls.0,
        or_error-ok lane "directed-controls" (control_suites handed.evidence lane report) controls.0
            (e2 ∙ ap (λ flag. ok (controls.0, flag)) b),
        full_catalog-IsCovered lane report full.0 (e3 ∙ ap (λ flag. ok (full.0, flag)) c),
      )

  pub all_parts-IsSound :
      (lanes : List Profile) (suites : List Suite)
      → all_parts handed lanes ≡ ok (suites, false)
      → All IsSound lanes
  unfolding all_parts
  all_parts-IsSound [] suites h = tt
  all_parts-IsSound (lane ∷ lanes) suites h =
      let (part, e1, h1) = >>=-eq-ok (lane_part handed lane) _ h in
      let (more, e2, h2) = >>=-eq-ok (all_parts handed lanes) _ h1 in
      let flags =
        ap (λ (p : List Suite × Bool). p.1) (ok_inj (joined handed part more) (suites, false) h2) in
      let (a, b) = ||-false part.1 more.1 flags in
      (
        lane_part-IsSound lane part.0 (e1 ∙ ap (λ flag. ok (part.0, flag)) a),
        all_parts-IsSound lanes more.0 (e2 ∙ ap (λ flag. ok (more.0, flag)) b),
      )
