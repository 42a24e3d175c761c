-- ===== src/Conformance/Profile/Definite.antt =====
-- The verdicts that `expectation` gives.
use xpact.Prelude.{
  String, ◌≡◌, ◌≢◌, ◌⊎◌, inl, inr, sym, ◌∙◌, Bool, true, false, arith, eq_iff, ◌==◌, contains,
  Bool-cases,
}
use xpact.Prelude.Outcome.{Error, ok, >>=-eq-ok}
use xpact.Conformance.Profile.Ladder.{ladder}
use xpact.Conformance.Profile.{
  Attributes, get, item, or_default, recommendation_of, recommendations, kinds, entity_modes,
  is_xml_1_1, verdict_of, omits, expectation_of, expectation,
}

verdict-ladder :
    (known old listed version edition optional mode : Bool) (e f g : Error)
    (v expected reason : String)
    → ladder known old listed version edition optional mode e f g v ≡ ok (expected, reason)
    → (expected ≡ v) ⊎ (expected ≡ "unspecified")
verdict-ladder known true listed version edition optional mode e f g v expected reason h =
    ground (arith, h)
verdict-ladder known false listed true edition optional mode e f g v expected reason h =
    ground (arith, h)
verdict-ladder known false listed false true optional mode e f g v expected reason h =
    ground (arith, h)
verdict-ladder known false listed false false true mode e f g v expected reason h =
    ground (arith, h)
verdict-ladder known false listed false false false mode e f g v expected reason h =
    ground (arith, h)

verdict_of-definite : (kind : String) → verdict_of kind ≢ "ANY"
verdict_of-definite kind same = elim (Bool-cases (kind == "not-wf")) [
  | inl bad ↦ ground (arith, bad, same, eq_iff "REJECT" "ANY")
  | inr good ↦ ground (arith, good, same, eq_iff "ACCEPT" "ANY")
]

pub expectation-definite :
    (attributes : Attributes) (expected reason : String)
    → expectation attributes ≡ ok (expected, reason)
    → expected ≢ "ANY"
unfolding expectation expectation_of
expectation-definite attributes expected reason h same =
    let (kind, typed, judged) = >>=-eq-ok (item "TYPE" attributes) _ h in
    let recommendation = recommendation_of attributes in
    elim (verdict-ladder (contains kinds kind) (is_xml_1_1 recommendation)
      (contains recommendations recommendation) (omits (get "VERSION" attributes) "1.0")
      (omits (get "EDITION" attributes) "5") (kind == "error")
      (contains entity_modes (or_default (get "ENTITIES" attributes) "none")) _ _ _
      (verdict_of kind) expected reason judged) [
        | inl own ↦ verdict_of-definite kind (sym own ∙ same)
        | inr other ↦ ground (arith, other, same, eq_iff "unspecified" "ANY")
      ]
