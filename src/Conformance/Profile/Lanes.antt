-- ===== src/Conformance/Profile/Lanes.antt =====
-- Which lanes the excluded cases reach.
use xpact.Prelude.{String, ◌≡◌, ◌≢◌, ◌⊎◌, Bool, true, false, some, arith, eq_iff, ◌==◌, contains}
use xpact.Prelude.Outcome.{Error, ok, ok_inj}
use mathlib.Core.Path.{subst}
use xpact.Conformance.Profile.Ladder.{ladder, lane_ladder}
use xpact.Conformance.Profile.{
  Attributes, get, or_default, recommendation_of, recommendations, kinds, entity_modes, is_xml_1_1,
  verdict_of, omits, expectation, out_of_profile_lane,
}

-- The verdict that an excluded case is judged by in its lane.
abbrev pub IsLaneOf : String → String × String → Type 0
IsLaneOf expected (lane, verdict) =
    ((lane ≡ "xml-1.1") × (verdict ≡ "ANY"))
    ⊎ ((lane ≡ "optional-error") × (verdict ≡ "ANY"))
    ⊎ ((lane ≡ "legacy-names") × (verdict ≡ expected))

-- `expectation` gave a reason, so one of the four tests that end with a reason holds. The lane
-- looks at the same tests in another order.
IsLaneOf-reason :
    (known old listed version edition optional mode : Bool) (e f g : Error)
    (v expected reason : String)
    → ladder known old listed version edition optional mode e f g v ≡ ok (expected, reason)
    → reason ≢ ""
    → IsLaneOf expected (lane_ladder old version edition optional v)
IsLaneOf-reason known true listed version edition optional mode e f g v expected reason h n =
    ground arith
IsLaneOf-reason known false listed true edition optional mode e f g v expected reason h n =
    ground arith
IsLaneOf-reason known false listed false edition true mode e f g v expected reason h n =
    ground arith
IsLaneOf-reason known false listed false true false mode e f g v expected reason h n = ground arith
IsLaneOf-reason known false listed false false false mode e f g v expected reason h n = ground arith

not-external :
    (expected lane verdict : String)
    → IsLaneOf expected (lane, verdict)
    → lane ≢ "external-entities"
not-external expected lane verdict h e = ground (
  arith,
  eq_iff "xml-1.1" "external-entities",
  eq_iff "optional-error" "external-entities",
  eq_iff "legacy-names" "external-entities",
)

module _ (attributes : Attributes) {kind expected reason : String}
    (typed : get "TYPE" attributes ≡ some kind)
    (excluded : expectation attributes ≡ ok (expected, reason)) (reasoned : reason ≢ "") where
  -- A case that `expectation` excludes with a reason runs in the lane "xml-1.1" or
  -- "optional-error", where any verdict will do, or in "legacy-names", where the verdict that
  -- `expectation` gave is required. So none runs in the lane "external-entities".
  pub out_of_profile_lane-excluded :
      (lane verdict : String)
      → out_of_profile_lane attributes ≡ ok (lane, verdict)
      → IsLaneOf expected (lane, verdict) × (lane ≢ "external-entities")
  unfolding expectation out_of_profile_lane
  out_of_profile_lane-excluded lane verdict h =
      let recommendation = recommendation_of attributes in
      let judged =
        IsLaneOf-reason (contains kinds kind) (is_xml_1_1 recommendation)
          (contains recommendations recommendation) (omits (get "VERSION" attributes) "1.0")
          (omits (get "EDITION" attributes) "5") (kind == "error")
          (contains entity_modes (or_default (get "ENTITIES" attributes) "none")) _ _ _
          (verdict_of kind) expected reason (rw typed at excluded) reasoned in
      let same : lane_ladder (is_xml_1_1 recommendation) (omits (get "VERSION" attributes) "1.0")
            (omits (get "EDITION" attributes) "5") (kind == "error") (verdict_of kind)
          ≡ (lane, verdict) =
        ok_inj _ _ (rw typed at h) in
      let reached : IsLaneOf expected (lane, verdict) = subst (IsLaneOf expected) same judged in
      (reached, not-external expected lane verdict reached)
