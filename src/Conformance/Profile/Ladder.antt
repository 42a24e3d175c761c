-- ===== src/Conformance/Profile/Ladder.antt =====
-- The order of the tests of `expectation`, and of those of `out_of_profile_lane`.
use xpact.Prelude.{String, Bool, not, ◌||◌, if◌then◌else◌}
use xpact.Prelude.Outcome.{Error, Outcome, ok, refuse, ◌>>◌}

-- `expectation`, over the results of its tests.
abbrev pub ladder :
    (known old listed version edition optional mode : Bool) (e f g : Error) (v : String)
    → Outcome (String × String)
ladder known old listed version edition optional mode e f g v = do
  refuse (not known) e
  if old then ok (v, "XML 1.1 / Namespaces 1.1 is outside this profile") else do
    refuse (not listed) f
    if version
        then ok (v, "Case does not apply to XML 1.0")
        else if edition
        then ok (v, "Case does not apply to XML 1.0 fifth edition")
        else if optional
        then ok ("unspecified", "Optional error detection has no required binary verdict")
        else do refuse (not mode) g; ok (v, "")

-- `out_of_profile_lane`, over the results of the tests that it shares with `expectation`.
abbrev pub lane_ladder : (old version edition optional : Bool) (v : String) → String × String
lane_ladder old version edition optional v =
    if old || version
    then ("xml-1.1", "ANY")
    else if optional
    then ("optional-error", "ANY")
    else if edition
    then ("legacy-names", v)
    else ("external-entities", v)
