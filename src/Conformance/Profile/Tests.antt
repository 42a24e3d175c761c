-- ===== src/Conformance/Profile/Tests.antt =====
-- Catalog attributes on which `expectation` and the lanes are run.
use xpact.Prelude.{String, ◌≡◌, ◌≢◌, refl, [], ◌∷◌, arith, eq_iff, split}
use xpact.Prelude.Outcome.{ok, err, value_error, key_error}
use xpact.Conformance.Profile.{Attributes, get, expectation, out_of_profile_lane}
use xpact.Conformance.Profile.Lanes.{IsLaneOf, out_of_profile_lane-excluded}

abbrev plain : Attributes
plain =
    ("ID", "not-wf-sa-001")
    ∷ ("TYPE", "not-wf")
    ∷ ("ENTITIES", "none")
    ∷ ("VERSION", "1.0 1.1")
    ∷ ("URI", "001.xml")
    ∷ []

abbrev old_edition : Attributes
old_edition = ("TYPE", "not-wf") ∷ ("EDITION", "1 2 3 4") ∷ ("ENTITIES", "both") ∷ []

plain_expected : expectation plain ≡ ok ("REJECT", "")
unfolding expectation get split
plain_expected = refl

unknown_type : expectation (("TYPE", "wf") ∷ []) ≡ err (value_error "Unknown test TYPE: wf")
unfolding expectation get
unknown_type = refl

no_type : expectation [] ≡ err (key_error "TYPE")
unfolding expectation get
no_type = refl

old_edition_lane : out_of_profile_lane old_edition ≡ ok ("legacy-names", "REJECT")
unfolding out_of_profile_lane get split
old_edition_lane = refl

error_with_version :
    out_of_profile_lane (("TYPE", "error") ∷ ("VERSION", "1.1") ∷ []) ≡ ok ("xml-1.1", "ANY")
unfolding out_of_profile_lane get split
error_with_version = refl

abbrev edition_reason : String
edition_reason = "Case does not apply to XML 1.0 fifth edition"

edition_reason-ne-empty : edition_reason ≢ ""
edition_reason-ne-empty = ground (arith, eq_iff edition_reason "")

old_edition_excluded : expectation old_edition ≡ ok ("REJECT", edition_reason)
unfolding expectation get split
old_edition_excluded = refl

out_of_profile_lane-excluded_example :
    IsLaneOf "REJECT" ("legacy-names", "REJECT")
    × ◌≢◌ {A = String} "legacy-names" "external-entities"
unfolding get
out_of_profile_lane-excluded_example =
    out_of_profile_lane-excluded old_edition refl old_edition_excluded edition_reason-ne-empty
      "legacy-names" "REJECT" old_edition_lane
