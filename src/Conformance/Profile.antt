-- ===== src/Conformance/Profile.antt =====
-- `expectation` and `out_of_profile_lane` of scripts/run_w3c_conformance.py: which verdict a
-- catalog case must have, and which lane runs the cases that the profile leaves out.
mod Ladder
pub mod Definite
pub mod Applicable
pub mod Lanes
mod Tests
use xpact.Prelude.{
  String, Bool, false, not, ◌||◌, Option, none, some, List, [], ◌∷◌, ◌==◌, starts_with, ◌<>◌,
  contains, split, if◌then◌else◌,
}
use xpact.Prelude.Outcome.{Outcome, ok, err, value_error, key_error, ◌>>=◌, ◌>>◌, refuse}

-- The attributes of a TEST element, `dict[str, str]`.
abbrev pub Attributes : Type 0
Attributes = List (String × String)

-- `attributes.get(name)`
unfoldable pub get : String → Attributes → Option String
get name [] = none
get name ((key, value) ∷ attributes) = if name == key then some value else get name attributes

abbrev pub or_default : Option String → String → String
or_default none default = default
or_default (some value) default = value

abbrev pub found : String → Option String → Outcome String
found name none = err (key_error name)
found name (some value) = ok value

-- `attributes[name]`
abbrev pub item : String → Attributes → Outcome String
item name attributes = found name (get name attributes)

abbrev pub recommendation_of : Attributes → String
recommendation_of attributes = or_default (get "RECOMMENDATION" attributes) "XML1.0"

-- `name in attributes and token not in attributes[name].split()`
abbrev pub omits : Option String → String → Bool
omits none token = false
omits (some value) token = not (contains (split value) token)

abbrev pub is_xml_1_1 : String → Bool
is_xml_1_1 recommendation =
    starts_with recommendation "XML1.1" || starts_with recommendation "NS1.1"

abbrev pub kinds : List String
kinds = "valid" ∷ "invalid" ∷ "not-wf" ∷ "error" ∷ []

abbrev pub recommendations : List String
recommendations =
    "XML1.0" ∷ "XML1.0-errata2e" ∷ "XML1.0-errata3e" ∷ "XML1.0-errata4e" ∷ "NS1.0"
    ∷ "NS1.0-errata1e" ∷ []

abbrev pub entity_modes : List String
entity_modes = "none" ∷ "general" ∷ "parameter" ∷ "both" ∷ []

abbrev pub verdict_of : String → String
verdict_of kind = if kind == "not-wf" then "REJECT" else "ACCEPT"

-- The checks of `expectation`, in its order, on the values that it reads.
expectation_of :
    (kind recommendation : String) (version edition : Option String) (entities : String)
    → Outcome (String × String)
expectation_of kind recommendation version edition entities = do
  refuse (not (contains kinds kind)) (value_error ("Unknown test TYPE: " <> kind))
  if is_xml_1_1 recommendation
      then ok (verdict_of kind, "XML 1.1 / Namespaces 1.1 is outside this profile")
      else do
        refuse (not (contains recommendations recommendation))
            (value_error ("Unknown RECOMMENDATION: " <> recommendation))
        if omits version "1.0"
            then ok (verdict_of kind, "Case does not apply to XML 1.0")
            else if omits edition "5"
            then ok (verdict_of kind, "Case does not apply to XML 1.0 fifth edition")
            else if kind == "error"
            then ok ("unspecified", "Optional error detection has no required binary verdict")
            else do
              refuse (not (contains entity_modes entities))
                  (value_error ("Unknown ENTITIES: " <> entities))
              ok (verdict_of kind, "")

unfoldable pub expectation : Attributes → Outcome (String × String)
unfolding expectation_of
expectation attributes = do
  kind ← item "TYPE" attributes
  expectation_of kind (recommendation_of attributes) (get "VERSION" attributes)
      (get "EDITION" attributes) (or_default (get "ENTITIES" attributes) "none")

lane_of : (kind recommendation : String) (version edition : Option String) → String × String
lane_of kind recommendation version edition =
    if is_xml_1_1 recommendation || omits version "1.0"
    then ("xml-1.1", "ANY")
    else if kind == "error"
    then ("optional-error", "ANY")
    else if omits edition "5"
    then ("legacy-names", verdict_of kind)
    else ("external-entities", verdict_of kind)

unfoldable pub out_of_profile_lane : Attributes → Outcome (String × String)
unfolding lane_of
out_of_profile_lane attributes = do
  kind ← item "TYPE" attributes
  ok (
      lane_of kind (recommendation_of attributes) (get "VERSION" attributes)
        (get "EDITION" attributes))

-- The keys of the table `LANES`.
abbrev pub lanes : List String
lanes = "core" ∷ "legacy-names" ∷ "external-entities" ∷ "optional-error" ∷ "xml-1.1" ∷ []
