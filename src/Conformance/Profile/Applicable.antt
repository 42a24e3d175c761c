-- ===== src/Conformance/Profile/Applicable.antt =====
-- When `expectation` takes a case into the profile.
use xpact.Prelude.{String, ◌≡◌, true, Option, none, some, List, [], ◌∷◌, contains, split}
use xpact.Conformance.Profile.{
  Attributes, get, or_default, recommendation_of, recommendations, entity_modes,
}

-- An attribute that is absent, or lists the token among its words.
abbrev pub Includes : Option String → String → Type 0
Includes none token = Unit
Includes (some value) token = contains (split value) token ≡ true

abbrev counted_kinds : List String
counted_kinds = "valid" ∷ "invalid" ∷ "not-wf" ∷ []

pub record IsApplicable (attributes : Attributes) (kind : String) : Type 0 where
  pub kind_counted : contains counted_kinds kind ≡ true
  pub recommended : contains recommendations (recommendation_of attributes) ≡ true
  pub version : Includes (get "VERSION" attributes) "1.0"
  pub edition : Includes (get "EDITION" attributes) "5"
  pub entities : contains entity_modes (or_default (get "ENTITIES" attributes) "none") ≡ true
