-- ===== src/Dual/Report.antt =====
-- The report of a lane, as scripts/run_dual_w3c.py builds it and scripts/dual_jenkins_reports.py reads
-- it. A field of an artifact that is missing is the empty text.
use xpact.Prelude.{ℕ, String, Bool, Option, List}
use xpact.Prelude.Int.{ℤ}
use xpact.Dual.Qualification.{Control}

-- The manifest of a build.
pub record Artifact : Type 0 where
  pub status : String
  pub profile : String
  pub implementation : String
  pub gc_policy : String
  pub configuration : String
  pub mode : String
  pub assertions : Bool
  pub revision : String
  pub source_sha256 : String
  pub executable : String
  pub executable_sha256 : String
  pub build_inputs_sha256 : String

-- A row of `state["builds"]` and of `report["qualification"]`.
pub record BuildRow : Type 0 where
  pub implementation : String
  pub assertions : Bool
  pub status : String
  pub qualification_error : Option String
  pub manifest : Option String
  pub cases : List Control
  pub error : Option String

-- A row of `report["engines"]`.
pub record Engine : Type 0 where
  pub engine : String
  pub total : ℤ
  pub passed : ℤ
  pub failed : ℤ
  pub errors : ℤ
  pub skipped : ℤ

pub record Report : Type 0 where
  pub status : String
  pub lane : String
  pub catalog_cases : ℤ
  pub artifacts : List (String × Artifact)
  pub qualification : List BuildRow
  pub engines : List Engine
  pub same_outcome : ℕ
  pub different_outcome : ℕ
