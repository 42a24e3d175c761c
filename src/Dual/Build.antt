-- ===== src/Dual/Build.antt =====
-- The builds of scripts/run_dual_w3c.py: `verify_artifact`, `validate_build`, `verify_sources`,
-- `run_qualification` and the loop of `run_lane` over the builds. The builds themselves, processes
-- and hashes are an interface, by the moment at which they are asked.
pub mod Gate
use Prim.Native.String
use xpact.Prelude.{
  bool_eq, ℕ, String, Bool, true, false, not, ◌&&◌, ◌||◌, Option, none, some, List, [], ◌∷◌, ◌++◌,
  map, any, ◌==◌, ◌<>◌, if◌then◌else◌,
}
use xpact.Prelude.Int.{ℤ}
use xpact.Prelude.Outcome.{
  Outcome, ok, err, Error, value_error, key_error, os_error, lane_error, message_of, ◌>>=◌, ◌>>◌,
  refuse,
}
use xpact.Dual.Qualification.{Control, Metadata, validate_qualification}
use xpact.Dual.Report.{Artifact, BuildRow}

-- `GC_POLICIES[implementation]`
abbrev pub policy_of : String → String
policy_of implementation =
    if implementation == "xpact" then "normal" else "core-managed-off-full-collect"

-- When a file is hashed.
pub data Moment : Type 0 where
  preparing built qualified before_execution after_execution : Moment
  engine : String → Moment

-- What a qualification process leaves: its output and exit code, an error or a timeout, or a log
-- that cannot be written.
pub data Qualified : Type 0 where
  printed : String → ℤ → Qualified
  stopped : String → Qualified
  unlogged : String → Qualified

pub record Builds : Type 0 where
  -- `build_one` and the manifest that it names, read
  pub build_one : (implementation : String) (assertions : Bool) → Outcome (String × Artifact)
  pub qualify : (implementation : String) (assertions : Bool) → Qualified
  pub hash : Moment → String → Outcome String
  pub fingerprint : Moment → (implementation : String) → Outcome String
  pub repr : String → String

module _ (builds : Builds) where
  unfoldable pub verify_artifact : Moment → Artifact → Outcome (Unit {0})
  verify_artifact moment artifact = do
    sha256 ← builds.hash moment artifact.executable
    refuse (not (sha256 == artifact.executable_sha256))
        (lane_error "W3C executable changed after build verification")

  abbrev pub configuration_of : Bool → String
  configuration_of assertions =
      if assertions then "finalized/assertions-on/msvc-x64" else "finalized/assertions-off/msvc-x64"

  abbrev pub mismatched : Artifact → String → Bool → Bool
  mismatched artifact implementation assertions =
      not (artifact.status == "verified")
      || (not (artifact.profile == "w3c")
          || (not (artifact.implementation == implementation)
              || (not (artifact.gc_policy == policy_of implementation)
                  || (not (artifact.configuration == configuration_of assertions)
                      || (not (artifact.mode == "finalized")
                          || not (bool_eq artifact.assertions assertions))))))

  unfoldable pub validate_build : Artifact → String → Bool → Outcome (Unit {0})
  unfolding verify_artifact
  validate_build artifact implementation assertions = do
    refuse (mismatched artifact implementation assertions)
        (lane_error "W3C build does not match the requested configuration")
    verify_artifact built artifact

  abbrev pub outcome_of : Qualified → Outcome (String × ℤ)
  outcome_of (printed output code) = ok (output, code)
  outcome_of (stopped text) = err (lane_error ("Cannot complete W3C qualification: " <> text))
  outcome_of (unlogged text) = err (os_error text)

  unfoldable pub run_qualification : String → Bool → Outcome (String × ℤ)
  run_qualification implementation assertions =
      outcome_of (builds.qualify implementation assertions)

  -- The identity that the qualification must print.
  abbrev pub metadata_of : Artifact → Metadata
  metadata_of artifact = record {
    implementation = artifact.implementation;
    revision = artifact.revision;
    configuration = artifact.configuration;
    gc_policy = artifact.gc_policy;
  }

  abbrev pub checked_output : Artifact → Outcome (String × ℤ) → Outcome (List Control)
  checked_output artifact (err error) = err error
  checked_output artifact (ok (output, code)) =
      validate_qualification builds.repr output (metadata_of artifact) code

  -- The inner `try`: a `LaneError` is kept beside no controls, others go on.
  abbrev pub caught : Outcome (List Control) → Outcome (List Control × Option String)
  caught (ok controls) = ok (controls, none)
  caught (err (lane_error text)) = ok ([], some text)
  caught (err (value_error text)) = err (value_error text)
  caught (err (key_error key)) = err (key_error key)
  caught (err (os_error text)) = err (os_error text)

  abbrev pub failed_row : String → Bool → Option String → Error → BuildRow
  failed_row implementation assertions qualification_error error = record {
    implementation = implementation;
    assertions = assertions;
    status = "failed";
    qualification_error = qualification_error;
    manifest = none;
    cases = [];
    error = some (message_of error);
  }

  -- After the qualification.
  abbrev pub finished :
      String
      → Bool
      → String
      → Artifact
      → List Control × Option String
      → Outcome (Unit {0})
      → BuildRow × Option Artifact
  finished implementation assertions manifest artifact (controls, qualification_error) (err error) =
      (failed_row implementation assertions qualification_error error, none)
  finished implementation assertions manifest artifact (controls, qualification_error) (ok done) = (
    record {
      implementation = implementation;
      assertions = assertions;
      status = "executed";
      qualification_error = qualification_error;
      manifest = some manifest;
      cases = controls;
      error = none;
    },
    some artifact,
  )

  abbrev pub qualified_row :
      String
      → Bool
      → String
      → Artifact
      → Outcome (List Control × Option String)
      → BuildRow × Option Artifact
  qualified_row implementation assertions manifest artifact (err error) =
      (failed_row implementation assertions none error, none)
  qualified_row implementation assertions manifest artifact (ok result) =
      finished implementation assertions manifest artifact result
        (verify_artifact qualified artifact)

  abbrev pub validated_row :
      String → Bool → String → Artifact → Outcome (Unit {0}) → BuildRow × Option Artifact
  validated_row implementation assertions manifest artifact (err error) =
      (failed_row implementation assertions none error, none)
  validated_row implementation assertions manifest artifact (ok done) =
      qualified_row implementation assertions manifest artifact
        (caught (checked_output artifact (run_qualification implementation assertions)))

  abbrev pub built_row : String → Bool → Outcome (String × Artifact) → BuildRow × Option Artifact
  built_row implementation assertions (err error) =
      (failed_row implementation assertions none error, none)
  built_row implementation assertions (ok (manifest, artifact)) =
      validated_row implementation assertions manifest artifact
        (validate_build artifact implementation assertions)

  -- One turn of the loop over the implementations: the row, and the artifact of a row that executed.
  unfoldable pub build_row : String → Bool → BuildRow × Option Artifact
  unfolding verify_artifact validate_build run_qualification validate_qualification
  build_row implementation assertions =
      built_row implementation assertions (builds.build_one implementation assertions)

  -- `audits` and `artifacts`, in the order of `GC_POLICIES`.
  abbrev pub Artifacts : Type 0
  Artifacts = List (String × Artifact)

  abbrev pub entry : String → Option Artifact → Artifacts
  entry implementation none = []
  entry implementation (some artifact) = (implementation, artifact) ∷ []

  abbrev pub named : String → Artifacts → Option Artifact
  named implementation [] = none
  named implementation ((name, artifact) ∷ rest) =
      if name == implementation then some artifact else named implementation rest

  abbrev pub audit_of : String → Option Artifact → Outcome Artifact
  audit_of implementation none = err (key_error implementation)
  audit_of implementation (some audit) = ok audit

  unfoldable pub verify_sources : Moment → (audits artifacts : Artifacts) → Outcome (Unit {0})
  verify_sources moment audits [] = ok tt
  verify_sources moment audits ((implementation, artifact) ∷ rest) = do
    audit ← audit_of implementation (named implementation audits)
    refuse
        (not (audit.build_inputs_sha256 == artifact.build_inputs_sha256)
          || (not (audit.revision == artifact.revision)
              || not (audit.source_sha256 == artifact.source_sha256)))
        (lane_error "Audit and primary W3C builds used different source snapshots")
    inputs ← builds.fingerprint moment implementation
    refuse (not (inputs == artifact.build_inputs_sha256))
        (lane_error "W3C build inputs changed during the campaign")
    verify_sources moment audits rest
