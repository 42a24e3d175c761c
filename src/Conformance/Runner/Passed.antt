-- ===== src/Conformance/Runner/Passed.antt =====
-- When a case that is run passes, and when it fails.
use xpact.Prelude.{
  String, ◌≡◌, ◌⊎◌, Bool, true, false, List, [], ◌∷◌, starts_with, keep, splitlines,
}
use xpact.Prelude.Int.{pos}
use xpact.Conformance.Case.{Case}
use xpact.Conformance.Runner.{Execution, completed, prefix, accept_marker, reject_marker}

abbrev pub verdict_lines : String → List String
verdict_lines out = keep (λ line. starts_with line prefix) (splitlines out)

-- The process ended by itself, with one verdict line and the exit code that goes with it.
abbrev pub Reports : Execution → String → Type 0
Reports (completed code out err) v =
    ((verdict_lines out ≡ accept_marker ∷ []) × (code ≡ pos 0) × (v ≡ "ACCEPT"))
    ⊎ ((verdict_lines out ≡ reject_marker ∷ []) × (code ≡ pos 1) × (v ≡ "REJECT"))
Reports _ v = ⊥

-- The status of a case whose verdict met its expectation, or did not.
abbrev pub status_of : Bool → String
status_of true = "passed"
status_of false = "failed"
