-- ===== src/Jenkins/Summary/Honest.antt =====
-- What a summary that is published says.
use xpact.Prelude.{◌+◌, ◌≡◌, some, List, All}
use xpact.Prelude.Outcome.{Outcome}
use xpact.Jenkins.Plots.{Profile}
use xpact.Jenkins.Summary.{Handed, Summary, Published}
use xpact.Jenkins.Summary.Sound.{IsSound}

-- A summary that is written with its suites, and what it then says.
abbrev pub IsHonest : Handed → List Profile → Published → Summary → Type 0
IsHonest handed selected published summary =
    (published.summary ≡ some summary)
    × (summary.passed + (summary.failures + (summary.errors + summary.skipped)) ≡ summary.tests)
    × (summary.status ≡ "complete"
        → (summary.failures ≡ 0) × (summary.errors ≡ 0) × All (IsSound handed) selected)
