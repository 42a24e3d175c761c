-- ===== src/Jenkins/Campaign/Lanes.antt =====
-- Each lane's row is its own, and the exit code is the summary's.
use xpact.Prelude.{String, ◌≡◌}
use xpact.Jenkins.Campaign.{Ending, finished, raised, Lane, pending, Campaign}

-- The row of a lane that has started.
abbrev pub started : String → Lane
started report = record (pending report) { status = "running" }

-- What the lanes that ended have left, in a campaign that returns.
abbrev pub HasRows : Ending Lane → Ending Lane → Campaign → Type 0
HasRows catalog w3c (raised error, saved) = Unit
HasRows catalog w3c (finished state, saved) =
    (catalog ≡ finished state.catalog) × (w3c ≡ finished state.w3c)
