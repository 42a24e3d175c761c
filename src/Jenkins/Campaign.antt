-- ===== src/Jenkins/Campaign.antt =====
-- `run_campaign` of scripts/run_dual_jenkins.py, from the first state on, and the exit code of `main`. The lanes, the
-- publishers and the hash of a report are parameters, which end with a value or an exception; the
-- writes of run.json are the list of its contents.
pub mod Final
pub mod Lanes
pub mod Arguments
pub mod Exit
mod Tests
use xpact.Prelude.{
  ℕ, String, Bool, true, false, not, ◌||◌, Option, none, some, List, [], ◌∷◌, ◌++◌, ◌==◌, ◌<>◌,
  contains, if◌then◌else◌,
}

-- An exception with the name of its class; an interruption is no `Exception`.
pub record Raised : Type 0 where
  pub name : String
  pub message : String
  pub interruption : Bool

pub data Ending {ℓ} (A : Type ℓ) : Type ℓ where
  finished : A → Ending A
  raised : Raised → Ending A

-- `type(error).__name__ + ": " + str(error)`
abbrev pub described : Raised → String
described error = error.name <> ": " <> error.message

abbrev pub campaign_error : String → Raised
campaign_error message = record { name = "CampaignError"; message = message; interruption = false }

-- A row of `state["lanes"]`.
pub record Lane : Type 0 where
  pub status : String
  pub report : String
  pub report_sha256 : Option String
  pub error : Option String

pub record Summary : Type 0 where
  pub implementation : String
  pub junit : String
  pub status : String

pub record State : Type 0 where
  pub build_id : String
  pub status : String
  pub catalog : Lane
  pub w3c : Lane
  pub subject_summary : Option Summary
  pub publication : Option String
  pub error : Option String
  pub cleanup_error : Option String

abbrev pub pending : String → Lane
pending report = record { status = "pending"; report = report; report_sha256 = none; error = none }

abbrev pub initial : String → State
initial build_id = record {
  build_id = build_id;
  status = "running";
  catalog = pending "catalog/report.json";
  w3c = pending "w3c/report.json";
  subject_summary = none;
  publication = none;
  error = none;
  cleanup_error = none;
}

-- `report.get("status") not in allowed`
abbrev pub refuses : List String → Option String → Bool
refuses allowed none = true
refuses allowed (some status) = not (contains allowed status)

abbrev pub text_of_status : Option String → String
text_of_status none = ""
text_of_status (some status) = status

abbrev pub fail_lane : Lane → Raised → Ending Lane
fail_lane row error =
    if error.interruption
    then raised error
    else finished (record row { status = "failed"; error = some (described error) })

abbrev pub hashed : Lane → String → Ending String → Ending Lane
hashed row status (finished digest) =
    finished (record row { report_sha256 = some digest; status = status })
hashed row status (raised error) = fail_lane row error

-- The `try` of the loop for one lane: the status of the report that the lane returns, and the
-- hash of the report file.
unfoldable pub lane_row :
    String → List String → Lane → Ending (Option String) → Ending String → Ending Lane
lane_row name allowed row (raised error) digest = fail_lane row error
lane_row name allowed row (finished status) digest =
    if refuses allowed status
    then fail_lane row (campaign_error ("Child lane did not return a completed report: " <> name))
    else hashed row (text_of_status status) digest

abbrev pub overall : List String → String
overall statuses =
    if contains statuses "failed"
    then "failed"
    else if contains statuses "complete_with_failures"
    then "complete_with_failures"
    else "complete"

abbrev pub invalid : Summary → Bool
invalid summary =
    not (summary.implementation == "xpact")
    || (not (summary.junit == "xpact-junit.xml")
        || not (contains ("complete" ∷ "complete_with_failures" ∷ "failed" ∷ []) summary.status))

-- What `run_campaign` calls, and how it ends.
pub record Outside : Type 0 where
  pub catalog : Ending (Option String)
  pub catalog_digest : Ending String
  pub w3c : Ending (Option String)
  pub w3c_digest : Ending String
  pub publish_summary : State → Ending Summary
  pub publish_reports : State → Ending String
  pub cleanup : Option String

-- How a campaign ends, with the contents that run.json has had, in order.
abbrev pub Campaign : Type 0
Campaign = Ending State × List State

abbrev pub code_of : String → ℕ
code_of status =
    if status == "complete" then 0 else if status == "complete_with_failures" then 1 else 2

abbrev pub summary_status : Option Summary → String
summary_status none = ""
summary_status (some summary) = summary.status

abbrev pub exit_of : Ending State → Ending ℕ
exit_of (raised error) = if error.interruption then raised error else finished 2
exit_of (finished state) = finished (code_of (summary_status state.subject_summary))

module _ (outside : Outside) where
  -- `except BaseException`
  unfoldable pub abandon : State → List State → Raised → Campaign
  abandon state saved error =
      let final = record state {
        publication = none;
        subject_summary = none;
        status = "failed";
        error = some (described error);
        cleanup_error = outside.cleanup;
      } in
      (raised error, saved ++ (final ∷ []))

  abbrev pub published : State → List State → Ending String → Campaign
  published state saved (raised error) = abandon state saved error
  published state saved (finished publication) =
      let final = record state { publication = some publication } in
      (finished final, saved ++ (final ∷ []))

  abbrev pub summarised : State → List State → Ending Summary → Campaign
  summarised state saved (raised error) = abandon state saved error
  summarised state saved (finished summary) =
      let known = record state { subject_summary = some summary } in
      if invalid summary
      then abandon known saved (campaign_error "Invalid xpact test summary identity or status")
      else published known saved (outside.publish_reports known)

  -- After both lanes.
  unfoldable pub conclude : State → List State → Campaign
  unfolding abandon
  conclude state saved =
      let done = record state { status = overall (state.catalog.status ∷ state.w3c.status ∷ []) } in
      summarised done saved (outside.publish_summary done)

  abbrev pub run_w3c : State → List State → Ending Lane → Campaign
  run_w3c state saved (raised error) = abandon state saved error
  run_w3c state saved (finished row) =
      let after = record state { w3c = row } in conclude after (saved ++ (after ∷ []))

  -- From the second round of the loop on.
  unfoldable pub second_lane : State → List State → Campaign
  unfolding conclude lane_row
  second_lane state saved =
      let running = record state { w3c = record state.w3c { status = "running" } } in
      run_w3c running (saved ++ (running ∷ [])) (
        lane_row "w3c" ("complete" ∷ "complete_with_failures" ∷ []) running.w3c outside.w3c
          outside.w3c_digest)

  abbrev pub run_catalog : State → List State → Ending Lane → Campaign
  run_catalog state saved (raised error) = abandon state saved error
  run_catalog state saved (finished row) =
      let after = record state { catalog = row } in second_lane after (saved ++ (after ∷ []))

  unfoldable pub run_campaign : String → Campaign
  unfolding second_lane lane_row
  run_campaign build_id =
      let start = initial build_id in
      let running = record start { catalog = record start.catalog { status = "running" } } in
      run_catalog running (start ∷ running ∷ []) (
        lane_row "catalog" ("complete" ∷ []) running.catalog outside.catalog outside.catalog_digest)
