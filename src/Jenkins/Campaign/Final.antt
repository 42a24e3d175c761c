-- ===== src/Jenkins/Campaign/Final.antt =====
-- What the last run.json says of a campaign.
use xpact.Prelude.{
  String, ◌≡◌, refl, false, Option, none, some, List, [], ◌∷◌, ◌++◌, inl, inr, Bool-cases,
}
use xpact.Jenkins.Campaign.{
  Raised, Ending, finished, raised, described, Lane, Summary, State, initial, Outside, Campaign,
  lane_row, overall, invalid, campaign_error, abandon, published, summarised, conclude, run_w3c,
  second_lane, run_catalog, run_campaign,
}

abbrev pub last {ℓ} : {A : Type ℓ} → List A → Option A
last [] = none
last (x ∷ []) = some x
last (x ∷ y ∷ xs) = last (y ∷ xs)

last-snoc {ℓ} : {A : Type ℓ} (xs : List A) (x : A) → last (xs ++ (x ∷ [])) ≡ some x
last-snoc [] x = refl
last-snoc (a ∷ []) x = refl
last-snoc (a ∷ b ∷ xs) x = last-snoc (b ∷ xs) x

-- A state that may be published: it has a valid summary and the list of what was published.
abbrev pub IsPublished : State → Type 0
IsPublished state =
    (state.status ≡ overall (state.catalog.status ∷ state.w3c.status ∷ []))
    × ((summary : Summary) × (state.subject_summary ≡ some summary) × (invalid summary ≡ false))
    × ((publication : String) × (state.publication ≡ some publication))

-- A state that may not.
abbrev pub IsAbandoned : Raised → State → Type 0
IsAbandoned error state =
    (state.status ≡ "failed")
    × (state.subject_summary ≡ none)
    × (state.publication ≡ none)
    × (state.error ≡ some (described error))

abbrev pub IsFinal : Campaign → Type 0
IsFinal (finished state, saved) = (last saved ≡ some state) × IsPublished state
IsFinal (raised error, saved) =
    (state : State) × (last saved ≡ some state) × IsAbandoned error state

module _ (outside : Outside) where
  abandon-IsFinal :
      (state : State) (saved : List State) (error : Raised)
      → IsFinal (abandon outside state saved error)
  unfolding abandon
  abandon-IsFinal state saved error = (_, last-snoc saved _, (refl, refl, refl, refl))

  published-IsFinal :
      (state : State) (saved : List State) (ending : Ending String) (summary : Summary)
      → state.status ≡ overall (state.catalog.status ∷ state.w3c.status ∷ [])
      → state.subject_summary ≡ some summary
      → invalid summary ≡ false
      → IsFinal (published outside state saved ending)
  published-IsFinal state saved (raised error) summary s h v = abandon-IsFinal state saved error
  published-IsFinal state saved (finished publication) summary s h v =
      (last-snoc saved _, (s, (summary, h, v), (publication, refl)))

  summarised-IsFinal :
      (state : State) (saved : List State) (ending : Ending Summary)
      → state.status ≡ overall (state.catalog.status ∷ state.w3c.status ∷ [])
      → IsFinal (summarised outside state saved ending)
  summarised-IsFinal state saved (raised error) s = abandon-IsFinal state saved error
  summarised-IsFinal state saved (finished summary) s = elim (Bool-cases (invalid summary)) [
    | inl bad ↦ rw bad (
        abandon-IsFinal (record state { subject_summary = some summary }) saved
          (campaign_error "Invalid xpact test summary identity or status"))
    | inr good ↦
        let known = record state { subject_summary = some summary } in
        rw good (published-IsFinal known saved (outside.publish_reports known) summary s refl good)
  ]

  conclude-IsFinal : (state : State) (saved : List State) → IsFinal (conclude outside state saved)
  unfolding conclude
  conclude-IsFinal state saved =
      let done = record state { status = overall (state.catalog.status ∷ state.w3c.status ∷ []) } in
      summarised-IsFinal done saved (outside.publish_summary done) refl

  run_w3c-IsFinal :
      (state : State) (saved : List State) (row : Ending Lane)
      → IsFinal (run_w3c outside state saved row)
  run_w3c-IsFinal state saved (raised error) = abandon-IsFinal state saved error
  run_w3c-IsFinal state saved (finished row) =
      let after = record state { w3c = row } in conclude-IsFinal after (saved ++ (after ∷ []))

  second_lane-IsFinal :
      (state : State) (saved : List State) → IsFinal (second_lane outside state saved)
  unfolding second_lane
  second_lane-IsFinal state saved =
      let running = record state { w3c = record state.w3c { status = "running" } } in
      run_w3c-IsFinal running (saved ++ (running ∷ [])) (
        lane_row "w3c" ("complete" ∷ "complete_with_failures" ∷ []) running.w3c outside.w3c
          outside.w3c_digest)

  run_catalog-IsFinal :
      (state : State) (saved : List State) (row : Ending Lane)
      → IsFinal (run_catalog outside state saved row)
  run_catalog-IsFinal state saved (raised error) = abandon-IsFinal state saved error
  run_catalog-IsFinal state saved (finished row) =
      second_lane-IsFinal (record state { catalog = row })
        (saved ++ (record state { catalog = row } ∷ []))

  -- However a campaign ends, the last run.json says so. If it returns, that file is the state it
  -- returns, with the overall status of both lanes, a valid summary and the publication. If it
  -- raises, also by an interruption, the status is "failed", the error is named, and neither a
  -- summary nor a publication is left.
  pub run_campaign-IsFinal : (build_id : String) → IsFinal (run_campaign outside build_id)
  unfolding run_campaign
  run_campaign-IsFinal build_id =
      let start = initial build_id in
      let running = record start { catalog = record start.catalog { status = "running" } } in
      run_catalog-IsFinal running (start ∷ running ∷ []) (
        lane_row "catalog" ("complete" ∷ []) running.catalog outside.catalog outside.catalog_digest)
