-- ===== src/Benchmark/Publish/AllOrNothing.antt =====
-- The outcomes of `publish_reports`.
use xpact.Prelude.{
  String, ◌≡◌, refl, sym, ap, ◌∙◌, subst, Option, none, some, inl, inr, Option-cases,
}
use xpact.Prelude.Outcome.{Outcome, ok, err, Error}
use xpact.Benchmark.Publish.{
  Name, json, tsv, Disk, Moment, publishing, Staging, staged, unmade, partly, Faults, continue,
  clear_reports, publish_reports, stage, stage_with, replace, clear_report, remove, remove_staged,
  or_clear, finally_remove,
}

-- Deleting a file does not fail.
abbrev pub IsDeletable : Faults → Type 0
IsDeletable faults =
    ((moment : Moment) (name : Name) → faults.clearing moment name ≡ none)
    × ((name : Name) → faults.removing name ≡ none)

-- A directory by what is in it.
abbrev pub disk_of : (json_report tsv_report json_temporary tsv_temporary : Option String) → Disk
disk_of a b c d = record { json_report = a; tsv_report = b; json_temporary = c; tsv_temporary = d }

module _ (faults : Faults) (deletable : IsDeletable faults) where
  clear_json :
      (moment : Moment) (a b c d : Option String)
      → clear_report faults moment json (disk_of a b c d) ≡ (disk_of none b c d, ok tt)
  clear_json moment none b c d = refl
  clear_json moment (some a) b c d = rw (deletable.0 moment json) refl

  clear_tsv :
      (moment : Moment) (a b c d : Option String)
      → clear_report faults moment tsv (disk_of a b c d) ≡ (disk_of a none c d, ok tt)
  clear_tsv moment a none c d = refl
  clear_tsv moment a (some b) c d = rw (deletable.0 moment tsv) refl

  pub clear_reports_empty :
      (moment : Moment) (a b c d : Option String)
      → clear_reports faults moment (disk_of a b c d) ≡ (disk_of none none c d, ok tt)
  unfolding clear_reports
  clear_reports_empty moment a b c d =
      ap (λ r. continue r (clear_report faults moment tsv)) (clear_json moment a b c d)
      ∙ clear_tsv moment none b c d

  remove_json :
      (a b c d : Option String) → remove faults json (disk_of a b c d) ≡ (disk_of a b none d, ok tt)
  remove_json a b none d = refl
  remove_json a b (some c) d = rw (deletable.1 json) refl

  remove_tsv :
      (a b c d : Option String) → remove faults tsv (disk_of a b c d) ≡ (disk_of a b c none, ok tt)
  remove_tsv a b c none = refl
  remove_tsv a b c (some d) = rw (deletable.1 tsv) refl

  remove_staged_empty :
      (a b c d : Option String)
      → remove_staged faults (disk_of a b c d) ≡ (disk_of a b none none, ok tt)
  remove_staged_empty a b c d =
      ap (λ r. continue r (remove faults tsv)) (remove_json a b c d) ∙ remove_tsv a b none d

  -- What is done after an exception.
  cleanup :
      (a b c d : Option String) (error : Error)
      → finally_remove faults (or_clear faults publishing (disk_of a b c d, err error))
        ≡ (disk_of none none none none, err error)
  cleanup a b c d error =
      ap (λ r. finally_remove faults (continue r (λ cleared. (cleared, err error))))
        (clear_reports_empty publishing a b c d)
      ∙ ap (λ r. continue r (λ cleaned. (cleaned, err error))) (remove_staged_empty none none c d)

  -- Both reports, or an exception and none; no temporary file either way.
  abbrev pub IsPublished : (json_content tsv_content : String) → Disk × Outcome (Unit {0}) → Type 0
  IsPublished json_content tsv_content (disk, ok done) =
      disk ≡ disk_of (some json_content) (some tsv_content) none none
  IsPublished json_content tsv_content (disk, err error) = disk ≡ disk_of none none none none

  cleanup-IsPublished :
      (x y : String) (a b c d : Option String) (error : Error)
      → IsPublished x y
          (finally_remove faults (or_clear faults publishing (disk_of a b c d, err error)))
  cleanup-IsPublished x y a b c d error = subst (IsPublished x y) (sym (cleanup a b c d error)) refl

  replace-IsPublished :
      (x y : String) (a b : Option String)
      → IsPublished x y (
          finally_remove faults (
            or_clear faults publishing (
              continue (replace faults json (disk_of a b (some x) (some y))) (replace faults tsv))))
  replace-IsPublished x y a b = elim (Option-cases (faults.replacing json)) [
    | inr (error, fails) ↦ rw fails (cleanup-IsPublished x y a b (some x) (some y) error)
    | inl works ↦ rw works (elim (Option-cases (faults.replacing tsv)) [
      | inr (error, fails) ↦ rw fails (cleanup-IsPublished x y (some x) b none (some y) error)
      | inl works ↦ rw works refl
    ])
  ]

  stage_tsv-IsPublished :
      (x y : String) (a b : Option String) (result : Staging)
      → IsPublished x y (
          finally_remove faults (
            or_clear faults publishing (
              continue
                (continue
                  (stage_with faults result tsv y (disk_of a b (some x) none))
                  (replace faults json))
                (replace faults tsv))))
  stage_tsv-IsPublished x y a b staged = replace-IsPublished x y a b
  stage_tsv-IsPublished x y a b (unmade error) = cleanup-IsPublished x y a b (some x) none error
  stage_tsv-IsPublished x y a b (partly written error) =
      cleanup-IsPublished x y a b (some x) (some written) error

  stage_json-IsPublished :
      (x y : String) (a b : Option String) (result : Staging)
      → IsPublished x y (
          finally_remove faults (
            or_clear faults publishing (
              continue
                (continue
                  (continue
                    (stage_with faults result json x (disk_of a b none none))
                    (stage faults tsv y))
                  (replace faults json))
                (replace faults tsv))))
  stage_json-IsPublished x y a b staged = stage_tsv-IsPublished x y a b (faults.staging tsv)
  stage_json-IsPublished x y a b (unmade error) = cleanup-IsPublished x y a b none none error
  stage_json-IsPublished x y a b (partly written error) =
      cleanup-IsPublished x y a b (some written) none error

  pub publish_reports-IsPublished :
      (x y : String) (a b : Option String)
      → IsPublished x y (publish_reports faults x y (disk_of a b none none))
  unfolding publish_reports
  publish_reports-IsPublished x y a b = stage_json-IsPublished x y a b (faults.staging json)
