-- ===== src/Benchmark/Comparison/Final.antt =====
-- How a comparison can end, and what is then in the output directory.
use xpact.Prelude.{
  ◌≡◌, ◌⊎◌, inl, inr, refl, sym, ap, ◌∙◌, subst, String, Option, none, some, List, [], ◌∷◌, All,
}
use xpact.Prelude.Outcome.{Outcome, ok, err, Error, >>=-eq-ok, ok_inj}
use xpact.Benchmark.Options.{Float, Options, Given, Site, parse_args, preflight_inputs}
use xpact.Benchmark.Options.Range.{IsParsed, parse_args-IsParsed}
use xpact.Benchmark.Sample.{Workload, World, Processes}
use xpact.Benchmark.Workloads.Range.{IsStarted, prepare_workloads-IsStarted}
use xpact.Benchmark.Workloads.{prepare_workloads}
use xpact.Benchmark.Measure.{Ending, returns, raises, exhausted, compare_workload}
use xpact.Benchmark.Measure.Steps.{Ends, >>=-Ends}
use xpact.Benchmark.Measure.Pairs.{IsCompared, compare_workload-IsCompared}
use xpact.Benchmark.Publish.{Disk, Faults, before, after, clear_reports, publish_reports}
use xpact.Benchmark.Publish.AllOrNothing.{
  IsDeletable, disk_of, clear_reports_empty, IsPublished, publish_reports-IsPublished,
}
use xpact.Benchmark.Comparison.{
  Metadata, Report, table, describe, prepare, extended, compare_all, prepared, raise_again,
  published, finish, cleared, guarded, run_comparison,
}

module _ {F : Type 0} (float : Float F) (processes : Processes F) (site : Site)
    (options : Options F) (parsed : IsParsed options) where
  compare_all-Ends :
      (report : Report F) (workloads : List Workload) (world : World)
      → All IsStarted workloads
      → Ends
          (λ after report. Unit {0})
          (compare_all float processes site options report workloads world)
  unfolding compare_all
  compare_all-Ends report [] world h = tt
  compare_all-Ends report (workload ∷ workloads) world (range, h) =
      >>=-Ends (IsCompared float processes options workload world.ran) (λ after report. Unit {0})
        (compare_workload float processes options workload)
        (λ measured.
          compare_all float processes site options
            (extended float processes site options report measured) workloads)
        world (compare_workload-IsCompared float processes options workload world range.0 range.1)
        (λ mid measured t.
          compare_all-Ends (extended float processes site options report measured) workloads mid h)

  prepare-IsStarted :
      (metadata : Metadata F) (workloads : List Workload)
      → prepare float processes site options ≡ ok (metadata, workloads)
      → All IsStarted workloads
  unfolding prepare
  prepare-IsStarted metadata workloads h =
      let (baseline, e1, h1) = >>=-eq-ok (site.hash options.baseline) _ h in
      let (candidate, e2, h2) = >>=-eq-ok (site.hash options.candidate) _ h1 in
      let (found, e3, h3) = >>=-eq-ok (prepare_workloads site options) _ h2 in
      let (described, e4, h4) = >>=-eq-ok (describe site found) _ h3 in
      subst (All IsStarted) (ap (λ (p : Metadata F × List Workload). p.1) (ok_inj _ _ h4))
        (prepare_workloads-IsStarted site options parsed found e3)

  prepared-Ends :
      (result : Outcome (Metadata F × List Workload)) (world : World)
      → prepare float processes site options ≡ result
      → Ends (λ after report. Unit {0}) (prepared float processes site options result world)
  prepared-Ends (err error) world e = tt
  prepared-Ends (ok (metadata, workloads)) world e =
      compare_all-Ends
        (record { metadata = metadata; calibration = []; results = []; summary = [] }) workloads
        world (prepare-IsStarted metadata workloads e)

module _ {F : Type 0} (float : Float F) (processes : Processes F) (site : Site) (faults : Faults)
    (dumps : Report F → String) (options : Options F) where
  -- Nothing was done: an input aliases a report, or the directory cannot be made.
  abbrev pub IsRefused : Outcome (Unit {0}) → Error → Type 0
  IsRefused making error =
      (preflight_inputs site options ≡ err error)
      ⊎ ((preflight_inputs site options ≡ ok tt) × (making ≡ err error))

  -- The reports of a run that returns, none after one that raises, unless nothing was done.
  abbrev pub IsFinal :
      Outcome (Unit {0}) → World → Disk → World × (Disk × Ending (Report F)) → Type 0
  IsFinal making world disk (last, (left, returns report)) =
      left ≡ disk_of (some (dumps report)) (some (table float report.results)) none none
  IsFinal making world disk (last, (left, raises error)) =
      (left ≡ disk_of none none none none)
      ⊎ ((left ≡ disk) × (last ≡ world) × IsRefused making error)
  IsFinal making world disk (last, (left, exhausted)) = ⊥

  module _ (deletable : IsDeletable faults) (making : Outcome (Unit {0})) (world : World)
      (disk : Disk) where
    raise_again-IsFinal :
        (last : World) (error : Error) (a b : Option String)
        → IsFinal making world disk (
          last,
          raise_again float processes site faults dumps options error
              (clear_reports faults after (disk_of a b none none)),
        )
    raise_again-IsFinal last error a b =
        subst
          (λ r.
            IsFinal making world disk
              (last, raise_again float processes site faults dumps options error r))
          (sym (clear_reports_empty faults deletable after a b none none)) (inl refl)

    published-IsFinal :
        (last : World) (report : Report F) (r : Disk × Outcome (Unit {0}))
        → IsPublished faults deletable (dumps report) (table float report.results) r
        → IsFinal making world disk
            (last, published float processes site faults dumps options report r)
    published-IsFinal last report (left, ok done) h = h
    published-IsFinal last report (left, err error) h =
        subst
          (λ d.
            IsFinal making world disk
              (last, published float processes site faults dumps options report (d, err error)))
          (sym h) (raise_again-IsFinal last error none none)

    finish-IsFinal :
        (result : World × Ending (Report F))
        → Ends (λ after report. Unit {0}) result
        → IsFinal making world disk
            (finish float processes site faults dumps options (disk_of none none none none) result)
    finish-IsFinal (last, returns report) h =
        published-IsFinal last report
          (publish_reports faults (dumps report) (table float report.results)
            (disk_of none none none none))
          (publish_reports-IsPublished faults deletable (dumps report) (table float report.results)
            none none)
    finish-IsFinal (last, raises error) h = raise_again-IsFinal last error none none
    finish-IsFinal (last, exhausted) h = elim h [ ]

    guarded-IsFinal :
        (checked : Outcome (Unit {0}))
        → IsParsed options
        → (a b : Option String) → disk ≡ disk_of a b none none
        → preflight_inputs site options ≡ checked
        → IsFinal making world disk
            (guarded float processes site faults dumps options checked making world disk)
    guarded-IsFinal (err error) parsed a b same e = inr (refl, refl, inl e)
    guarded-IsFinal (ok done) parsed a b same e = made making refl
      where
        made :
            (result : Outcome (Unit {0}))
            → making ≡ result
            → IsFinal making world disk
                (guarded float processes site faults dumps options (ok done) result world disk)
        made (err error) f = inr (refl, refl, inr (e, f))
        made (ok t) f =
            let empty =
              ap (clear_reports faults before) same
              ∙ clear_reports_empty faults deletable before a b none none in
            subst
              (λ r.
                IsFinal making world disk
                  (cleared float processes site faults dumps options world r))
              (sym empty)
              (finish-IsFinal
                (prepared float processes site options (prepare float processes site options) world)
                (prepared-Ends float processes site options parsed
                  (prepare float processes site options) world refl))

module _ {F : Type 0} (float : Float F) (processes : Processes F) (site : Site) (faults : Faults)
    (dumps : Report F → String) (default_dir : String) (given : Given F) (options : Options F)
    (parses : parse_args float site.resolve default_dir given ≡ ok options)
    (deletable : IsDeletable faults) where
  -- With options that `parse_args` accepts, no temporary files at first, and files that can be
  -- deleted, a comparison ends, whatever its processes do: it returns a report, and both files hold
  -- it; or it raises, and neither file nor a temporary one is left; or it raises before it has done
  -- anything, since an input aliases a generated file or the directory cannot be made, and then
  -- nothing is changed and no process was run.
  pub run_comparison-IsFinal :
      (making : Outcome (Unit {0})) (world : World) (json_report tsv_report : Option String)
      → IsFinal float processes site faults dumps options making world
          (disk_of json_report tsv_report none none)
          (run_comparison float processes site faults dumps options making world
            (disk_of json_report tsv_report none none))
  unfolding run_comparison
  run_comparison-IsFinal making world a b =
      guarded-IsFinal float processes site faults dumps options deletable making world
        (disk_of a b none none) (preflight_inputs site options)
        (parse_args-IsParsed float site.resolve default_dir given options parses) a b refl refl
