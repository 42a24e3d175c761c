-- ===== src/Benchmark/Workloads/Range.antt =====
-- The workloads start with numbers of iterations that `positive_int` allows.
use xpact.Prelude.{
  ℕ, suc, ◌≡◌, subst, ◌==◌, ◌<>◌, inl, inr, String, List, [], ◌∷◌, All, All-append, Bool-cases,
}
use xpact.Prelude.Outcome.{Outcome, ok, err, ◌>>=◌}
use xpact.Benchmark.Options.{Options, Site}
use xpact.Benchmark.Options.Range.{InRange, IsParsed}
use xpact.Benchmark.Sample.{Workload}
use xpact.Conformance.Reports.{unique}
use xpact.Benchmark.Workloads.{
  text_document, attributes_document, selected, file_workloads, fixture, files, workloads_of,
  all_workloads, prepare_workloads,
}

abbrev pub IsStarted : Workload → Type 0
IsStarted workload = InRange workload.iterations

-- What succeeds has workloads in range.
abbrev Starts : Outcome (List Workload) → Type 0
Starts (ok workloads) = All IsStarted workloads
Starts (err error) = Unit

step-Starts :
    {A : Type 0} (m : Outcome A) (next : A → Outcome (List Workload))
    → ((a : A) → Starts (next a))
    → Starts (m >>= next)
step-Starts (ok a) next h = h a
step-Starts (err error) next h = tt

later-Starts :
    (m : Outcome (List Workload)) (next : List Workload → Outcome (List Workload))
    → Starts m
    → ((workloads : List Workload) → All IsStarted workloads → Starts (next workloads))
    → Starts (m >>= next)
later-Starts (ok workloads) next h k = k workloads h
later-Starts (err error) next h k = tt

module _ {F : Type 0} (site : Site) (options : Options F) (parsed : IsParsed options) where
  file_workloads-Starts :
      (index : ℕ) (paths : List String) → Starts (file_workloads site options index paths)
  file_workloads-Starts index [] = tt
  file_workloads-Starts index (path ∷ paths) = step-Starts (site.size path) _ (λ size.
      later-Starts (file_workloads site options (suc index) paths) _
        (file_workloads-Starts (suc index) paths) (λ more h. (parsed.xml_iterations, h)))

  fixture-Starts : (name content : String) → Starts (fixture site options name content)
  fixture-Starts name content =
      step-Starts (site.write (options.output_dir <> "/fixtures/" <> name <> ".xml") content) _
        (λ done. (parsed.file_iterations, tt))

  files-Starts : (paths : List String) → Starts (files site options paths)
  files-Starts [] = tt
  files-Starts (path ∷ paths) = file_workloads-Starts 1 (unique (path ∷ paths))

  workloads_of-Starts : (name : String) → Starts (workloads_of site options name)
  unfolding workloads_of
  workloads_of-Starts name = elim (Bool-cases (name == "catalog")) [
    | inl e ↦ rw e (parsed.iterations, tt)
    | inr e ↦ rw e (elim (Bool-cases (name == "text")) [
      | inl f ↦ rw f (fixture-Starts name text_document)
      | inr f ↦ rw f (elim (Bool-cases (name == "attributes")) [
        | inl g ↦ rw g (fixture-Starts name attributes_document)
        | inr g ↦ rw g (files-Starts options.xml_file)
      ])
    ])
  ]

  all_workloads-Starts : (names : List String) → Starts (all_workloads site options names)
  unfolding all_workloads
  all_workloads-Starts [] = tt
  all_workloads-Starts (name ∷ names) =
      later-Starts (workloads_of site options name) _ (workloads_of-Starts name) (λ first h.
        later-Starts (all_workloads site options names) _ (all_workloads-Starts names)
          (λ more k. All-append IsStarted first more h k))

  pub prepare_workloads-IsStarted :
      (workloads : List Workload)
      → prepare_workloads site options ≡ ok workloads
      → All IsStarted workloads
  unfolding prepare_workloads
  prepare_workloads-IsStarted workloads h =
      subst Starts h (all_workloads-Starts (unique (selected options.workload options.xml_file)))
