-- ===== src/Jenkins/Publication/Directory.antt =====
-- What writing and clearing do to the files of the directory.
use mathlib.Core.List.{append-nil, append_assoc}
use xpact.Prelude.{
  String, ◌≡◌, refl, sym, ap, ◌∙◌, subst, Bool, true, false, not, Option, List, [], ◌∷◌, ◌++◌, map,
  all, all-append, keep, keep-append, keep-keep, keep-all, all-keep_of, ◌==◌, contains, arith,
  eq_iff, inl, inr, Option-cases,
}
use xpact.Prelude.Outcome.{Outcome, ok, Error}
use xpact.Jenkins.Junit.{distinct}
use xpact.Jenkins.Publication.{report_files, File, is_report, clear_reports, replace, write_all}

module _ {F : Type 0} where
  pub clear_reports-twice :
      (files : List (File F)) → clear_reports (clear_reports files) ≡ clear_reports files
  unfolding clear_reports
  clear_reports-twice files =
      keep-keep (λ f. not (is_report f)) (λ f. not (is_report f)) files (λ f h. h)

  -- A file of another name is kept.
  is_report-name : (a b : File F) → (a.0 == b.0) ≡ true → is_report a ≡ is_report b
  unfolding is_report
  is_report-name a b h = ap (contains report_files) ((eq_iff a.0 b.0).0 h)

  -- Writing a report changes nothing of the other files.
  clear_reports-replace :
      (file : File F) (files : List (File F))
      → is_report file ≡ true
      → clear_reports (replace file files) ≡ clear_reports files
  unfolding clear_reports replace
  clear_reports-replace file files h =
      keep-append (λ f. not (is_report f)) (keep (λ f. not (f.0 == file.0)) files) (file ∷ [])
      ∙ rw h (
          append-nil (keep (λ f. not (is_report f)) (keep (λ f. not (f.0 == file.0)) files))
          ∙ keep-keep (λ f. not (is_report f)) (λ f. not (f.0 == file.0)) files
              (λ f kept. ground (arith, kept, h, is_report-name f file)))

  -- No file has the name of this one.
  abbrev pub absent : List (File F) → File F → Bool
  absent files file = all (λ (f : File F). not (f.0 == file.0)) files

  pub absent-clear_reports :
      (file : File F) (files : List (File F))
      → is_report file ≡ true
      → absent (clear_reports files) file ≡ true
  unfolding clear_reports
  absent-clear_reports file files h =
      all-keep_of (λ f. not (f.0 == file.0)) (λ f. not (is_report f)) files
        (λ f other. ground (arith, other, h, is_report-name f file))

  absent-append :
      (file : File F) (files more : List (File F))
      → all (absent files) more ≡ true
      → contains (map (λ (f : File F). f.0) more) file.0 ≡ false
      → all (absent (files ++ (file ∷ []))) more ≡ true
  absent-append file files [] h k = refl
  absent-append file files (other ∷ more) h k = ground (
    arith,
    h,
    k,
    eq_iff file.0 other.0,
    eq_iff other.0 file.0,
    all-append (λ (f : File F). not (f.0 == other.0)) files (file ∷ []),
    absent-append file files more,
  )

  replace-new :
      (file : File F) (files : List (File F))
      → absent files file ≡ true
      → replace file files ≡ files ++ (file ∷ [])
  unfolding replace
  replace-new file files h =
      ap (λ kept. kept ++ (file ∷ [])) (keep-all (λ f. not (f.0 == file.0)) files h)

  -- Files of new and different names are added in their order, if nothing fails.
  pub write_all-append :
      (fault : String → Option Error) (more files after : List (File F)) (done : Unit {0})
      → all (absent files) more ≡ true
      → distinct (map (λ (f : File F). f.0) more) ≡ true
      → write_all fault more files ≡ (after, ok done)
      → after ≡ files ++ more
  unfolding write_all
  write_all-append fault [] files after done new different h =
      sym (ap (λ (r : List (File F) × Outcome (Unit {0})). r.0) h) ∙ sym (append-nil files)
  write_all-append fault (file ∷ more) files after done new different h =
      elim (Option-cases (fault file.0)) [
        | inr (raised, failed) ↦ let stopped = rw (failed, write_all) at h in cc
        | inl fine ↦
            let added = replace-new file files (ground (arith, new)) in
            write_all-append fault more (replace file files) after done
              (subst (λ fs. all (absent fs) more ≡ true) (sym added)
                (absent-append file files more (ground (arith, new)) (ground (arith, different))))
              (ground (arith, different)) (rw (fine, write_all) at h)
            ∙ ap (λ fs. fs ++ more) added
            ∙ append_assoc files (file ∷ []) more
      ]

  -- Whatever fails, the other files stay as they are.
  pub clear_reports-write_all :
      (fault : String → Option Error) (more files : List (File F))
      → all is_report more ≡ true
      → clear_reports (write_all fault more files).0 ≡ clear_reports files
  unfolding write_all
  clear_reports-write_all fault [] files h = refl
  clear_reports-write_all fault (file ∷ more) files h = elim (Option-cases (fault file.0)) [
    | inr (raised, failed) ↦ rw (failed, write_all) refl
    | inl fine ↦
        rw (fine, write_all)
          (clear_reports-write_all fault more (replace file files) (ground (arith, h))
            ∙ clear_reports-replace file files (ground (arith, h)))
  ]
