-- ===== src/Conformance/Archive/Safe.antt =====
-- What is extracted, and what stays in the cache.
use xpact.Prelude.{
  ℕ, String, ◌≡◌, ◌⊎◌, inl, inr, refl, ap, ◌∙◌, subst, Bool, true, false, not, ◌||◌, Option, none,
  some, List, [], ◌∷◌, ◌++◌, All, ||-false, ◌==◌, ◌<>◌, arith, eq_iff,
}
use xpact.Prelude.Outcome.{Outcome, ok, err, Error, >>=-eq-ok, ok_inj, refused, refuse, ◌>>◌}
use xpact.Conformance.Runner.{Disk}
use xpact.Conformance.Catalog.{Site, contained_path}
use xpact.Conformance.Archive.{
  suite_sha256, Member, Download, fetched, broken, Outside, Cache, first_members, has_char, is_link,
  verify_archive, validate_members, extractall, extracted_to, accepted_members, unpacked,
  extract_archive, verified, kept, downloaded, suite_in, made, prepare_suite,
}

pinned : (b : Bool) (e : Error) (done : Unit {0}) → refuse (not b) e ≡ ok done → b ≡ true
pinned true e done h = refl
pinned false e done h = cc

module _ (disk : Disk) (site : Site) (outside : Outside) (cache_dir : String) where
  abbrev pub IsPinned : String → Type 0
  IsPinned content = site.digest content ≡ suite_sha256

  -- A member that is no link, and whose path, without a backslash or colon, stays below the directory.
  abbrev pub IsContained : Member → Type 0
  IsContained member =
      (has_char 92 member.filename ≡ false)
      × (has_char 58 member.filename ≡ false)
      × (is_link member ≡ false)
      × (disk.is_relative_to (disk.resolve (site.join cache_dir member.filename))
            (disk.resolve cache_dir)
          ≡ true)

  abbrev pub IsAccepted : Cache → String → List Member → Type 0
  IsAccepted after content members =
      (after.archive ≡ some content)
      × IsPinned content
      × (outside.infolist content ≡ ok members)
      × All IsContained members

  -- The archive is the one that was there, or a pinned one where there was none.
  abbrev pub IsKept : (before after : Cache) → Type 0
  IsKept before after =
      (after.archive ≡ before.archive)
      ⊎ ((before.archive ≡ none)
          × (content : String) × (after.archive ≡ some content)
          × IsPinned content)

  abbrev pub IsSafe : Cache → Cache × Outcome String → Type 0
  IsSafe before (after, ok path) =
      (after.temporary ≡ none)
      × IsKept before after
      × (path ≡ cache_dir <> "/xmlconf")
      × (content : String) × (members : List Member) × IsAccepted after content members
      × (after.extracted ≡ before.extracted ++ members)
  IsSafe before (after, err raised) =
      (after.temporary ≡ none)
      × IsKept before after
      × ((after.extracted ≡ before.extracted)
          ⊎ ((content : String) × (members : List Member) × (n : ℕ) × IsAccepted after content
                members
              × (after.extracted ≡ before.extracted ++ first_members n members)))

  verify_archive-IsPinned :
      (content : String) (done : Unit {0})
      → verify_archive disk site outside cache_dir content ≡ ok done
      → IsPinned content
  unfolding verify_archive
  verify_archive-IsPinned content done h =
      (eq_iff (site.digest content) suite_sha256).0
        (pinned (site.digest content == suite_sha256) _ done h)

  validate_members-AreContained :
      (members : List Member) (done : Unit {0})
      → validate_members disk site outside cache_dir members ≡ ok done
      → All IsContained members
  unfolding validate_members contained_path
  validate_members-AreContained [] done h = tt
  validate_members-AreContained (item ∷ items) done h =
      let (named, h1) =
        refused (has_char 92 item.filename || has_char 58 item.filename) _ _ done h in
      let (path, e2, h2) =
        >>=-eq-ok (contained_path disk site cache_dir (site.join cache_dir item.filename)) _ h1 in
      let (plain, h3) = refused (is_link item) _ _ done h2 in
      let (below, e4) =
        refused
          (not (
            disk.is_relative_to (disk.resolve (site.join cache_dir item.filename))
              (disk.resolve cache_dir)))
          _ _ path e2 in
      let (backslash, colon) =
        ||-false (has_char 92 item.filename) (has_char 58 item.filename) named in
      (
        (backslash, colon, plain, ground (arith, below)),
        validate_members-AreContained items done h3,
      )

  extracted_to-IsSafe :
      (before cache : Cache) (content : String) (members : List Member) (fault : Option (ℕ × Error))
      → cache.temporary ≡ none
      → IsKept before cache
      → cache.extracted ≡ before.extracted
      → IsAccepted cache content members
      → IsSafe before (
          extracted_to disk site outside cache_dir cache
            (extractall disk site outside cache_dir fault members))
  extracted_to-IsSafe before cache content members none clean kept same accepted =
      (clean, kept, refl, content, members, accepted, ap (λ e. e ++ members) same)
  extracted_to-IsSafe before cache content members (some (n, raised)) clean kept same accepted = (
    clean,
    kept,
    inr (content, members, n, accepted, ap (λ e. e ++ first_members n members) same),
  )

  unpacked-IsSafe :
      (before cache : Cache) (content : String) (result : Outcome (List Member))
      → cache.temporary ≡ none
      → IsKept before cache
      → cache.extracted ≡ before.extracted
      → cache.archive ≡ some content
      → IsPinned content
      → accepted_members disk site outside cache_dir content ≡ result
      → IsSafe before (unpacked disk site outside cache_dir cache result)
  unpacked-IsSafe before cache content (err raised) clean kept same stored pinned h =
      (clean, kept, inl same)
  unpacked-IsSafe before cache content (ok members) clean kept same stored pinned h =
      let (listed, e1, h1) = >>=-eq-ok (outside.infolist content) _ h in
      let (done, e2, h2) = >>=-eq-ok (validate_members disk site outside cache_dir listed) _ h1 in
      let all_contained =
        subst (All IsContained) (ok_inj listed members h2)
          (validate_members-AreContained listed done e2) in
      extracted_to-IsSafe before cache content members outside.extract_fault clean kept same
        (stored, pinned, e1 ∙ h2, all_contained)

  verified-IsSafe :
      (before cache : Cache) (content : String) (result : Outcome (Unit {0}))
      → cache.temporary ≡ none
      → IsKept before cache
      → cache.extracted ≡ before.extracted
      → cache.archive ≡ some content
      → verify_archive disk site outside cache_dir content ≡ result
      → IsSafe before (verified disk site outside cache_dir cache content result)
  unfolding extract_archive
  verified-IsSafe before cache content (err raised) clean kept same stored h =
      (clean, kept, inl same)
  verified-IsSafe before cache content (ok done) clean kept same stored h =
      unpacked-IsSafe before cache content (accepted_members disk site outside cache_dir content)
        clean kept same stored (verify_archive-IsPinned content done h) refl

  kept-IsSafe :
      (before : Cache) (content : String) (result : Outcome (Unit {0}))
      → before.archive ≡ none
      → (verify_archive disk site outside cache_dir content >> outside.replace) ≡ result
      → IsSafe before (kept disk site outside cache_dir before content result)
  kept-IsSafe before content (err raised) missing h = (refl, inl refl, inl refl)
  kept-IsSafe before content (ok done) missing h =
      let (t, e1, h1) = >>=-eq-ok (verify_archive disk site outside cache_dir content) _ h in
      let stored = record before { archive = some content; temporary = none } in
      verified-IsSafe before stored content (verify_archive disk site outside cache_dir content)
        refl (inr (missing, content, refl, verify_archive-IsPinned content t e1)) refl refl refl

  downloaded-IsSafe :
      (before : Cache) (download : Download)
      → before.archive ≡ none
      → IsSafe before (downloaded disk site outside cache_dir before download)
  downloaded-IsSafe before (broken part raised) missing = (refl, inl refl, inl refl)
  downloaded-IsSafe before (fetched content) missing =
      kept-IsSafe before content
        (verify_archive disk site outside cache_dir content >> outside.replace) missing refl

  suite_in-IsSafe :
      (before : Cache) (archive : Option String)
      → before.archive ≡ archive
      → before.temporary ≡ none
      → IsSafe before (suite_in disk site outside cache_dir before archive)
  suite_in-IsSafe before (some content) h clean =
      verified-IsSafe before before content (verify_archive disk site outside cache_dir content)
        clean (inl refl) refl h refl
  suite_in-IsSafe before none h clean = downloaded-IsSafe before outside.download h

  made-IsSafe :
      (before : Cache) (result : Outcome (Unit {0}))
      → before.temporary ≡ none
      → IsSafe before (made disk site outside cache_dir before result)
  made-IsSafe before (err raised) clean = (clean, inl refl, inl refl)
  made-IsSafe before (ok done) clean = suite_in-IsSafe before before.archive refl clean

  -- If no temporary file is there before, then whatever is downloaded, cached or fails: no
  -- temporary file is left; the cached archive stays as it is, or one with the pinned hash is added where there was none; and members are extracted only from
  -- an archive with that hash of which every member is contained in the directory, all of them if the
  -- path of the suite is returned.
  pub prepare_suite-IsSafe :
      (before : Cache)
      → before.temporary ≡ none
      → IsSafe before (prepare_suite disk site outside cache_dir before)
  unfolding prepare_suite
  prepare_suite-IsSafe before clean = made-IsSafe before outside.mkdir clean
