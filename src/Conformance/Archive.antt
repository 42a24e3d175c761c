-- ===== src/Conformance/Archive.antt =====
-- `verify_archive`, `extract_archive` and `prepare_suite` of scripts/run_w3c_conformance.py: the pinned
-- archive of the suite, fetched or cached, verified and extracted. The download, zipfile and hashes are
-- parameters; a cached file can be read and a temporary one removed.
pub mod Safe
mod Tests
use Prim.Native.Char.{Char, code}
use Prim.Native.Nat.{◌/◌, ◌%◌}
use Prim.Native.String
use xpact.Prelude.{
  ℕ, zero, suc, String, Bool, not, ◌||◌, Option, none, some, List, [], ◌∷◌, ◌++◌, any, ◌==◌, ◌<>◌,
  chars, nat_eq,
}
use xpact.Prelude.Outcome.{Outcome, ok, err, Error, value_error, ◌>>=◌, ◌>>◌, refuse}
use xpact.Conformance.Runner.{Disk}
use xpact.Conformance.Catalog.{Site, contained_path}

abbrev pub suite_sha256 : String
suite_sha256 = "f9510b3532926e1b4c2e54855b021e4b8a66ec98a5337dcf4ff07e8a41968deb"

-- An item of `bundle.infolist()`.
pub record Member : Type 0 where
  pub filename : String
  pub external_attr : ℕ

-- A download ends with the bytes, or fails with a part of them in the temporary file.
pub data Download : Type 0 where
  fetched : (content : String) → Download
  broken : (part : Option String) → Error → Download

pub record Outside : Type 0 where
  pub mkdir : Outcome (Unit {0})
  pub download : Download
  pub replace : Outcome (Unit {0})
  pub infolist : String → Outcome (List Member)
  -- `extractall` fails after that many members.
  pub extract_fault : Option (ℕ × Error)

-- The cache directory: the archive, the temporary file, and the members extracted to it so far.
pub record Cache : Type 0 where
  pub archive : Option String
  pub temporary : Option String
  pub extracted : List Member

abbrev pub first_members : ℕ → List Member → List Member
first_members zero members = []
first_members (suc n) [] = []
first_members (suc n) (member ∷ members) = member ∷ first_members n members

abbrev pub has_char : ℕ → String → Bool
has_char n text = any (λ c. nat_eq (code c) n) (chars text)

-- `(external_attr >> 16) & 0o170000 == 0o120000`: the upper four bits of the mode.
abbrev pub is_link : Member → Bool
is_link member = nat_eq (member.external_attr / 268435456 % 16) 10

module _ (disk : Disk) (site : Site) (outside : Outside) (cache_dir : String) where
  unfoldable pub verify_archive : String → Outcome (Unit {0})
  verify_archive content = refuse (not (site.digest content == suite_sha256)) (
      value_error
        ("W3C archive SHA-256 mismatch: " <> site.digest content <> "; expected " <> suite_sha256))

  -- The loop over the members, before any is extracted.
  unfoldable pub validate_members : List Member → Outcome (Unit {0})
  unfolding contained_path
  validate_members [] = ok tt
  validate_members (item ∷ items) = do
    refuse (has_char 92 item.filename || has_char 58 item.filename)
        (value_error ("Invalid archive member: " <> item.filename))
    _ ← contained_path disk site cache_dir (site.join cache_dir item.filename)
    refuse (is_link item) (value_error ("Archive contains a symbolic link: " <> item.filename))
    validate_members items

  abbrev pub extractall : Option (ℕ × Error) → List Member → List Member × Outcome (Unit {0})
  extractall none members = (members, ok tt)
  extractall (some (n, raised)) members = (first_members n members, err raised)

  abbrev pub extracted_to : Cache → List Member × Outcome (Unit {0}) → Cache × Outcome String
  extracted_to cache (members, err raised) =
      (record cache { extracted = cache.extracted ++ members }, err raised)
  extracted_to cache (members, ok done) =
      (record cache { extracted = cache.extracted ++ members }, ok (cache_dir <> "/xmlconf"))

  abbrev pub accepted_members : String → Outcome (List Member)
  accepted_members content = do
    members ← outside.infolist content
    validate_members members
    ok members

  abbrev pub unpacked : Cache → Outcome (List Member) → Cache × Outcome String
  unpacked cache (err raised) = (cache, err raised)
  unpacked cache (ok members) = extracted_to cache (extractall outside.extract_fault members)

  unfoldable pub extract_archive : Cache → String → Cache × Outcome String
  unfolding validate_members
  extract_archive cache content = unpacked cache (accepted_members content)

  -- With the archive in place.
  abbrev pub verified : Cache → String → Outcome (Unit {0}) → Cache × Outcome String
  verified cache content (err raised) = (cache, err raised)
  verified cache content (ok done) = extract_archive cache content

  -- `finally` the temporary file is removed.
  abbrev pub kept : Cache → String → Outcome (Unit {0}) → Cache × Outcome String
  kept cache content (err raised) = (record cache { temporary = none }, err raised)
  kept cache content (ok done) =
      let stored = record cache { archive = some content; temporary = none } in
      verified stored content (verify_archive content)

  abbrev pub downloaded : Cache → Download → Cache × Outcome String
  downloaded cache (broken part raised) = (record cache { temporary = none }, err raised)
  downloaded cache (fetched content) =
      kept cache content (verify_archive content >> outside.replace)

  abbrev pub suite_in : Cache → Option String → Cache × Outcome String
  suite_in cache (some content) = verified cache content (verify_archive content)
  suite_in cache none = downloaded cache outside.download

  abbrev pub made : Cache → Outcome (Unit {0}) → Cache × Outcome String
  made cache (err raised) = (cache, err raised)
  made cache (ok done) = suite_in cache cache.archive

  unfoldable pub prepare_suite : Cache → Cache × Outcome String
  unfolding verify_archive extract_archive
  prepare_suite cache = made cache outside.mkdir
