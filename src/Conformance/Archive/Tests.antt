-- ===== src/Conformance/Archive/Tests.antt =====
-- A cache without an archive, and downloads with a plain and with a hostile member.
use xpact.Prelude.{
  ◌≡◌, refl, true, none, some, List, [], ◌∷◌, ◌==◌, ◌<>◌, starts_with, if◌then◌else◌,
}
use xpact.Prelude.Outcome.{ok, err, value_error}
use xpact.Conformance.Runner.{Disk}
use xpact.Conformance.Catalog.{Site, contained_path}
use xpact.Conformance.Catalog.Example.{site}
use xpact.Conformance.Archive.{
  suite_sha256, Member, fetched, Outside, Cache, verify_archive, validate_members, extract_archive,
  prepare_suite,
}
use xpact.Conformance.Archive.Safe.{IsSafe, prepare_suite-IsSafe}

abbrev disk : Disk
disk = record {
  is_file = λ path. true;
  is_dir = λ path. true;
  resolve = λ path. if path == "/cache/../evil" then "/evil" else path;
  is_relative_to = λ path root. starts_with path root;
}

abbrev zip_site : Site
zip_site = record site {
  join = λ root name. root <> "/" <> name;
  digest = λ content. if content == "zip" then suite_sha256 else "0";
}

abbrev plain : Member
plain = record { filename = "xmlconf/xmlconf.xml"; external_attr = 0 }

abbrev hostile : Member
hostile = record { filename = "../evil"; external_attr = 0 }

abbrev outside_with : List Member → Outside
outside_with members = record {
  mkdir = ok tt;
  download = fetched "zip";
  replace = ok tt;
  infolist = λ content. ok members;
  extract_fault = none;
}

abbrev empty : Cache
empty = record { archive = none; temporary = none; extracted = [] }

extracted_plain : prepare_suite disk zip_site (outside_with (plain ∷ [])) "/cache" empty ≡ (
  record { archive = some "zip"; temporary = none; extracted = plain ∷ [] },
  ok "/cache/xmlconf",
)
unfolding prepare_suite verify_archive validate_members extract_archive contained_path
extracted_plain = refl

refused_hostile :
    prepare_suite disk zip_site (outside_with (plain ∷ hostile ∷ [])) "/cache" empty ≡ (
      record { archive = some "zip"; temporary = none; extracted = [] },
      err (value_error "Path escapes suite directory: /cache/../evil"),
    )
unfolding prepare_suite verify_archive validate_members extract_archive contained_path
refused_hostile = refl

prepare_suite-IsSafe_example :
    IsSafe disk zip_site
      (outside_with (plain ∷ []))
      "/cache"
      empty
      (prepare_suite disk zip_site (outside_with (plain ∷ [])) "/cache" empty)
prepare_suite-IsSafe_example =
    prepare_suite-IsSafe disk zip_site (outside_with (plain ∷ [])) "/cache" empty refl
