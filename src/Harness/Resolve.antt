-- ===== src/Harness/Resolve.antt =====
-- `resolve` of reports/issue-0154/tools/harness/engines.py: the local file of an external entity.
pub mod Inside
mod Tests
use Prim.Native.Char.{code}
use Prim.Native.String
use xpact.Prelude.{
  ℕ, String, Bool, true, false, not, ◌||◌, Option, none, some, List, [], ◌∷◌, ◌==◌, starts_with,
  any, nat_eq, chars, if◌then◌else◌,
}

-- What `pathlib` and `str.lower` answer.
pub record Paths : Type 0 where
  pub parent : String → String
  pub join : String → String → String
  pub resolve : String → String
  pub is_file : String → Bool
  pub lower : String → String

-- `character in text`, by the code point.
abbrev pub holds : ℕ → String → Bool
holds n text = any (λ c. nat_eq (code c) n) (chars text)

-- An identifier that is absolute, has a scheme or a drive, or a fragment.
unfoldable pub foreign : String → Bool
foreign system_id =
    system_id == ""
    || (starts_with system_id "/"
        || (starts_with system_id "\\" || (holds 58 system_id || holds 35 system_id)))

abbrev pub base_dir : Paths → String → Option String → String
base_dir paths entity_root none = entity_root
base_dir paths entity_root (some base) = if base == "" then entity_root else paths.parent base

abbrev pub target : Paths → String → Option String → String → String
target paths entity_root base system_id =
    paths.resolve (paths.join (base_dir paths entity_root base) system_id)

-- `str(target).lower().startswith(str(root).lower())`
abbrev pub inside : Paths → String → String → Bool
inside paths entity_root path =
    starts_with (paths.lower path) (paths.lower (paths.resolve entity_root))

unfoldable pub resolve : Paths → Option String → Option String → Option String → Option String
unfolding foreign
resolve paths none base system_id = none
resolve paths (some entity_root) base none = none
resolve paths (some entity_root) base (some system_id) =
    if foreign system_id
    then none
    else if not (inside paths entity_root (target paths entity_root base system_id))
    then none
    else if paths.is_file (target paths entity_root base system_id)
    then some (target paths entity_root base system_id)
    else none
