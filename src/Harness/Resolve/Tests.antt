-- ===== src/Harness/Resolve/Tests.antt =====
-- Files beside and below a root.
use xpact.Prelude.{◌≡◌, refl, true, false, none, some, ◌==◌, ◌<>◌}
use xpact.Harness.Resolve.{Paths, foreign, resolve}

-- Every file is there; `../suite-old/x` resolves to a sibling of `/suite`.
abbrev sibling_paths : Paths
sibling_paths = record {
  parent = λ path. "/suite";
  join = λ dir name. dir <> ("/" <> name);
  resolve = λ path. elim (path == "/suite/../suite-old/x") [ true ↦ "/suite-old/x" | false ↦ path ];
  is_file = λ path. true;
  lower = λ path. path;
}

resolve-below : resolve sibling_paths (some "/suite") none (some "x.ent") ≡ some "/suite/x.ent"
unfolding resolve foreign
resolve-below = refl

resolve-sibling :
    resolve sibling_paths (some "/suite") none (some "../suite-old/x") ≡ some "/suite-old/x"
unfolding resolve foreign
resolve-sibling = refl

resolve-url : resolve sibling_paths (some "/suite") none (some "http://x") ≡ none
unfolding resolve foreign
resolve-url = refl
