-- ===== src/Conformance/Known/Tabs.antt =====
-- The fields of a line come back from it, if none of them holds a tab.
use Prim.Native.Char.{Char, code}
use Prim.Native.String
use text.Mathlib.TextLemmas.{cons-append, cons-ne-nil, nil-append, head-eq_of_cons-eq}
use text.Mathlib.TextEquality.{starts_with_iff}
use xpact.Prelude.{
  String, ◌≡◌, ◌≢◌, refl, sym, ◌∙◌, ap, Bool, false, ◌||◌, [], ◌∷◌, arith, starts_with, ◌<>◌,
  nat_eq, any, chars, inl, inr, Bool-cases, ||-false,
}
use xpact.Prelude.Csv.{is_special, field}
use xpact.Conformance.Known.{split_tabs}

abbrev pub has_tab : String → Bool
has_tab String.[] = false
has_tab (String.◌∷◌ c s) = nat_eq (code c) 9 || has_tab s

abbrev pub NoTab : String → Type 0
NoTab s = has_tab s ≡ false

-- A text that csv writes as it is, and reads.
abbrev pub is_unsafe : Char → Bool
is_unsafe c = nat_eq (code c) 0 || is_special c

abbrev pub IsText : String → Type 0
IsText s = any is_unsafe (chars s) ≡ false

pub NoTab-of_text : (s : String) → IsText s → NoTab s
NoTab-of_text String.[] h = refl
NoTab-of_text (String.◌∷◌ c s) h =
    let (now, later) = ||-false (is_unsafe c) (any is_unsafe (chars s)) h in
    rw (NoTab-of_text s later) (ground arith)

any-is_special : (s : String) → IsText s → any is_special (chars s) ≡ false
any-is_special String.[] h = refl
any-is_special (String.◌∷◌ c s) h =
    let (now, later) = ||-false (is_unsafe c) (any is_unsafe (chars s)) h in
    rw (any-is_special s later) (ground arith)

pub field-text : (s : String) → IsText s → field s ≡ s
field-text s h = rw (any-is_special s h) refl

-- A first field that makes no comment of its line.
abbrev pub IsName : String → Type 0
IsName String.[] = ⊥
IsName (String.◌∷◌ c s) = (nat_eq (code c) 35 ≡ false) × IsText (String.◌∷◌ c s)

pub split_tabs-one : (s : String) → NoTab s → split_tabs s ≡ s ∷ []
unfolding split_tabs
split_tabs-one String.[] h = refl
split_tabs-one (String.◌∷◌ c s) h =
    let (now, later) = ||-false (nat_eq (code c) 9) (has_tab s) h in
    rw (now, split_tabs-one s later)

-- A text of one character in front of another.
append_one : (c : Char) (s : String) → String.◌++◌ (String.◌∷◌ c "") s ≡ String.◌∷◌ c s
append_one c s = cons-append c "" s ∙ ap (String.◌∷◌ c) (nil-append s)

pub split_tabs-field :
    (s rest : String) → NoTab s → split_tabs (s <> "\t" <> rest) ≡ s ∷ split_tabs rest
unfolding split_tabs
split_tabs-field String.[] rest h = rw (nil-append, append_one "\t" rest)
split_tabs-field (String.◌∷◌ c s) rest h =
    let (now, later) = ||-false (nat_eq (code c) 9) (has_tab s) h in
    rw (cons-append c s ("\t" <> rest), now, split_tabs-field s rest later)

pub name-ne-empty : (s : String) → IsName s → s ≢ ""
name-ne-empty String.[] h e = h
name-ne-empty (String.◌∷◌ c s) h e = cons-ne-nil c s e

pub IsText-of_name : (s : String) → IsName s → IsText s
IsText-of_name String.[] h = refl
IsText-of_name (String.◌∷◌ c s) h = h.1

pub not-comment : (s rest : String) → IsName s → starts_with (s <> rest) "#" ≡ false
not-comment String.[] rest h = absurd h
not-comment (String.◌∷◌ c s) rest h = elim (Bool-cases (starts_with (String.◌∷◌ c s <> rest) "#")) [
  | inr no_comment ↦ no_comment
  | inl comment ↦
      let (rest', same) = (starts_with_iff (String.◌∷◌ c s <> rest) "#").0 comment in
      let same_head =
        head-eq_of_cons-eq (sym (append_one "#" rest') ∙ same ∙ cons-append c s rest) in
      ground (arith, ap code same_head)
]

pub name-append-ne-empty : (s rest : String) → IsName s → s <> rest ≢ ""
name-append-ne-empty String.[] rest h e = h
name-append-ne-empty (String.◌∷◌ c s) rest h e =
    cons-ne-nil c (s <> rest) (sym (cons-append c s rest) ∙ e)
