-- ===== src/Dual/Qualification/Once.antt =====
-- What an accepted report says.
use xpact.Prelude.{
  ℕ, ◌+◌, String, ◌≡◌, refl, ap, ◌∙◌, subst, true, false, not, ◌||◌, ◌&&◌, List, [], ◌∷◌, map, ◌==◌,
  all, contains, count, length, nat_eq, All, eq_iff, arith, if◌then◌else◌, splitlines, nat_eq-eq,
  &&-true, all-contains, ◌≤◌,
}
use xpact.Prelude.Int.{ℤ, pos, negsuc, is_nat}
use xpact.Prelude.Outcome.{ok, refused, >>=-eq-ok, ok_inj}
use xpact.Conformance.Known.{split_tabs}
use xpact.Dual.Qualification.{
  qualification_cases, Metadata, Control, identity, statuses, control_of, controls_of, names_of,
  complete, expected_code, validate_rows, validate_lines, validate_qualification,
}

abbrev once : String → List String → ℕ
once name names = count (λ n. n == name) names

-- How many of the controls a name is.
abbrev matching : String → ℕ
matching n =
    (if n == "raw_utf8" then 1 else 0)
    + (if n == "raw_utf16" then 1 else 0)
    + (if n == "namespace_switch" then 1 else 0)
    + (if n == "reuse_recovery" then 1 else 0)
    + (if n == "gc_restoration" then 1 else 0)

one_control : (n : String) → contains qualification_cases n ≡ true → matching n ≡ 1
one_control n h =
    nat_eq-eq (matching n) 1
      (all-contains (λ m. nat_eq (matching m) 1) qualification_cases n refl h)

once_total :
    (names : List String)
    → all (contains qualification_cases) names ≡ true
    → once "raw_utf8" names
        + once "raw_utf16" names
        + once "namespace_switch" names
        + once "reuse_recovery" names
        + once "gc_restoration" names
      ≡ length names
once_total [] h = refl
once_total (n ∷ names) h =
    let (known, rest) =
      &&-true (contains qualification_cases n) (all (contains qualification_cases) names) h in
    omega (arith, one_control n known, once_total names rest)

once-contains :
    (name : String) (names : List String) → contains names name ≡ true → 1 ≤ once name names
once-contains name [] h = cc
once-contains name (n ∷ names) h =
    ground (arith, h, once-contains name names, eq_iff n name, eq_iff name n)

-- Each control is named, and there are as many names as controls.
pub complete-once :
    (names : List String)
    → complete names ≡ true
    → All (λ name. once name names ≡ 1) qualification_cases
complete-once names h =
    let (five, sets) =
      &&-true (nat_eq (length names) 5)
        (all (contains qualification_cases) names && all (contains names) qualification_cases) h in
    let (known, named) =
      &&-true (all (contains qualification_cases) names) (all (contains names) qualification_cases)
        sets in
    let total = once_total names known in
    let size = nat_eq-eq (length names) 5 five in
    let a = once-contains "raw_utf8" names (ground (arith, named)) in
    let b = once-contains "raw_utf16" names (ground (arith, named)) in
    let c = once-contains "namespace_switch" names (ground (arith, named)) in
    let d = once-contains "reuse_recovery" names (ground (arith, named)) in
    let e = once-contains "gc_restoration" names (ground (arith, named)) in
    (omega arith, (omega arith, (omega arith, (omega arith, (omega arith, tt)))))

-- The fields of a control's line.
abbrev pub fields_of : Control → List String
fields_of control = "XPACT_W3C_CASE" ∷ control.case_id ∷ control.status ∷ control.detail ∷ []

-- A status that is reported, with a detail.
abbrev pub IsReported : Control → Type 0
IsReported control = (contains statuses control.status ≡ true) × ((control.detail == "") ≡ false)

module _ (repr : String → String) where
  control_of-IsReported :
      (line : String) (fields : List String) (control : Control)
      → control_of repr line fields ≡ ok control
      → IsReported control × (fields ≡ fields_of control)
  unfolding control_of
  control_of-IsReported line [] control h = cc
  control_of-IsReported line (a ∷ []) control h = cc
  control_of-IsReported line (a ∷ b ∷ []) control h = cc
  control_of-IsReported line (a ∷ b ∷ c ∷ []) control h = cc
  control_of-IsReported line (a ∷ b ∷ c ∷ d ∷ e ∷ fields) control h = cc
  control_of-IsReported line (marker ∷ case_id ∷ status ∷ detail ∷ []) control h =
      let (valid, same) =
        refused
          (not (marker == "XPACT_W3C_CASE") || (not (contains statuses status) || detail == "")) _ _
          control h in
      subst (λ c. IsReported c × (marker ∷ case_id ∷ status ∷ detail ∷ [] ≡ fields_of c))
        (ok_inj (record { case_id = case_id; status = status; detail = detail }) control same)
        (
          (ground (arith, valid), ground (arith, valid)),
          ap (λ m. m ∷ case_id ∷ status ∷ detail ∷ [])
              ((eq_iff marker "XPACT_W3C_CASE").0 (ground (arith, valid))),
        )

  pub controls_of-IsReported :
      (lines : List String) (rows : List Control)
      → controls_of repr lines ≡ ok rows
      → All IsReported rows × (map split_tabs lines ≡ map fields_of rows)
  unfolding controls_of
  controls_of-IsReported [] rows h =
      subst (λ r. All IsReported r × ([] ≡ map fields_of r)) (ok_inj [] rows h) (tt, refl)
  controls_of-IsReported (line ∷ lines) rows h =
      let (control, first, h1) = >>=-eq-ok (control_of repr line (split_tabs line)) _ h in
      let (controls, later, h2) = >>=-eq-ok (controls_of repr lines) _ h1 in
      let (reported, fields) = control_of-IsReported line (split_tabs line) control first in
      let (rest, more) = controls_of-IsReported lines controls later in
      subst (λ r. All IsReported r × (split_tabs line ∷ map split_tabs lines ≡ map fields_of r))
        (ok_inj (control ∷ controls) rows h2) ((reported, rest), rw (fields, more) refl)

is_nat-eq : (code : ℤ) (n : ℕ) → is_nat code n ≡ true → code ≡ pos n
is_nat-eq (pos m) n h = ap pos (nat_eq-eq m n h)
is_nat-eq (negsuc m) n h = cc

-- What the output says, if it is accepted.
pub record IsAccepted (output : String) (metadata : Metadata) (returncode : ℤ) (rows : List Control)
    : Type 0 where
  pub lines : List String
  pub printed : splitlines output ≡ identity metadata ∷ lines
  pub reported : All IsReported rows
  pub one_by_one : map split_tabs lines ≡ map fields_of rows
  pub once_each : All (λ name. once name (names_of rows) ≡ 1) qualification_cases
  pub code : returncode ≡ pos (expected_code rows)

module _ (repr : String → String) (metadata : Metadata) (returncode : ℤ) (rows : List Control) where
  lines-IsAccepted :
      (output : String) (text : List String)
      → splitlines output ≡ text
      → validate_lines repr text metadata returncode ≡ ok rows
      → IsAccepted output metadata returncode rows
  unfolding validate_lines validate_rows
  lines-IsAccepted output [] split h = cc
  lines-IsAccepted output (first ∷ lines) split h =
      let (same, h1) = refused (not (first == identity metadata)) _ _ rows h in
      let (found, read, h2) = >>=-eq-ok (controls_of repr lines) _ h1 in
      let (each, h3) = refused (not (complete (names_of found))) _ _ rows h2 in
      let (agrees, h4) = refused (not (is_nat returncode (expected_code found))) _ _ rows h3 in
      let (reported, fields) = controls_of-IsReported repr lines found read in
      subst (IsAccepted output metadata returncode) (ok_inj found rows h4) (record {
        lines = lines;
        printed =
            split
            ∙ ap (λ text. text ∷ lines)
                ((eq_iff first (identity metadata)).0 (ground (arith, same)));
        reported = reported;
        one_by_one = fields;
        once_each = complete-once (names_of found) (ground (arith, each));
        code = is_nat-eq returncode (expected_code found) (ground (arith, agrees));
      })

  -- Output that is accepted starts with the identity of the build, and its other lines are the
  -- controls, line by line, each with PASS or FAIL and a detail. Every one of the five controls is
  -- reported exactly once, and the exit code is 1 if one of them failed and 0 if none did.
  pub validate_qualification-IsAccepted :
      (output : String)
      → validate_qualification repr output metadata returncode ≡ ok rows
      → IsAccepted output metadata returncode rows
  unfolding validate_qualification
  validate_qualification-IsAccepted output h = lines-IsAccepted output (splitlines output) refl h
