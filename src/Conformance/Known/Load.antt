-- ===== src/Conformance/Known/Load.antt =====
-- Which known-failures lists `load_known_failures` accepts.
use mathlib.Core.List.{append_assoc, append-nil}
use xpact.Prelude.{
  ℕ, suc, String, ◌≡◌, ◌↔◌, sym, ap, ◌∙◌, true, false, List, [], ◌∷◌, ◌++◌, arith, any, All, inl,
  inr, Bool-cases,
}
use xpact.Prelude.Outcome.{ok, ok_inj}
use xpact.Conformance.Known.{
  Entry, same_key, incomplete, failing, content, read_rows, collect, load_known_failures,
}

-- No row has engine and case of an earlier one.
abbrev pub Fresh : List Entry → List Entry → Type 0
Fresh known [] = Unit
Fresh known (row ∷ rows) = (any (same_key row) known ≡ false) × Fresh (known ++ (row ∷ [])) rows

-- All four fields are there and the status is "failed" or "error".
abbrev pub IsListed : Entry → Type 0
IsListed row = (incomplete row ≡ false) × (failing row.status ≡ true)

pub collect-Fresh :
    (path : String) (number : ℕ) (known rows : List Entry)
    → All IsListed rows
    → Fresh known rows
    → collect path number known rows ≡ ok (known ++ rows)
unfolding collect
collect-Fresh path number known [] h f = ap ok (sym (append-nil known))
collect-Fresh path number known (row ∷ rows) h f =
    rw (h.0.0, h.0.1, f.0)
      (collect-Fresh path (suc number) (known ++ (row ∷ [])) rows h.1 f.1
        ∙ ap ok (append_assoc known (row ∷ []) rows))

collect-eq-ok :
    (path : String) (number : ℕ) (known rows result : List Entry)
    → collect path number known rows ≡ ok result
    → (result ≡ known ++ rows) × All IsListed rows × Fresh known rows
unfolding collect
collect-eq-ok path number known [] result h =
    (sym (ok_inj known result h) ∙ sym (append-nil known), tt, tt)
collect-eq-ok path number known (row ∷ rows) result h = elim (Bool-cases (incomplete row)) [
  | inl missing ↦ ground (arith, missing, h)
  | inr complete ↦ elim (Bool-cases (failing row.status)) [
    | inr other ↦ ground (arith, complete, other, h)
    | inl fails ↦ elim (Bool-cases (any (same_key row) known)) [
      | inl twice ↦ ground (arith, complete, fails, twice, h)
      | inr fresh ↦
          let step = rw (complete, fails, fresh) at h in
          let (same, listed, later) =
            collect-eq-ok path (suc number) (known ++ (row ∷ [])) rows result step in
          (same ∙ append_assoc known (row ∷ []) rows, ((complete, fails), listed), (fresh, later))
    ]
  ]
]

pub load_known_failures-accepts :
    (path : String) (lines : List String) (known : List Entry)
    → (load_known_failures path lines ≡ ok known)
      ↔ (known ≡ read_rows (content lines))
        × All IsListed (read_rows (content lines))
        × Fresh [] (read_rows (content lines))
unfolding load_known_failures
load_known_failures-accepts path lines known = (
  (λ h. collect-eq-ok path 1 [] (read_rows (content lines)) known h),
  (λ (same, listed, fresh).
      collect-Fresh path 1 [] (read_rows (content lines)) listed fresh ∙ ap ok (sym same)),
)
