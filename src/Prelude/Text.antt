-- ===== src/Prelude/Text.antt =====
-- What the programs use of Python's `str`: `in` on a tuple of texts, `split`, `splitlines`,
-- `strip`, a slice from the end, and the decimal form of an integer.
use Prim.Native.Nat.{ℕ, zero, suc, ◌-◌, ◌/◌, ◌%◌}
use Prim.Native.Char.{Char, code}
use Prim.Native.String
use Prim.Native.String.{String}
use mathlib.Core.Bool.{Bool, true, false, ◌&&◌, ◌||◌}
use mathlib.Core.List.{List, [], ◌∷◌, reverse}
use mathlib.Core.Path.{◌≡◌}
use mathlib.Core.Logic.{inl, inr}
use text.Mathlib.Text.{◌==◌}
use text.Mathlib.TextEquality.{eq_iff}
use xpact.Prelude.Tests.{ltb, leb, nat_eq, if◌then◌else◌, Bool-cases, &&-true}
use xpact.Prelude.Lists.{length, any, all}

infixr 65 ◌<>◌
abbrev pub ◌<>◌ : String → String → String
◌<>◌ = String.◌++◌

-- `text in texts`
abbrev pub contains : List String → String → Bool
contains texts text = any (λ t. text == t) texts

abbrev pub chars : String → List Char
chars String.[] = []
chars (String.◌∷◌ c s) = c ∷ chars s

abbrev pub text_of : List Char → String
text_of [] = ""
text_of (c ∷ cs) = String.◌∷◌ c (text_of cs)

-- `str.isspace` of one character, by its code point.
unfoldable pub is_space : ℕ → Bool
is_space n =
    (leb 9 n && leb n 13)
    || ((leb 28 n && leb n 32)
        || (nat_eq n 133
            || (nat_eq n 160
                || (nat_eq n 5760
                    || ((leb 8192 n && leb n 8202)
                        || (nat_eq n 8232
                            || (nat_eq n 8233
                                || (nat_eq n 8239 || (nat_eq n 8287 || nat_eq n 12288)))))))))

-- The line boundaries of `str.splitlines`, `\r\n` aside.
unfoldable pub is_break : ℕ → Bool
is_break n =
    (leb 10 n && leb n 13)
    || ((leb 28 n && leb n 30) || (nat_eq n 133 || (nat_eq n 8232 || nat_eq n 8233)))

abbrev close : String → List String → List String
close word rest = if word == "" then rest else word ∷ rest

abbrev push : String → Char → String
push s c = String.◌++◌ s (String.◌∷◌ c "")

-- `cur` is the word read so far.
split_from : String → List Char → List String
split_from cur [] = close cur []
split_from cur (c ∷ cs) =
    let after = split_from "" cs in
    let longer = split_from (push cur c) cs in if is_space (code c) then close cur after else longer

-- `text.split()`
unfoldable pub split : String → List String
unfolding split_from is_space
split text = split_from "" (chars text)

-- `cur` is the line read so far, `returned` whether a carriage return has just ended a line.
lines_from : Bool → String → List Char → List String
lines_from returned cur [] = close cur []
lines_from returned cur (c ∷ cs) =
    let ended = lines_from (nat_eq (code c) 13) "" cs in
    let skipped = lines_from false "" cs in
    let longer = lines_from false (push cur c) cs in
    if returned && nat_eq (code c) 10
    then skipped
    else if is_break (code c)
    then cur ∷ ended
    else longer

-- `text.splitlines()`
unfoldable pub splitlines : String → List String
unfolding lines_from is_break
splitlines text = lines_from false "" (chars text)

drop_spaces : List Char → List Char
drop_spaces [] = []
drop_spaces (c ∷ cs) = let rest = drop_spaces cs in if is_space (code c) then rest else c ∷ cs

-- `text.strip()`
unfoldable pub strip : String → String
unfolding drop_spaces is_space
strip text = text_of (reverse (drop_spaces (reverse (drop_spaces (chars text)))))

drop : ℕ → List Char → List Char
drop zero cs = cs
drop (suc n) [] = []
drop (suc n) (c ∷ cs) = drop n cs

-- `text[-n:]`, for a positive `n`
unfoldable pub last_chars : ℕ → String → String
unfolding drop
last_chars n text = let cs = chars text in text_of (drop (length cs - n) cs)

digit : ℕ → String
digit zero = "0"
digit (suc zero) = "1"
digit (suc (suc zero)) = "2"
digit (suc (suc (suc zero))) = "3"
digit (suc (suc (suc (suc zero)))) = "4"
digit (suc (suc (suc (suc (suc zero))))) = "5"
digit (suc (suc (suc (suc (suc (suc zero)))))) = "6"
digit (suc (suc (suc (suc (suc (suc (suc zero))))))) = "7"
digit (suc (suc (suc (suc (suc (suc (suc (suc zero)))))))) = "8"
digit _ = "9"

-- A number has no more digits than its value plus one, which is the fuel.
show_from : ℕ → ℕ → String
show_from zero n = ""
show_from (suc fuel) n =
    let front = show_from fuel (n / 10) in if ltb n 10 then digit n else front <> digit (n % 10)

-- `str(n)`
unfoldable pub show : ℕ → String
unfolding show_from digit
show n = show_from (suc n) n

-- What holds of each text of a list holds of a text that is in it.
pub all-contains :
    (p : String → Bool) (texts : List String) (text : String)
    → all p texts ≡ true
    → contains texts text ≡ true
    → p text ≡ true
all-contains p [] text h k = cc
all-contains p (t ∷ texts) text h k = elim (Bool-cases (text == t)) [
  | inl same ↦ rw ((eq_iff text t).0 same) (&&-true (p t) (all p texts) h).0
  | inr differ ↦ all-contains p texts text (&&-true (p t) (all p texts) h).1 (rw differ at k)
]
