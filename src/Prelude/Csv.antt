-- ===== src/Prelude/Csv.antt =====
-- What the programs use of Python's `csv`: how a writer with a tab between fields prints a field.
use Prim.Native.Char.{Char, code}
use Prim.Native.String.{String}
use mathlib.Core.Bool.{Bool, ◌||◌}
use mathlib.Core.List.{[], ◌∷◌}
use xpact.Prelude.Tests.{nat_eq, if◌then◌else◌}
use xpact.Prelude.Lists.{any}
use xpact.Prelude.Text.{◌<>◌, chars, text_of}

abbrev pub doubled_quotes : String → String
doubled_quotes String.[] = ""
doubled_quotes (String.◌∷◌ c s) =
    (if nat_eq (code c) 34 then "\"\"" else text_of (c ∷ [])) <> doubled_quotes s

-- The tab, the quote and the line breaks.
abbrev pub is_special : Char → Bool
is_special c =
    nat_eq (code c) 9 || (nat_eq (code c) 34 || (nat_eq (code c) 10 || nat_eq (code c) 13))

abbrev pub field : String → String
field text = if any is_special (chars text) then "\"" <> doubled_quotes text <> "\"" else text
