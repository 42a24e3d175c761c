-- ===== src/Prelude/Outcome.antt =====
-- Python's exceptions as values: the class and the message.
use Prim.Native.String.{String}
use mathlib.Core.Path.{◌≡◌, refl}
use mathlib.Core.Logic.{◌⊎◌, inl, inr}
use mathlib.Core.Bool.{Bool, true, false}
use xpact.Prelude.Text.{◌<>◌}

pub data Error : Type 0 where
  value_error key_error os_error lane_error : String → Error

-- A call returns its value or raises.
pub data Outcome {κ} (Value : Type κ) : Type κ where
  err : (raised : Error) → Outcome Value
  ok : (value : Value) → Outcome Value

-- `str(error)`; a `KeyError` quotes its key.
abbrev pub message_of : Error → String
message_of (value_error text) = text
message_of (key_error key) = "'" <> key <> "'"
message_of (os_error text) = text
message_of (lane_error text) = text

infixl 5 ◌>>=◌
abbrev pub ◌>>=◌ {κ μ} :
    {Value : Type κ} {Next : Type μ} → Outcome Value → (Value → Outcome Next) → Outcome Next
err error >>= next = err error
ok value >>= next = next value

-- `if test: raise error`
abbrev pub refuse : Bool → Error → Outcome (Unit {0})
refuse false error = ok tt
refuse true error = err error

-- A check and then the rest of the function.
infixl 5 ◌>>◌
abbrev pub ◌>>◌ {μ} : {Next : Type μ} → Outcome (Unit {0}) → Outcome Next → Outcome Next
check >> next = check >>= λ _. next

-- What a successful step says of its parts.
pub >>=-eq-ok {κ μ} :
    {Value : Type κ} {Next : Type μ} (first : Outcome Value) (next : Value → Outcome Next)
    {result : Next}
    → (first >>= next) ≡ ok result
    → (value : Value) × (first ≡ ok value) × (next value ≡ ok result)
>>=-eq-ok (err error) next succeeds = cc
>>=-eq-ok (ok value) next succeeds = (value, refl, succeeds)

pub ok_inj {ℓ} : {A : Type ℓ} (a b : A) → ◌≡◌ {A = Outcome A} (ok a) (ok b) → a ≡ b
ok_inj a b h = cc

pub Outcome-cases {ℓ} :
    {A : Type ℓ} (m : Outcome A) → ((a : A) × (m ≡ ok a)) ⊎ ((e : Error) × (m ≡ err e))
Outcome-cases (ok a) = inl (a, refl)
Outcome-cases (err e) = inr (e, refl)

pub refused {ℓ} :
    {A : Type ℓ} (b : Bool) (e : Error) (m : Outcome A) (a : A)
    → (refuse b e >> m) ≡ ok a
    → (b ≡ false) × (m ≡ ok a)
refused true e m a h = cc
refused false e m a h = (refl, h)

-- A check that does not fire.
pub not_refused {ℓ} :
    {A : Type ℓ} (b : Bool) (e : Error) (next : Unit {0} → Outcome A)
    → b ≡ false
    → (refuse b e >>= next) ≡ next tt
not_refused true e next h = cc
not_refused false e next h = refl
