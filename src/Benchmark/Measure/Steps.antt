-- ===== src/Benchmark/Measure/Steps.antt =====
-- What a sequence of steps says of its parts, and steps that do not run out of rounds.
use xpact.Prelude.{◌≡◌, refl}
use xpact.Benchmark.Sample.{World}
use xpact.Benchmark.Measure.{Ending, returns, raises, exhausted, Step, then_do, ◌>>=◌}

then_do-returns {κ μ} :
    {A : Type κ} {B : Type μ} (first : World × Ending A) (next : A → Step B) {after : World} {b : B}
    → then_do first next ≡ (after, returns b)
    → (mid : World) × (a : A) × (first ≡ (mid, returns a)) × (next a mid ≡ (after, returns b))
then_do-returns (mid, returns a) next h = (mid, a, refl, h)
then_do-returns (mid, raises error) next h = cc
then_do-returns (mid, exhausted) next h = cc

pub >>=-returns {κ μ} :
    {A : Type κ} {B : Type μ} (m : Step A) (next : A → Step B) {world after : World} {b : B}
    → (m >>= next) world ≡ (after, returns b)
    → (mid : World) × (a : A) × (m world ≡ (mid, returns a)) × (next a mid ≡ (after, returns b))
>>=-returns m next {world} h = then_do-returns (m world) next h

-- An end other than that of the rounds, with what holds of the value that is returned.
abbrev pub Ends {κ} : {A : Type κ} → (World → A → Type 0) → World × Ending A → Type 0
Ends P (world, returns a) = P world a
Ends P (world, raises error) = Unit
Ends P (world, exhausted) = ⊥

then_do-Ends {κ μ} :
    {A : Type κ} {B : Type μ} (P : World → A → Type 0) (Q : World → B → Type 0)
    (first : World × Ending A) (next : A → Step B)
    → Ends P first
    → ((mid : World) (a : A) → P mid a → Ends Q (next a mid))
    → Ends Q (then_do first next)
then_do-Ends P Q (mid, returns a) next h k = k mid a h
then_do-Ends P Q (mid, raises error) next h k = tt
then_do-Ends P Q (mid, exhausted) next h k = elim h [ ]

pub >>=-Ends {κ μ} :
    {A : Type κ} {B : Type μ} (P : World → A → Type 0) (Q : World → B → Type 0) (m : Step A)
    (next : A → Step B) (world : World)
    → Ends P (m world)
    → ((mid : World) (a : A) → P mid a → Ends Q (next a mid))
    → Ends Q ((m >>= next) world)
>>=-Ends P Q m next world h k = then_do-Ends P Q (m world) next h k

pub Ends-weaken {κ} :
    {A : Type κ} (P Q : World → A → Type 0) (r : World × Ending A)
    → Ends P r
    → ((world : World) (a : A) → P world a → Q world a)
    → Ends Q r
Ends-weaken P Q (world, returns a) h k = k world a h
Ends-weaken P Q (world, raises error) h k = tt
Ends-weaken P Q (world, exhausted) h k = elim h [ ]
