-- ===== src/Prelude/Run.antt =====
-- How a call ends: it hands a value back, it stops the process (a failed assert, or abort), or the
-- rounds that its model allows for a loop are used up.
use mathlib.Core.Path.{◌≡◌, refl}
use mathlib.Core.Logic.{◌≢◌}
use mathlib.Core.Bool.{Bool, true, false}
use btpd.Prelude.Tests.{if◌then◌else◌}

pub data Outcome {ℓ} (A : Type ℓ) : Type ℓ where
  abort out_of_fuel : Outcome A
  ok : A → Outcome A

infixl 5 ◌>>=◌ ◌>>◌
abbrev pub ◌>>=◌ {ℓ κ} : {A : Type ℓ} {B : Type κ} → Outcome A → (A → Outcome B) → Outcome B
abort >>= next = abort
out_of_fuel >>= next = out_of_fuel
ok a >>= next = next a

abbrev pub ◌>>◌ {ℓ} : {B : Type ℓ} → Outcome (Unit {0}) → Outcome B → Outcome B
check >> next = check >>= λ _. next

-- `assert` of the C library.
abbrev pub assert : Bool → Outcome (Unit {0})
assert true = ok tt
assert false = abort

-- The call hands back a value, and the value meets the predicate.
abbrev pub Yields {ℓ κ} : {A : Type ℓ} → (A → Type κ) → Outcome A → Type (ℓ ⊔ κ)
Yields {A} Post call = (a : A) × (call ≡ ok a) × Post a

pub yields {ℓ κ} : {A : Type ℓ} {Post : A → Type κ} (a : A) → Post a → Yields Post (ok a)
yields a post = (a, refl, post)

pub Yields-map {ℓ κ μ} :
    {A : Type ℓ} {Post : A → Type κ} {Weaker : A → Type μ} {call : Outcome A}
    → ((a : A) → Post a → Weaker a)
    → Yields Post call
    → Yields Weaker call
Yields-map weaken (a, e, post) = (a, e, weaken a post)

pub Yields-bind {ℓ κ μ ν} :
    {A : Type ℓ} {B : Type μ} {Post : A → Type κ} {Then : B → Type ν} {call : Outcome A}
    {next : A → Outcome B}
    → Yields Post call
    → ((a : A) → Post a → Yields Then (next a))
    → Yields Then (call >>= next)
Yields-bind (a, e, post) after = rw e (after a post)

-- The rule for a test: each branch is shown under what the test then says.
pub Yields-if {ℓ κ} :
    {A : Type ℓ} {Post : A → Type κ} {whenso otherwise : Outcome A} (test : Bool)
    → (test ≡ true → Yields Post whenso)
    → (test ≡ false → Yields Post otherwise)
    → Yields Post (if test then whenso else otherwise)
Yields-if false _ shown = shown refl
Yields-if true shown _ = shown refl

-- The rule for a test that is known to fail.
pub Yields-else {ℓ κ} :
    {A : Type ℓ} {Post : A → Type κ} (whenso : Outcome A) {otherwise : Outcome A} {test : Bool}
    → test ≡ false
    → Yields Post otherwise
    → Yields Post (if test then whenso else otherwise)
Yields-else whenso e shown = rw e shown

pub Outcome-cases {ℓ} :
    {A : Type ℓ} (call : Outcome A) → call ≢ abort → call ≢ out_of_fuel → (a : A) × (call ≡ ok a)
Outcome-cases (ok a) p q = (a, refl)
Outcome-cases abort p q = absurd (p refl)
Outcome-cases out_of_fuel p q = absurd (q refl)
