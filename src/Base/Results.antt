-- ===== src/Base/Results.antt =====
-- Python code that may raise returns a `Result` over the exceptions that it can raise.
use mathlib.Core.Path.{◌≡◌, refl}
use native.Mathlib.Omega.{arith}
use mathlib.Core.Bool.{Bool, true, false}

pub data Result {ℓ κ} (E : Type κ) (A : Type ℓ) : Type (ℓ ⊔ κ) where
  ok : A → Result E A
  err : E → Result E A

infixl 5 ◌>>=◌ ◌>>◌
abbrev pub ◌>>=◌ {ℓ κ μ} :
    {E : Type κ} {A : Type ℓ} {B : Type μ} → Result E A → (A → Result E B) → Result E B
ok a >>= f = f a
err e >>= f = err e

abbrev pub ◌>>◌ {ℓ κ} : {E : Type κ} {B : Type ℓ} → Result E (Unit {0}) → Result E B → Result E B
m >> k = m >>= λ _. k

-- `if b: raise e`
abbrev pub raise_if {κ} : {E : Type κ} → Bool → E → Result E (Unit {0})
raise_if true e = err e
raise_if false e = ok tt

-- A chain that did not raise had a first part that did not raise, and went on from its result.
pub bind_passed {ℓ κ μ} :
    {E : Type κ} {A : Type ℓ} {B : Type μ} {last : B} (first : Result E A) {next : A → Result E B}
    → (first >>= next) ≡ ok last
    → (value : A) × (first ≡ ok value) × (next value ≡ ok last)
bind_passed (err e) passed = ground arith
bind_passed (ok value) passed = (value, refl, passed)

pub guard_passed {ℓ κ} :
    {E : Type κ} {B : Type ℓ} {last : B} (guard : Result E (Unit {0})) {next : Result E B}
    → (guard >> next) ≡ ok last
    → (guard ≡ ok tt) × (next ≡ ok last)
guard_passed (err e) passed = ground arith
guard_passed (ok tt) passed = (refl, passed)

-- An exception that is raised as another one, or is one of more.
abbrev pub map_error {ℓ κ κ'} :
    {E : Type κ} {F : Type κ'} {A : Type ℓ} → (E → F) → Result E A → Result F A
map_error f (ok a) = ok a
map_error f (err e) = err (f e)

pub map_error_passed {ℓ κ κ'} :
    {E : Type κ} {F : Type κ'} {A : Type ℓ} (f : E → F) (r : Result E A) {a : A}
    → map_error f r ≡ ok a
    → r ≡ ok a
map_error_passed f (ok b) h = ground arith
map_error_passed f (err e) h = ground arith
