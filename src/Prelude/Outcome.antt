-- ===== src/Prelude/Outcome.antt =====
-- What a call of a Go function comes to: a value, an error value, or a panic.
use mathlib.Core.Bool.{Bool, true, false}
use mathlib.Core.Path.{◌≡◌, refl, ap, ◌∙◌}
use mathlib.Core.Option.{Option, none, some}

pub data Outcome {ℓ} (E : Type 0) (A : Type ℓ) : Type ℓ where
  returns : A → Outcome E A
  fails : E → Outcome E A
  panics : Outcome E A

infixl 5 ◌>>=◌ ◌>>◌
abbrev pub ◌>>=◌ {ℓ κ} :
    {E : Type 0} {A : Type ℓ} {B : Type κ} → Outcome E A → (A → Outcome E B) → Outcome E B
returns a >>= f = f a
fails e >>= f = fails e
panics >>= f = panics

abbrev pub ◌>>◌ {ℓ} : {E : Type 0} {B : Type ℓ} → Outcome E (Unit {0}) → Outcome E B → Outcome E B
m >> k = m >>= λ _. k

-- An early return of an error unless the test passes.
abbrev pub guard : {E : Type 0} → Bool → E → Outcome E (Unit {0})
guard true e = returns tt
guard false e = fails e

-- The error that is returned where there is no value.
abbrev pub or_fail {ℓ} : {E : Type 0} {A : Type ℓ} → Option A → E → Outcome E A
or_fail none e = fails e
or_fail (some a) e = returns a

-- Inversion of a step that is followed by others.
pub >>=-eq-returns {ℓ κ} :
    {E : Type 0} {A : Type ℓ} {B : Type κ} (m : Outcome E A) (f : A → Outcome E B) {b : B}
    → (m >>= f) ≡ returns b
    → (a : A) × (m ≡ returns a) × (f a ≡ returns b)
>>=-eq-returns (returns a) f h = (a, refl, h)
>>=-eq-returns (fails e) f h = cc
>>=-eq-returns panics f h = cc

pub returns-injective {ℓ} :
    {E : Type 0} {A : Type ℓ} {a b : A} → ◌≡◌ {A = Outcome E A} (returns a) (returns b) → a ≡ b
returns-injective h = cc

-- The call gives a value that has the property.
abbrev pub Gives : {E A : Type 0} → Outcome E A → (A → Type 0) → Type 0
Gives {A = A} m P = (a : A) × (m ≡ returns a) × P a

pub >>=-Gives :
    {E A B : Type 0} {P : A → Type 0} {Q : B → Type 0} {m : Outcome E A} {f : A → Outcome E B}
    → Gives m P
    → ((a : A) → P a → Gives (f a) Q)
    → Gives (m >>= f) Q
>>=-Gives {f = f} (a, e, p) next = let (b, e', q) = next a p in (b, ap (λ m. m >>= f) e ∙ e', q)
