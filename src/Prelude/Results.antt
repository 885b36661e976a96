-- ===== src/Prelude/Results.antt =====
-- Fallible computations: a value, or an error of a type that each component names.
use mathlib.Core.Path.{◌≡◌, refl}
use mathlib.Core.Logic.{◌⊎◌, inl, inr}

pub data Result {ℓ} (E : Type 0) (A : Type ℓ) : Type ℓ where
  ok : A → Result E A
  err : E → Result E A

infixl 5 ◌>>=◌
abbrev pub ◌>>=◌ {ℓ κ} :
    {E : Type 0} {A : Type ℓ} {B : Type κ} → Result E A → (A → Result E B) → Result E B
ok a >>= f = f a
err e >>= f = err e

-- One step of a chain.
pub >>=-ok {ℓ κ} :
    {E : Type 0} {A : Type ℓ} {B : Type κ} (m : Result E A) (f : A → Result E B) (a : A)
    → m ≡ ok a
    → (m >>= f) ≡ f a
>>=-ok m f a h = rw h

-- What a chain that succeeds has passed through.
pub >>=-eq-ok {ℓ κ} :
    {E : Type 0} {A : Type ℓ} {B : Type κ} (m : Result E A) (f : A → Result E B) (b : B)
    → (m >>= f) ≡ ok b
    → (a : A) × (m ≡ ok a) × (f a ≡ ok b)
>>=-eq-ok (ok a) f b h = (a, refl, h)
>>=-eq-ok (err e) f b h = absurd (cc)

pub ok_injective {ℓ} :
    {E : Type 0} {A : Type ℓ} (a b : A) → ◌≡◌ {A = Result E A} (ok a) (ok b) → a ≡ b
ok_injective a b h = cc

pub Result-cases {ℓ} :
    {E : Type 0} {A : Type ℓ} (r : Result E A) → ((a : A) × (r ≡ ok a)) ⊎ ((e : E) × (r ≡ err e))
Result-cases (ok a) = inl (a, refl)
Result-cases (err e) = inr (e, refl)

-- Another error in place of the error.
abbrev pub relabel {ℓ} : {E F : Type 0} {A : Type ℓ} → F → Result E A → Result F A
relabel e (ok a) = ok a
relabel e (err x) = err e

pub relabel-ok {ℓ} :
    {E F : Type 0} {A : Type ℓ} (e : F) (r : Result E A) (a : A) → relabel e r ≡ ok a → r ≡ ok a
relabel-ok e (ok b) a h = cc
relabel-ok e (err x) a h = absurd (cc)
