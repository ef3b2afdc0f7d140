-- ===== src/Prelude/Results.antt =====
-- A function that may raise: its value, or the error. `E` is the component's own error type.
use mathlib.Core.Path.{◌≡◌, refl}
use mathlib.Core.Logic.{◌⊎◌, inl, inr}
use mathlib.Core.Bool.{Bool}
use excel_youhua.Prelude.Tests.{if◌then◌else◌}

pub data Result {ℓ κ} (E : Type ℓ) (A : Type κ) : Type (ℓ ⊔ κ) where
  err : E → Result E A
  ok : A → Result E A

infixl 5 ◌>>=◌ ◌>>◌
module _ {ℓ κ μ} {E : Type ℓ} {A : Type κ} {B : Type μ} where
  abbrev pub ◌>>=◌ : Result E A → (A → Result E B) → Result E B
  ◌>>=◌ (ok value) next = next value
  ◌>>=◌ (err error) next = err error

module _ {ℓ} {E : Type ℓ} where
  -- a statement without a value, then the rest
  abbrev pub ◌>>◌ {κ} : {A : Type κ} → Result E (Unit {0}) → Result E A → Result E A
  ◌>>◌ statement rest = statement >>= λ _. rest

  -- `if not test: raise error`
  abbrev pub require : Bool → E → Result E (Unit {0})
  require test error = if test then ok tt else err error

-- Where a computation in two parts succeeds, both parts do.
module _ {ℓ κ μ} {E : Type ℓ} {A : Type κ} {B : Type μ} where
  pub >>=-eq-ok :
      (part : Result E A) (next : A → Result E B) {final : B}
      → (part >>= next) ≡ ok final
      → (value : A) × (part ≡ ok value) × (next value ≡ ok final)
  >>=-eq-ok (err error) next e = cc
  >>=-eq-ok (ok value) next e = (value, refl, e)

pub Result-cases {ℓ κ} :
    {E : Type ℓ} {A : Type κ} (r : Result E A)
    → ((error : E) × (r ≡ err error)) ⊎ ((value : A) × (r ≡ ok value))
Result-cases (err error) = inl (error, refl)
Result-cases (ok value) = inr (value, refl)

pub ok-injective {ℓ κ} :
    {E : Type ℓ} {A : Type κ} {a b : A} → ◌≡◌ {A = Result E A} (ok a) (ok b) → a ≡ b
ok-injective h = cc
