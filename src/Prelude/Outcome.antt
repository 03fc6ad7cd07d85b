-- ===== src/Prelude/Outcome.antt =====
-- How a Go call that returns no error value ends: normally, in a run-time panic, or, for a loop
-- that is run on fuel, with the fuel used up.
use mathlib.Core.Path.{◌≡◌, refl}
use mathlib.Core.Bool.{Bool, true, false}
use mathlib.Core.Option.{Option, none, some}
use metrika_agent.Prelude.Tests.{if◌then◌else◌}

pub data Outcome {ℓ} (A : Type ℓ) : Type ℓ where
  done : A → Outcome A
  panic : Outcome A
  out_of_fuel : Outcome A

infixl 5 ◌>>=◌
abbrev pub ◌>>=◌ {ℓ κ} : {A : Type ℓ} {B : Type κ} → Outcome A → (A → Outcome B) → Outcome B
done a >>= k = k a
panic >>= k = panic
out_of_fuel >>= k = out_of_fuel

-- An index expression: out of range it panics.
abbrev pub or_panic {ℓ} : {A : Type ℓ} → Option A → Outcome A
or_panic none = panic
or_panic (some a) = done a

-- The call returns, and `P` holds of what it returns.
pub data Yields {ℓ κ} {A : Type ℓ} (P : A → Type κ) : Outcome A → Type (ℓ ⊔ κ) where
  yields : {a : A} → P a → Yields P (done a)

module _ {ℓ κ} {A : Type ℓ} {P : A → Type κ} where
  pub Yields-bind {ℓ' κ'} :
      {B : Type ℓ'} {Q : B → Type κ'} {m : Outcome A} {k : A → Outcome B}
      → Yields P m
      → ((a : A) → P a → Yields Q (k a))
      → Yields Q (m >>= k)
  Yields-bind (yields p) next = next _ p

  pub Yields-weaken {κ'} :
      {Q : A → Type κ'} {m : Outcome A} → Yields P m → ((a : A) → P a → Q a) → Yields Q m
  Yields-weaken (yields p) up = yields (up _ p)

  pub Yields-branch :
      {x y : Outcome A} (b : Bool)
      → (b ≡ true → Yields P x)
      → (b ≡ false → Yields P y)
      → Yields P (if b then x else y)
  Yields-branch true p q = p refl
  Yields-branch false p q = q refl

  -- With what the call returns.
  pub Yields-same : {m : Outcome A} → Yields P m → Yields (λ a. P a × (m ≡ done a)) m
  Yields-same (yields p) = yields (p, refl)

  pub Yields-value : {m : Outcome A} → Yields P m → (a : A) × (m ≡ done a) × P a
  Yields-value (yields p) = (_, refl, p)
