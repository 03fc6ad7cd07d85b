-- ===== src/Prelude/Error.antt =====
-- Go's error values, and a call that returns a value or an error. A nil error is `none`.
use Prim.Native.String.{String}
use mathlib.Core.Path.{◌≡◌, refl}
use mathlib.Core.Logic.{◌⊎◌, inl, inr}

-- `heap_alloc_limit` is buf.ErrHeapAllocLimit; `failure` is any error known by its text; `wrapped`
-- is `errors.Wrap(err, other.Error())`.
pub data Error : Type 0 where
  heap_alloc_limit : Error
  failure : String → Error
  wrapped : Error → Error → Error

pub data Result {ℓ} (A : Type ℓ) : Type ℓ where
  ok : A → Result A
  err : Error → Result A

pub Result-cases {ℓ} :
    {A : Type ℓ} (r : Result A) → ((a : A) × (r ≡ ok a)) ⊎ ((e : Error) × (r ≡ err e))
Result-cases (ok a) = inl (a, refl)
Result-cases (err e) = inr (e, refl)
