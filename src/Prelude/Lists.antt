-- ===== src/Prelude/Lists.antt =====
-- Lists measured and indexed by native numbers: Go's slices.
use Prim.Native.Nat.{ℕ, zero, suc, ◌+◌, ◌≤◌, ◌<◌}
use mathlib.Core.Path.{◌≡◌, refl, ap, subst, ◌∙◌}
use mathlib.Core.Logic.{∥∥₁_elim}
use mathlib.Core.Option.{Option, none, some}
use mathlib.Core.List.{
  List, [], ◌∷◌, ◌++◌, Mem, mem-cons_self, mem-cons_of_mem, Perm, Permᴰ, perm_middle, append-nil,
}
use mathlib.Core.List.Perm
use native.Mathlib.Nat.{ℕ_set}
use native.Mathlib.Omega.{arith}
use metrika_agent.Prelude.Tests.{◌==◌, if◌then◌else◌}

module _ {ℓ} {A : Type ℓ} where
  abbrev pub length : List A → ℕ
  length [] = 0
  length (x ∷ xs) = suc (length xs)

  abbrev pub get_elem? : List A → ℕ → Option A
  get_elem? [] i = none
  get_elem? (x ∷ xs) zero = some x
  get_elem? (x ∷ xs) (suc i) = get_elem? xs i

  -- A write out of bounds changes nothing.
  abbrev pub set : List A → ℕ → A → List A
  set [] i v = []
  set (x ∷ xs) zero v = v ∷ xs
  set (x ∷ xs) (suc i) v = x ∷ set xs i v

  abbrev pub take : ℕ → List A → List A
  take zero xs = []
  take (suc n) [] = []
  take (suc n) (x ∷ xs) = x ∷ take n xs

-- Every entry satisfies `P`.
abbrev pub All {ℓ} : {A : Type ℓ} → (A → Type 0) → List A → Type 0
All P [] = Unit
All P (x ∷ xs) = P x × All P xs

pub All-append {ℓ} :
    {A : Type ℓ} (P : A → Type 0) (xs ys : List A) → All P xs → All P ys → All P (xs ++ ys)
All-append P [] ys p q = q
All-append P (x ∷ xs) ys p q = (p.0, All-append P xs ys p.1 q)

pub All-weaken {ℓ} :
    {A : Type ℓ} (P Q : A → Type 0) (xs : List A) → ((x : A) → P x → Q x) → All P xs → All Q xs
All-weaken P Q [] up p = tt
All-weaken P Q (x ∷ xs) up p = (up x p.0, All-weaken P Q xs up p.1)

module _ {ℓ} {A : Type ℓ} where
  pub length-append : (xs ys : List A) → length (xs ++ ys) ≡ length xs + length ys
  length-append [] ys = omega arith
  length-append (x ∷ xs) ys = omega (arith, length-append xs ys)

  pub length-set : (xs : List A) (i : ℕ) (v : A) → length (set xs i v) ≡ length xs
  length-set [] i v = refl
  length-set (x ∷ xs) zero v = refl
  length-set (x ∷ xs) (suc i) v = ap suc (length-set xs i v)

  -- An index in range holds an entry.
  pub get_elem?_total : (xs : List A) (i : ℕ) → i < length xs → (x : A) × (get_elem? xs i ≡ some x)
  get_elem?_total [] i h = absurd (omega arith)
  get_elem?_total (x ∷ xs) zero h = (x, refl)
  get_elem?_total (x ∷ xs) (suc i) h = get_elem?_total xs i (omega arith)

  -- An index that holds an entry is in range.
  pub lt_of_get_elem? : (xs : List A) (i : ℕ) {x : A} → get_elem? xs i ≡ some x → i < length xs
  lt_of_get_elem? [] i e = absurd (cc)
  lt_of_get_elem? (y ∷ xs) zero e = omega arith
  lt_of_get_elem? (y ∷ xs) (suc i) e = omega (arith, lt_of_get_elem? xs i e)

  -- An index past the end holds none.
  pub get_elem?-none : (xs : List A) (i : ℕ) → length xs ≤ i → get_elem? xs i ≡ none
  get_elem?-none [] i h = refl
  get_elem?-none (x ∷ xs) zero h = absurd (omega arith)
  get_elem?-none (x ∷ xs) (suc i) h = get_elem?-none xs i (omega arith)

  pub get_elem?-set :
      (xs : List A) (i j : ℕ) (v : A)
      → i < length xs
      → get_elem? (set xs i v) j ≡ (if i == j then some v else get_elem? xs j)
  get_elem?-set [] i j v h = absurd (omega arith)
  get_elem?-set (x ∷ xs) zero zero v h = refl
  get_elem?-set (x ∷ xs) zero (suc j) v h = ground arith
  get_elem?-set (x ∷ xs) (suc i) zero v h = ground arith
  get_elem?-set (x ∷ xs) (suc i) (suc j) v h = ground (arith, get_elem?-set xs i j v)

  pub get_elem?-mem : (xs : List A) (i : ℕ) {x : A} → get_elem? xs i ≡ some x → Mem x xs
  get_elem?-mem [] i e = absurd (cc)
  get_elem?-mem (y ∷ xs) zero {x} e =
      let same : y ≡ x = cc in subst (λ z. Mem z (y ∷ xs)) same mem-cons_self
  get_elem?-mem (y ∷ xs) (suc i) e = mem-cons_of_mem y (get_elem?-mem xs i e)

  -- A write trades the entry that was there for the new one.
  pub set-perm :
      (xs : List A) (i : ℕ) (v : A) {x : A}
      → get_elem? xs i ≡ some x
      → Perm (x ∷ set xs i v) (v ∷ xs)
  set-perm [] i v e = absurd (cc)
  set-perm (y ∷ xs) zero v {x} e =
      let same : y ≡ x = cc in subst (λ z. Perm (z ∷ v ∷ xs) (v ∷ y ∷ xs)) same (Perm.swap v y xs)
  set-perm (y ∷ xs) (suc i) v {x} e =
      Perm.trans (Perm.swap y x _) (Perm.trans (Perm.cons y (set-perm xs i v e)) (Perm.swap v y xs))

  same_length : {xs ys : List A} → Permᴰ xs ys → length xs ≡ length ys
  same_length (Permᴰ.trans first then_ys) = same_length first ∙ same_length then_ys
  same_length (Permᴰ.cons x tail) = ap suc (same_length tail)
  same_length (Permᴰ.swap x y) = refl
  same_length Permᴰ.nil = refl

  pub length-perm : {xs ys : List A} → Perm xs ys → length xs ≡ length ys
  length-perm p = ∥∥₁_elim p (ℕ_set _ _) same_length

  -- Appending one entry at the end is, up to order, putting it in front.
  pub append_one-perm : (xs : List A) (x : A) → Perm (xs ++ x ∷ []) (x ∷ xs)
  append_one-perm xs x = rw (append-nil xs) at (perm_middle {a = x} xs [])

  pub get_elem?-append :
      (xs ys : List A) (i : ℕ) → i < length xs → get_elem? (xs ++ ys) i ≡ get_elem? xs i
  get_elem?-append [] ys i h = absurd (omega arith)
  get_elem?-append (x ∷ xs) ys zero h = refl
  get_elem?-append (x ∷ xs) ys (suc i) h = get_elem?-append xs ys i (omega arith)

  pub get_elem?-take :
      (n : ℕ) (xs : List A) (i : ℕ) → i < n → get_elem? (take n xs) i ≡ get_elem? xs i
  get_elem?-take zero xs i h = absurd (omega arith)
  get_elem?-take (suc n) [] i h = refl
  get_elem?-take (suc n) (x ∷ xs) zero h = refl
  get_elem?-take (suc n) (x ∷ xs) (suc i) h = get_elem?-take n xs i (omega arith)

  -- All but the last entry, and the last.
  pub take-append_last :
      (n : ℕ) (xs : List A) {x : A}
      → length xs ≡ suc n
      → get_elem? xs n ≡ some x
      → take n xs ++ x ∷ [] ≡ xs
  take-append_last n [] h e = absurd (omega arith)
  take-append_last zero (y ∷ []) h e = ground arith
  take-append_last zero (y ∷ z ∷ xs) h e = absurd (omega arith)
  take-append_last (suc n) (y ∷ xs) h e = ap (◌∷◌ y) (take-append_last n xs (omega arith) e)
