-- ===== src/Base/Outcomes.antt =====
-- Results of calls that may raise: an error of the module's own type, or a value.
use mathlib.Core.Path.{◌≡◌, refl, subst}
use mathlib.Core.Logic.{◌⊎◌, inl, inr}
use mathlib.Core.Bool.{Bool, true, false}
use mathlib.Core.Option.{Option, none, some}
use mathlib.Core.List.{List, [], ◌∷◌}
use native.Mathlib.Omega.{arith}
use dogos_memory.Base.Lists.{All}

pub data Result {ℓ} (E A : Type ℓ) : Type ℓ where
  ok : A → Result E A
  err : E → Result E A

infixl 5 ◌>>=◌ ◌>>◌
abbrev pub ◌>>=◌ {ℓ} : {E A B : Type ℓ} → Result E A → (A → Result E B) → Result E B
ok a >>= f = f a
err e >>= f = err e

abbrev pub ◌>>◌ {ℓ} : {E B : Type ℓ} → Result E (Unit {ℓ}) → Result E B → Result E B
m >> k = m >>= λ _. k

-- `if not b: raise e`
abbrev pub require {ℓ} : {E : Type ℓ} → Bool → E → Result E (Unit {ℓ})
require true e = ok tt
require false e = err e

abbrev pub or_raise {ℓ} : {E A : Type ℓ} → Option A → E → Result E A
or_raise none e = err e
or_raise (some a) e = ok a

pub Result-cases {ℓ} :
    {E A : Type ℓ} (r : Result E A) → ((a : A) × (r ≡ ok a)) ⊎ ((e : E) × (r ≡ err e))
Result-cases (ok a) = inl (a, refl)
Result-cases (err e) = inr (e, refl)

-- `f` at every element, in order, up to the first error
unfoldable pub traverse {ℓ} : {E A B : Type ℓ} → (A → Result E B) → List A → Result E (List B)
traverse f [] = ok []
traverse f (x ∷ xs) = do y ← f x; ys ← traverse f xs; ok (y ∷ ys)

pub traverse-All {ℓ κ} :
    {E A B : Type ℓ} (P : B → Type κ) (f : A → Result E B)
    → ((x : A) (y : B) → f x ≡ ok y → P y)
    → (xs : List A) {ys : List B} → traverse f xs ≡ ok ys
    → All P ys
unfolding traverse
traverse-All P f each [] {ys} h = let same : [] ≡ ys = ground arith in subst (All P) same tt
traverse-All P f each (x ∷ xs) {ys} h = elim (Result-cases (f x)) [
  | inr (e, q) ↦ ground arith
  | inl (y, q) ↦ elim (Result-cases (traverse f xs)) [
    | inr (e, r) ↦ ground arith
    | inl (zs, r) ↦
        let same : y ∷ zs ≡ ys = ground arith in
        subst (All P) same (each x y q, traverse-All P f each xs r)
  ]
]
