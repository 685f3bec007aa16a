-- ===== src/Base/Result.antt =====
-- `Result<T, E>`.
use mathlib.Core.Path.{◌≡◌, refl}
use mathlib.Core.Logic.{◌⊎◌, inl, inr}

pub data Result {ℓ} (E A : Type ℓ) : Type ℓ where
  ok : A → Result E A
  err : E → Result E A

infixl 5 ◌>>=◌ ◌>>◌
abbrev pub ◌>>=◌ {ℓ} : {E A B : Type ℓ} → Result E A → (A → Result E B) → Result E B
ok a >>= f = f a
err e >>= f = err e

abbrev pub ◌>>◌ {ℓ} : {E A B : Type ℓ} → Result E A → Result E B → Result E B
m >> k = m >>= λ _. k

-- A bind succeeds where its first part does and what follows does.
module _ {ℓ} {E A B : Type ℓ} where
  pub >>=-eq-ok :
      (first : Result E A) (next : A → Result E B) {b : B}
      → (first >>= next) ≡ ok b
      → (v : A) × (first ≡ ok v) × (next v ≡ ok b)
  >>=-eq-ok (err e) next h = absurd (cc)
  >>=-eq-ok (ok v) next h = (v, refl, h)

pub >>-eq-ok :
    {E A B : Type 0} (m : Result E A) (k : Result E B) {b : B}
    → (m >> k) ≡ ok b
    → ((a : A) × (m ≡ ok a)) × (k ≡ ok b)
>>-eq-ok (ok a) k h = ((a, refl), h)
>>-eq-ok (err e) k h = absurd (cc)

pub result-cases {ℓ} :
    {E A : Type ℓ} (r : Result E A) → ((a : A) × (r ≡ ok a)) ⊎ ((e : E) × (r ≡ err e))
result-cases (ok a) = inl (a, refl)
result-cases (err e) = inr (e, refl)
