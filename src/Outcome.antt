-- ===== src/Outcome.antt =====
-- A call that may panic: a value, an error or a panic (an index out of range).
use sentilyzer.Prelude.{◌≡◌, ◌≢◌, refl}
use sentilyzer.Errors.{GoError, Result}

pub data Outcome {ℓ} (A : Type ℓ) : Type ℓ where
  done : A → Outcome A
  fail : GoError → Outcome A
  panic : Outcome A

infixl 5 ◌>>=◌
abbrev pub ◌>>=◌ {ℓ κ} : {A : Type ℓ} {B : Type κ} → Outcome A → (A → Outcome B) → Outcome B
done a >>= f = f a
fail e >>= f = fail e
panic >>= f = panic

abbrev pub lift {ℓ} : {A : Type ℓ} → Result A → Outcome A
lift (Result.done a) = done a
lift (Result.fail e) = fail e

-- A chain that succeeds has a first step that does.
pub >>=-eq-done {ℓ κ} :
    {A : Type ℓ} {B : Type κ} (m : Outcome A) (f : A → Outcome B) {b : B}
    → (m >>= f) ≡ done b
    → (a : A) × (m ≡ done a) × (f a ≡ done b)
>>=-eq-done (done a) f h = (a, refl, h)
>>=-eq-done (fail e) f h = cc
>>=-eq-done panic f h = cc

-- A call that ends in a value or an error.
abbrev pub Safe {ℓ} : {A : Type ℓ} → Outcome A → Type ℓ
Safe m = m ≢ panic

pub lift-Safe {ℓ} : {A : Type ℓ} (r : Result A) → Safe (lift r)
lift-Safe (Result.done a) = cc
lift-Safe (Result.fail e) = cc

-- A chain is safe when its first step is, and what follows is safe for every value of it.
pub >>=-Safe {ℓ κ} :
    {A : Type ℓ} {B : Type κ} (m : Outcome A) (f : A → Outcome B)
    → Safe m
    → ((a : A) → m ≡ done a → Safe (f a))
    → Safe (m >>= f)
>>=-Safe (done a) f h k = k a refl
>>=-Safe (fail e) f h k = λ p. cc
>>=-Safe panic f h k = absurd (h refl)
