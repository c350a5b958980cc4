-- ===== src/Common/Outcomes.antt =====
-- What running a piece of the code comes to, and the monad of such runs.
use mathlib.Core.Path.{◌≡◌, refl}

-- `undefined` is undefined behaviour (an access out of bounds, a null pointer), `blocked` a wait
-- that nothing in the call itself ends, `thrown` an exception that leaves the call, and `exhausted` a
-- recursion deeper than its fuel.
pub data Outcome {ℓ} (A : Type ℓ) : Type ℓ where
  done : A → Outcome A
  undefined : Outcome A
  blocked : Outcome A
  thrown : Outcome A
  exhausted : Outcome A

infixl 5 ◌>>=◌ ◌>>◌
abbrev pub ◌>>=◌ {ℓ κ} : {A : Type ℓ} {B : Type κ} → Outcome A → (A → Outcome B) → Outcome B
done a >>= f = f a
undefined >>= f = undefined
blocked >>= f = blocked
thrown >>= f = thrown
exhausted >>= f = exhausted

abbrev pub ◌>>◌ {ℓ κ} : {A : Type ℓ} {B : Type κ} → Outcome A → Outcome B → Outcome B
m >> k = m >>= λ _. k

pub >>=-eq-done {ℓ κ} :
    {A : Type ℓ} {B : Type κ} (m : Outcome A) (f : A → Outcome B) {b : B}
    → (m >>= f) ≡ done b
    → (a : A) × (m ≡ done a) × (f a ≡ done b)
>>=-eq-done (done a) f h = (a, refl, h)
>>=-eq-done undefined f h = cc
>>=-eq-done blocked f h = cc
>>=-eq-done thrown f h = cc
>>=-eq-done exhausted f h = cc
