-- ===== src/Base/Fallible.antt =====
-- Go functions that return an error: `none` is a returned error, whose text is not kept.
use evm_arbitrage.Base.{◌≡◌, refl, Option, none, some, Bool, true, false}

infixl 5 ◌>>=◌ ◌>>◌
abbrev pub ◌>>=◌ {ℓ κ} : {A : Type ℓ} {B : Type κ} → Option A → (A → Option B) → Option B
none >>= f = none
some a >>= f = f a

abbrev pub ◌>>◌ {ℓ} : {B : Type ℓ} → Option (Unit {0}) → Option B → Option B
m >> k = m >>= λ _. k

-- `if !ok { return err }`
abbrev pub ensure : Bool → Option (Unit {0})
ensure true = some tt
ensure false = none

-- A sequence that returned no error.
pub >>=-eq-some {ℓ κ} :
    {A : Type ℓ} {B : Type κ} (first : Option A) (rest : A → Option B) {b : B}
    → (first >>= rest) ≡ some b
    → (a : A) × (first ≡ some a) × (rest a ≡ some b)
>>=-eq-some none rest run = cc
>>=-eq-some (some a) rest run = (a, refl, run)
