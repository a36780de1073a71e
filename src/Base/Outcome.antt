-- ===== src/Base/Outcome.antt =====
-- The results of Go code that may panic, and of Go functions that return an error.
use evm_arbitrage.Base.{◌≡◌, refl, Option, none, some, arith}

-- `panic` is a run-time panic, such as an index out of range or a nil pointer read.
pub data Outcome {ℓ} (A : Type ℓ) : Type ℓ where
  ok : A → Outcome A
  panic : Outcome A

infixl 5 ◌>>=◌
abbrev pub ◌>>=◌ {ℓ κ} : {A : Type ℓ} {B : Type κ} → Outcome A → (A → Outcome B) → Outcome B
ok a >>= f = f a
panic >>= f = panic

-- A value that is there, or a panic.
abbrev pub need {ℓ} : {A : Type ℓ} → Option A → Outcome A
need (some a) = ok a
need none = panic

-- A sequence that did not panic: its first part gave a value, and the rest ran from there.
pub >>=-eq-ok {ℓ κ} :
    {A : Type ℓ} {B : Type κ} (first : Outcome A) (rest : A → Outcome B) {r : B}
    → (first >>= rest) ≡ ok r
    → (x : A) × (first ≡ ok x) × (rest x ≡ ok r)
>>=-eq-ok panic rest run = cc
>>=-eq-ok (ok x) rest run = (x, refl, run)

pub need-eq-ok {ℓ} : {A : Type ℓ} (o : Option A) {a : A} → need o ≡ ok a → o ≡ some a
need-eq-ok (some b) h = cc
need-eq-ok none h = cc

pub ok-inj {ℓ} : {A : Type ℓ} {a b : A} → ok a ≡ ok b → a ≡ b
ok-inj e = ground arith

-- A result of a sequence that did not panic and then only computes.
pub total-map {ℓ κ} :
    {A : Type ℓ} {B : Type κ} (first : Outcome A) (f : A → B)
    → (x : A) × (first ≡ ok x)
    → (r : B) × ((first >>= λ x. ok (f x)) ≡ ok r)
total-map first f (x, e) = (f x, rw e refl)
