-- ===== src/Base/Slice.antt =====
-- Go slices indexed by int: an index that is negative or too large panics.
use evm_arbitrage.Base.{
  ℕ, ◌<◌, ◌≡◌, some, List, ltb, lt→ltb, ltb→lt, Bool-cases, inl, inr, arith, if◌then◌else◌, length,
  get_elem?, set, replicate, get_elem?_of_lt,
}
use evm_arbitrage.Base.Int.{ℤ, pos, negsuc}
use evm_arbitrage.Base.Outcome.{Outcome, ok, panic, need, need-eq-ok}

module _ {ℓ} {A : Type ℓ} where
  -- xs[i]
  unfoldable pub at : List A → ℤ → Outcome A
  at xs (pos n) = need (get_elem? xs n)
  at xs (negsuc n) = panic

  -- xs[i] = v
  unfoldable pub put : List A → ℤ → A → Outcome (List A)
  put xs (pos n) v = if ltb n (length xs) then ok (set xs n v) else panic
  put xs (negsuc n) v = panic

  -- make([]A, n), filled with the zero value.
  unfoldable pub make : ℤ → A → Outcome (List A)
  make (pos n) a = ok (replicate n a)
  make (negsuc n) a = panic

  pub at_of_lt :
      (xs : List A) (n : ℕ)
      → n < length xs
      → (v : A) × (at xs (pos n) ≡ ok v) × (get_elem? xs n ≡ some v)
  unfolding at
  at_of_lt xs n h = let (v, e) = get_elem?_of_lt xs n h in (v, rw e, e)

  pub at-eq-ok : (xs : List A) (n : ℕ) {v : A} → at xs (pos n) ≡ ok v → get_elem? xs n ≡ some v
  unfolding at
  at-eq-ok xs n h = need-eq-ok (get_elem? xs n) h

  pub put_of_lt : (xs : List A) (n : ℕ) (v : A) → n < length xs → put xs (pos n) v ≡ ok (set xs n v)
  unfolding put
  put_of_lt xs n v h = rw (lt→ltb n (length xs) h)

pub put-eq-ok {ℓ} :
    {A : Type ℓ} (xs ys : List A) (n : ℕ) (v : A)
    → put xs (pos n) v ≡ ok ys
    → (ys ≡ set xs n v) × (n < length xs)
unfolding put
put-eq-ok xs ys n v h = elim (Bool-cases (ltb n (length xs))) [
  | inl inside ↦
      let e : ok (set xs n v) ≡ ok ys = rw inside at h in
      (ground arith, ltb→lt n (length xs) inside)
  | inr outside ↦ absurd (no_list (rw outside at h))
]
  where
    no_list : panic ≡ ok ys → ⊥
    no_list e = cc
