-- ===== src/Float64/Rounding.antt =====
-- How far a rounded quotient can lie above the exact one, and the products that get smaller.
use native.Mathlib.Nat.{
  mul-le-mul_left, mul-le-mul_right, div-add-mod, div-add-mod', mul_assoc, le-div_iff_mul-le,
  one-le-pow, pow-suc, lt_of_mul-lt-mul_right, mod-lt, mul-pos,
}
use evm_arbitrage.Base.{
  ℕ, zero, suc, ◌+◌, ◌-◌, ◌*◌, ◌/◌, ◌%◌, ◌^◌, ◌≤◌, ◌<◌, ◌≡◌, sym, subst, arith, inl, inr,
  Bool-cases, ltb, leb, ltb→lt, leb→le, if◌then◌else◌,
}
use evm_arbitrage.Float64.{log2_below, log2, round_to, round}

pow_add : (a b : ℕ) → 2 ^ (a + b) ≡ 2 ^ a * 2 ^ b
pow_add a zero = let e : a + 0 ≡ a = omega arith in rw e (omega arith)
pow_add a (suc b) =
    let e : a + suc b ≡ suc (a + b) = omega arith in
    rw (e, pow-suc 2 (a + b), pow-suc 2 b, pow_add a b) (mul_assoc (2 ^ a) (2 ^ b) 2)

-- A number is at least the power of two at the position of its highest bit.
log2_below-le : (k n : ℕ) → 0 < n → 2 ^ log2_below k n ≤ n
unfolding log2_below
log2_below-le zero n h = omega arith
log2_below-le (suc k) n h = elim (Bool-cases (leb (2 ^ (2 ^ k)) n)) [
  | inl big ↦
      let half = 2 ^ (2 ^ k) in
      let positive : 0 < n / half =
        (le-div_iff_mul-le {k = half} {x = 1} {y = n} (one-le-pow (2 ^ k) 2 (omega arith))).1
          (omega (arith, leb→le half n big)) in
      let ih = log2_below-le k (n / half) positive in
      let step : half * 2 ^ log2_below k (n / half) ≤ half * (n / half) = mul-le-mul_left half ih in
      rw big
        (rw (pow_add (2 ^ k) (log2_below k (n / half))) (omega (arith, step, div-add-mod n half)))
  | inr small ↦ rw small (log2_below-le k n h)
]

-- The exponent of the last bit that is kept, with 53 bits.
abbrev exponent : ℕ → ℕ
exponent q = if ltb 52 (log2 q) then log2 q - 52 else 0

exponent_le : (q : ℕ) → 2 ^ 52 * 2 ^ exponent q ≤ 2 ^ 52 + q
unfolding log2
exponent_le zero = omega arith
exponent_le (suc p) = elim (Bool-cases (ltb 52 (log2 (suc p)))) [
  | inl high ↦
      let e = log2 (suc p) - 52 in
      let split : 2 ^ log2 (suc p) ≡ 2 ^ 52 * 2 ^ e =
        subst (λ n. 2 ^ n ≡ 2 ^ 52 * 2 ^ e) (ground (arith, ltb→lt 52 (log2 (suc p)) high))
          (pow_add 52 e) in
      rw high (omega (arith, split, log2_below-le 13 (suc p) (omega arith)))
  | inr low ↦ rw low (omega arith)
]

-- The quotient of num and d, rounded to nearest with ties to even.
abbrev nearest : ℕ → ℕ → ℕ
nearest num d =
    let k = num / d in
    let r = num % d in if ltb (2 * r) d then k else if ltb d (2 * r) then k + 1 else k + k % 2

times_le : (k d c : ℕ) → c ≤ 1 → (k + c) * d ≤ k * d + d
times_le k d c h = omega (arith, mul-le-mul_right d h)

-- It lies at most half above.
nearest_le : (num d : ℕ) → 2 * (nearest num d * d) ≤ 2 * num + d
nearest_le num d = elim (Bool-cases (ltb (2 * (num % d)) d)) [
  | inl below ↦
      let same : nearest num d ≡ num / d = ground arith in
      subst (λ k. 2 * (k * d) ≤ 2 * num + d) (sym same) (omega (arith, div-add-mod' num d))
  | inr other ↦ elim (Bool-cases (ltb d (2 * (num % d)))) [
    | inl above ↦
        let same : nearest num d ≡ num / d + 1 = ground arith in
        subst (λ k. 2 * (k * d) ≤ 2 * num + d) (sym same)
          (omega (arith, div-add-mod' num d, ltb→lt d (2 * (num % d)) above))
    | inr tie ↦
        let same : nearest num d ≡ num / d + num / d % 2 = ground arith in
        let reached : d ≤ 2 * (num % d) = ground arith in
        subst (λ k. 2 * (k * d) ≤ 2 * num + d) (sym same)
          (omega
            (arith, div-add-mod' num d, times_le (num / d) d (num / d % 2) (omega arith), reached))
  ]
]

-- It lies at most half below.
nearest_ge : (num d : ℕ) → 0 < d → 2 * num ≤ 2 * (nearest num d * d) + d
nearest_ge num d h = elim (Bool-cases (ltb (2 * (num % d)) d)) [
  | inl below ↦
      let same : nearest num d ≡ num / d = ground arith in
      subst (λ k. 2 * num ≤ 2 * (k * d) + d) (sym same)
        (omega (arith, div-add-mod' num d, ltb→lt (2 * (num % d)) d below))
  | inr other ↦ elim (Bool-cases (ltb d (2 * (num % d)))) [
    | inl above ↦
        let same : nearest num d ≡ num / d + 1 = ground arith in
        subst (λ k. 2 * num ≤ 2 * (k * d) + d) (sym same)
          (omega (arith, div-add-mod' num d, mod-lt num h))
    | inr tie ↦
        let same : nearest num d ≡ num / d + num / d % 2 = ground arith in
        let reached : 2 * (num % d) ≤ d = ground arith in
        subst (λ k. 2 * num ≤ 2 * (k * d) + d) (sym same)
          (omega (arith, div-add-mod' num d, reached, mul-le-mul_right d (grows num d)))
  ]
]
  where
    grows : (num d : ℕ) → num / d ≤ num / d + num / d % 2
    grows num d = omega arith

combine :
    (k p den num q : ℕ)
    → 2 * (k * (den * p)) ≤ 2 * num + den * p
    → 2 ^ 52 * p ≤ 2 ^ 52 + q
    → den * q ≤ num
    → 2 ^ 53 * (k * p * den) ≤ 2 ^ 53 * num + 2 ^ 52 * den + num
combine k p den num q above last whole = omega (arith, mul-le-mul_left den last)

-- A rounded quotient of num and den is at most a half of the last bit above it.
pub round_le : (num den : ℕ) → 2 ^ 53 * (round num den * den) ≤ 2 ^ 53 * num + 2 ^ 52 * den + num
unfolding round round_to
round_le num den =
    combine (nearest num (den * 2 ^ exponent (num / den))) (2 ^ exponent (num / den)) den num
      (num / den) (nearest_le num (den * 2 ^ exponent (num / den))) (exponent_le (num / den))
      (omega (arith, div-add-mod num den))

-- The product of n > 10 and a factor of 0.91 at most, the unit being u, is below n.
pub shrinks : (u n m : ℕ) → 0 < u → 100 * m ≤ 91 * u → 10 < n → round (n * m) u < n
shrinks u n m positive small large =
    lt_of_mul-lt-mul_right u
      (omega (arith, round_le (n * m) u, mul-le-mul_left n small, mul-le-mul_right u large))

-- A rounded product of n and a factor of 1 at most, the unit being u, and a rounded whole number.
pub round_product_le : (u n m : ℕ) → 0 < u → m ≤ u → round (n * m) u ≤ 2 * n + 1
round_product_le u n m positive small =
    le_of_not-above (round (n * m) u) (2 * n + 1)
      λ above. absurd_le u n m (round (n * m) u) positive small above (round_le (n * m) u)
  where
    le_of_not-above : (a b : ℕ) → (b < a → ⊥) → a ≤ b
    le_of_not-above a b h = ground (arith, h)

    absurd_le :
        (u n m r : ℕ)
        → 0 < u
        → m ≤ u
        → 2 * n + 1 < r
        → 2 ^ 53 * (r * u) ≤ 2 ^ 53 * (n * m) + 2 ^ 52 * u + n * m
        → ⊥
    absurd_le u n m r positive small above le =
        omega (arith, mul-le-mul_left n small, mul-le-mul_right u above)

pub round_whole_le : (n : ℕ) → round n 1 ≤ 2 * n + 1
round_whole_le n = omega (arith, round_le n 1)

combine_ge :
    (k p den num q : ℕ)
    → 2 * num ≤ 2 * (k * (den * p)) + den * p
    → 2 ^ 52 * p ≤ 2 ^ 52 + q
    → den * q ≤ num
    → den ≤ num
    → num ≤ 4 * (k * p * den)
combine_ge k p den num q below last whole enough = omega (arith, mul-le-mul_left den last)

-- A rounded quotient of 1 or more is at least a quarter of the exact one.
pub round_ge : (num den : ℕ) → 0 < den → den ≤ num → num ≤ 4 * (round num den * den)
unfolding round round_to
round_ge num den positive enough =
    combine_ge (nearest num (den * 2 ^ exponent (num / den))) (2 ^ exponent (num / den)) den num
      (num / den)
      (nearest_ge num (den * 2 ^ exponent (num / den))
        (mul-pos positive (one-le-pow (exponent (num / den)) 2 (omega arith))))
      (exponent_le (num / den)) (omega (arith, div-add-mod num den)) enough
