-- ===== src/Protocol/Amounts/Sign.antt =====
-- A swap never pays out a negative amount.
use evm_arbitrage.Base.{ℕ, ◌≡◌, refl, true, false, arith, Bool-cases, inl, inr, ltb, leb}
use evm_arbitrage.Float64.{
  Float64, nan, pos_inf, neg_inf, plus, minus, is_neg, lt, le, sub, difference,
}
use evm_arbitrage.Float64.Sign.{
  Unsigned, unsigned, is_neg-Unsigned, finite-Unsigned, add-Unsigned, mul-Unsigned, div-Unsigned,
}
use evm_arbitrage.Protocol.Amounts.{fee_base, get_amount_out}

-- What is not `<= 0` is positive or NaN.
positive-Unsigned : (x : Float64) → le x (plus 0) ≡ false → Unsigned x
unfolding le is_neg
positive-Unsigned nan h = unsigned refl
positive-Unsigned pos_inf h = unsigned refl
positive-Unsigned neg_inf h = absurd (cc)
positive-Unsigned (plus a) h = unsigned refl
positive-Unsigned (minus a) h = absurd (ground arith)

fee_base_lem : (a : ℕ) × (fee_base ≡ plus a)
unfolding fee_base
fee_base_lem = (_, refl)

leb_of_not-ltb : (a b : ℕ) → ltb a b ≡ false → leb b a ≡ true
leb_of_not-ltb a b h = ground arith

difference-Unsigned : (a b : ℕ) → ltb a b ≡ false → Unsigned (difference a b)
unfolding difference
difference-Unsigned a b h = rw (leb_of_not-ltb a b h) (finite-Unsigned _)

-- A fee that is not above 10000 leaves a share that is not negative.
share-Unsigned :
    (fee : Float64) → Unsigned fee → lt fee_base fee ≡ false → Unsigned (sub fee_base fee)
unfolding sub is_neg
share-Unsigned nan h k = rw (fee_base_lem.1) (unsigned refl)
share-Unsigned pos_inf h k = absurd (ground (arith, fee_base_lem.1))
share-Unsigned neg_inf (unsigned h) k = absurd (cc)
share-Unsigned (plus b) h k =
    rw fee_base_lem.1 (difference-Unsigned fee_base_lem.0 b (rw fee_base_lem.1 at k))
share-Unsigned (minus b) (unsigned h) k = absurd (cc)

amount-Unsigned :
    (amount_in reserve_in reserve_out fee : Float64)
    → Unsigned fee
    → lt fee_base fee ≡ false
    → Unsigned (get_amount_out amount_in reserve_in reserve_out fee)
unfolding get_amount_out
amount-Unsigned amount_in reserve_in reserve_out fee h k =
    elim (Bool-cases (le amount_in (plus 0))) [
      | inl a ↦ rw a zero-Unsigned
      | inr a ↦ elim (Bool-cases (le reserve_in (plus 0))) [
        | inl b ↦ rw (a, b) zero-Unsigned
        | inr b ↦ elim (Bool-cases (le reserve_out (plus 0))) [
          | inl c ↦ rw (a, b, c) zero-Unsigned
          | inr c ↦
              let with_fee =
                mul-Unsigned amount_in (sub fee_base fee) (positive-Unsigned amount_in a)
                  (share-Unsigned fee h k) in
              let base = base-Unsigned in
              rw (a, b, c)
                (div-Unsigned _ _ (mul-Unsigned _ _ with_fee (positive-Unsigned reserve_out c)) (
                  add-Unsigned _ _ (mul-Unsigned _ _ (positive-Unsigned reserve_in b) base)
                    with_fee))
        ]
      ]
    ]
  where
    zero-Unsigned : Unsigned (plus 0)
    zero-Unsigned = unfold is_neg in unsigned refl

    base-Unsigned : Unsigned fee_base
    base-Unsigned = unfold is_neg in rw fee_base_lem.1 (unsigned refl)

not-lt-zero : (x : Float64) → Unsigned x → lt x (plus 0) ≡ false
unfolding is_neg
not-lt-zero nan h = refl
not-lt-zero pos_inf h = refl
not-lt-zero neg_inf (unsigned h) = absurd (cc)
not-lt-zero (plus a) h = ground arith
not-lt-zero (minus a) (unsigned h) = absurd (cc)

-- `GetAmountOut` never returns a value below zero, nor -0, when the fee is neither negative nor above
-- 10000, whatever the amount and the reserves are, NaN and the infinities included.
pub get_amount_out-not-neg :
    (amount_in reserve_in reserve_out fee : Float64)
    → is_neg fee ≡ false
    → lt fee_base fee ≡ false
    → (lt (get_amount_out amount_in reserve_in reserve_out fee) (plus 0) ≡ false)
      × (is_neg (get_amount_out amount_in reserve_in reserve_out fee) ≡ false)
get_amount_out-not-neg amount_in reserve_in reserve_out fee h k =
    let u = amount-Unsigned amount_in reserve_in reserve_out fee (unsigned h) k in
    (not-lt-zero _ u, is_neg-Unsigned u)
