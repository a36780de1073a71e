-- ===== src/Arbitrage/Trade/Halting.antt =====
-- The search of `tryTrade` for an amount comes to an end.
use evm_arbitrage.Base.{
  ℕ, zero, suc, ◌*◌, ◌≤◌, ◌<◌, ◌≡◌, refl, sym, ap, subst, ◌∙◌, true, false, All, Option, none, some,
  List, [], ◌∷◌, arith, inl, inr, Bool-cases, Option-cases, leb→le, lt→ltb,
}
use evm_arbitrage.Base.Int.{ℤ}
use evm_arbitrage.Base.Outcome.{Outcome, ok}
use evm_arbitrage.Float64.{
  Float64, nan, plus, one_units, overflow_units, round, finite, magnitude, add, mul, le, lt,
  of_ratio, is_nan, is_inf, is_zero, is_neg, xor_sign,
}
use evm_arbitrage.Float64.Rounding.{shrinks}
use evm_arbitrage.Protocol.{UniswapV2Pair}
use evm_arbitrage.Protocol.Amounts.{swap_step, swap_path, get_amounts_out}
use evm_arbitrage.Arbitrage.Trade.{Search, stop, trade, search_amount}

-- Neither reserve is nil.
pub record HasReserves (p : UniswapV2Pair) : Type 0 where
  pub r0 : ℤ
  pub r1 : ℤ
  pub left : p.reserve0 ≡ some r0
  pub right : p.reserve1 ≡ some r1

swap_step-total :
    (p : UniswapV2Pair) (s : ℕ × Float64)
    → HasReserves p
    → (r : Option (ℕ × Float64)) × (swap_step p s ≡ ok r)
unfolding swap_step
swap_step-total p (token, amount) h = rw (h.left, h.right) (_, refl)

swap_path-total :
    (ps : List UniswapV2Pair) (s : ℕ × Float64)
    → All HasReserves ps
    → (r : Option (ℕ × Float64)) × (swap_path ps s ≡ ok r)
unfolding swap_path
swap_path-total [] s h = (some s, refl)
swap_path-total (p ∷ ps) s h =
    let (r, e) = swap_step-total p s h.0 in
    elim (Option-cases r) [
      | inl none_left ↦ (none, rw (e, none_left) refl)
      | inr (s', more) ↦ let (r', e') = swap_path-total ps s' h.1 in (r', rw (e, more) e')
    ]

pub get_amounts_out-total :
    (token : ℕ) (amount : Float64) (ps : List UniswapV2Pair)
    → All HasReserves ps
    → (x : Float64) × (get_amounts_out token amount ps ≡ ok x)
unfolding get_amounts_out
get_amounts_out-total token amount ps h =
    let (r, e) = swap_path-total ps (token, amount) h in rw e (_, refl)

-- 0.9 in units, rounded.
abbrev nine_units : ℕ
nine_units = round (9 * one_units) 10

of_ratio_lem : of_ratio 9 10 ≡ plus nine_units
unfolding of_ratio finite round
of_ratio_lem = refl

nine_small : 100 * nine_units ≤ 91 * one_units
unfolding round
nine_small = leb→le (100 * nine_units) (91 * one_units) refl

pub mul_plus : (n m : ℕ) → mul (plus n) (plus m) ≡ finite false (round (n * m) one_units)
unfolding mul is_nan is_inf is_zero is_neg xor_sign magnitude
mul_plus n m = refl

-- A tenth less of a double of more than 10 units is fewer units.
cut :
    (n : ℕ)
    → 10 < n
    → n < overflow_units
    → (k : ℕ) × (mul (plus n) (of_ratio 9 10) ≡ plus k) × (k < n)
unfolding finite
cut n large finite_n =
    let k = round (n * nine_units) one_units in
    let less : k < n = shrinks one_units n nine_units (omega arith) nine_small large in
    (
      k,
      rw (of_ratio_lem, mul_plus n nine_units)
          (rw (lt→ltb k overflow_units (omega (arith, less, finite_n))) refl),
      less,
    )

large_of_not-lt :
    (n : ℕ) (min : Float64) → lt (plus 10) min ≡ true → lt (plus n) min ≡ false → 10 < n
large_of_not-lt n nan h k = ground arith
large_of_not-lt n _ h k = ground arith

-- The search came to an end: without an amount, or with one.
pub data Ended (r : Outcome Search) : Type 0 where
  stopped : r ≡ ok stop → Ended r
  traded : (amount out : Float64) → r ≡ ok (trade amount out) → Ended r

module _ (weth_address : ℕ) (path : List UniswapV2Pair) (min_recieve : Float64) (f : ℕ)
    (amount out : Float64) (paid : get_amounts_out weth_address amount path ≡ ok out) where
  search_amount-paid :
      search_amount (suc f) weth_address path min_recieve amount
      ≡ elim (le out (add amount min_recieve)) [
        | true ↦ elim (lt amount min_recieve) [
          | true ↦ ok stop
          | false ↦ search_amount f weth_address path min_recieve (mul amount (of_ratio 9 10))
        ]
        | false ↦ ok (trade amount out)
      ]
  unfolding search_amount
  search_amount-paid = rw paid refl

  pub search_amount-good :
      le out (add amount min_recieve) ≡ false
      → search_amount (suc f) weth_address path min_recieve amount ≡ ok (trade amount out)
  search_amount-good good = search_amount-paid ∙ rw good refl

  pub search_amount-low :
      le out (add amount min_recieve) ≡ true
      → lt amount min_recieve ≡ true
      → search_amount (suc f) weth_address path min_recieve amount ≡ ok stop
  search_amount-low poor low = search_amount-paid ∙ rw (poor, low) refl

  pub search_amount-cut :
      le out (add amount min_recieve) ≡ true
      → lt amount min_recieve ≡ false
      → search_amount (suc f) weth_address path min_recieve amount
        ≡ search_amount f weth_address path min_recieve (mul amount (of_ratio 9 10))
  search_amount-cut poor high = search_amount-paid ∙ rw (poor, high) refl

module _ (weth_address : ℕ) (path : List UniswapV2Pair) (min_recieve : Float64)
    (reserves : All HasReserves path) (large : lt (plus 10) min_recieve ≡ true) where
  -- When no reserve of the pairs is nil and the least gain is above ten units (of 2^-1074), the search
  -- from a finite amount of n units ends within any fuel above n: it stops, or finds an amount to trade.
  pub search_amount-Ended :
      (fuel n : ℕ)
      → n < fuel
      → n < overflow_units
      → Ended (search_amount fuel weth_address path min_recieve (plus n))
  unfolding search_amount
  search_amount-Ended zero n enough finite_n = absurd (omega arith)
  search_amount-Ended (suc f) n enough finite_n =
      let (out, paid) = get_amounts_out-total weth_address (plus n) path reserves in
      elim (Bool-cases (le out (add (plus n) min_recieve))) [
        | inl poor ↦ elim (Bool-cases (lt (plus n) min_recieve)) [
          | inl low ↦
              Ended.stopped
                (search_amount-low weth_address path min_recieve f (plus n) out paid poor low)
          | inr high ↦
              let (k, e, less) = cut n (large_of_not-lt n min_recieve large high) finite_n in
              subst Ended
                (sym (
                  search_amount-cut weth_address path min_recieve f (plus n) out paid poor high
                  ∙ ap (search_amount f weth_address path min_recieve) e))
                (search_amount-Ended f k (omega arith) (omega arith))
        ]
        | inr good ↦
            Ended.traded (plus n) out
              (search_amount-good weth_address path min_recieve f (plus n) out paid good)
      ]
