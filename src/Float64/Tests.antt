-- ===== src/Float64/Tests.antt =====
-- Values of the float64 model.
use evm_arbitrage.Base.{◌≡◌, refl, ◌*◌, ◌^◌}
use evm_arbitrage.Base.Int.{pos}
use evm_arbitrage.Float64.{
  nan, pos_inf, plus, minus, add, div, of_ℕ, of_ratio, to_int64, to_float32, one_units, log2,
}

log2_examples : (log2 1 ≡ 0) × (log2 1023 ≡ 9) × (log2 (2 ^ 3000) ≡ 3000)
unfolding log2
log2_examples = (refl, refl, refl)

three_tenths : add (of_ratio 1 10) (of_ratio 2 10) ≡ of_ratio 30000000000000004 100000000000000000
unfolding add of_ratio
three_tenths = refl

absorbed : add (of_ℕ (10 ^ 18)) (minus (30 * one_units)) ≡ of_ℕ (10 ^ 18)
unfolding add of_ℕ
absorbed = refl

zero_over_zero : (div (plus 0) (plus 0) ≡ nan) × (div (of_ℕ 1) (plus 0) ≡ pos_inf)
unfolding div of_ℕ
zero_over_zero = (refl, refl)

truncate : to_int64 (div (of_ℕ 7) (of_ℕ 2)) ≡ pos 3
unfolding div of_ℕ to_int64
truncate = refl

thirds : to_float32 (of_ratio 1 3) ≡ div (of_ℕ 11184811) (of_ℕ (2 ^ 25))
unfolding div of_ℕ to_float32 of_ratio
thirds = refl
