-- ===== src/Protocol/Amounts/Tests.antt =====
-- A swap there and back over two pairs.
use evm_arbitrage.Base.{◌*◌, ◌≡◌, ◌≢◌, refl, false, ◌↔◌, some, List, [], ◌∷◌}
use evm_arbitrage.Base.Int.{pos}
use evm_arbitrage.Base.Outcome.{ok}
use evm_arbitrage.Float64.{
  Float64, plus, add, sub, mul, div, lt, le, is_neg, of_ℕ, of_ℤ, of_ratio, one_units,
}
use evm_arbitrage.Protocol.{UniswapV2Pair}
use evm_arbitrage.Protocol.Amounts.{fee_base, get_amount_out, swap_step, swap_path, get_amounts_out}
use evm_arbitrage.Protocol.Amounts.Route.{Route, get_amounts_out-Route}
use evm_arbitrage.Protocol.Amounts.Sign.{get_amount_out-not-neg}
use evm_arbitrage.Protocol.Samples.{pair_at, state_at}

program : Unit {0}
unfolding fee_base get_amount_out swap_step swap_path get_amounts_out add sub mul div le is_neg of_ℕ
    of_ℤ of_ratio
program = tt

-- 7 is traded for 8 at 5000 : 40 and back at 40 : 20000, both without a fee.
abbrev there_and_back : List UniswapV2Pair
there_and_back =
    record (pair_at 100 (state_at 5 0)) { fee = pos 0 }
    ∷ record (pair_at 101 (state_at 5 1)) { fee = pos 0; reserve0 = some (pos 20000) }
    ∷ []

-- 5000 of token 7 buys 20 of token 8, which buys 20000 * 20 / 60 of token 7.
abbrev paid : Float64
paid =
    get_amount_out (get_amount_out (of_ℕ 5000) (of_ℕ 5000) (of_ℕ 40) (plus 0)) (of_ℕ 40)
      (of_ℕ 20000) (plus 0)

trade :
    (get_amount_out (of_ℕ 5000) (of_ℕ 5000) (of_ℕ 40) (plus 0) ≡ of_ℕ 20)
    × (get_amounts_out 7 (of_ℕ 5000) there_and_back ≡ ok (of_ratio 20000 3))
    × (get_amounts_out 9 (of_ℕ 5000) there_and_back ≡ ok (plus 0))
unfolding program
trade = (refl, refl, refl)

third_ne_zero : of_ratio 20000 3 ≢ plus 0
unfolding of_ratio
third_ne_zero = λ h. cc

get_amounts_out-Route_example :
    (get_amounts_out 7 (of_ℕ 5000) there_and_back ≡ ok (of_ratio 20000 3))
    ↔ Route 7 (of_ℕ 5000) there_and_back 7 (of_ratio 20000 3)
get_amounts_out-Route_example =
    get_amounts_out-Route 7 (of_ℕ 5000) there_and_back (of_ratio 20000 3) third_ne_zero

get_amount_out-not-neg_example :
    (lt (get_amount_out (of_ℕ 5000) (of_ℕ 5000) (of_ℕ 40) (plus (30 * one_units))) (plus 0) ≡ false)
    × (is_neg (get_amount_out (of_ℕ 5000) (of_ℕ 5000) (of_ℕ 40) (plus (30 * one_units))) ≡ false)
unfolding program
get_amount_out-not-neg_example =
    get_amount_out-not-neg (of_ℕ 5000) (of_ℕ 5000) (of_ℕ 40) (plus (30 * one_units)) refl refl
