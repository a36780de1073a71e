-- ===== src/Trader/Tests.antt =====
-- A swap there and back over two pairs, with a node that answers.
use evm_arbitrage.Base.{◌≡◌, ◌≢◌, refl, true, some, List, [], ◌∷◌}
use evm_arbitrage.Base.Bytes.{codes}
use evm_arbitrage.Base.Int.{pos}
use evm_arbitrage.Base.Outcome.{ok}
use evm_arbitrage.Float64.{Float64, plus, add, sub, mul, div, le, of_ℕ, of_ℤ, of_ratio, to_int64}
use evm_arbitrage.Protocol.{UniswapV2Pair}
use evm_arbitrage.Protocol.Amounts.{fee_base, get_amount_out, swap_step, swap_path, get_amounts_out}
use evm_arbitrage.Protocol.Samples.{pair_at, state_at}
use evm_arbitrage.Trader.{
  Trader, Transaction, Chain, swap_gas, swap_base_eth_gas, min_gas_price, estimate_fee,
  gas_price_from_fee, check_price, spendable, final_check, hex_digit, hex_digits, print_hex,
  print_hex_ℤ, directions, print_steps, param_str, to_uint64, swap_transaction, send_checked,
  swap_v2,
}
use evm_arbitrage.Trader.Directions.{Leads, get_amounts_out-Leads}
use evm_arbitrage.Trader.Swap.{IsSent, swap_v2-IsSent}

program : Unit {0}
unfolding fee_base get_amount_out swap_step swap_path get_amounts_out add sub mul div le of_ℕ of_ℤ
    of_ratio to_int64 swap_gas swap_base_eth_gas min_gas_price estimate_fee gas_price_from_fee
    check_price spendable final_check hex_digit hex_digits print_hex print_hex_ℤ directions
    print_steps param_str to_uint64 swap_transaction send_checked swap_v2
program = tt

-- 7 is traded for 8 at 10^18 : 10^18 and back at 10^18 : 4 * 10^18.
abbrev profit : List UniswapV2Pair
profit =
    record (pair_at 100 (state_at 5 0)) {
      reserve0 = some (pos 1000000000000000000);
      reserve1 = some (pos 1000000000000000000);
    }
    ∷ record (pair_at 101 (state_at 5 1)) {
      reserve0 = some (pos 4000000000000000000);
      reserve1 = some (pos 1000000000000000000);
    }
    ∷ []

abbrev node : Chain
node = record {
  pack = λ text. some text;
  estimate_gas = λ input limit price. some 200000;
  nonce_at = some 9;
  signs = λ tx. true;
}

-- The gain buys a price between the least one and the suggested one.
abbrev prices : Trader
prices = record { gas_price = pos 40000000000; eth_gas_price = pos 1000 }

abbrev amount : Float64
amount = of_ℕ 2000000000000000

abbrev sent : Transaction
sent = record {
  nonce = 9;
  gas = 220000;
  gas_price = pos 2000000000;
  input =
      codes
        "000000071afd498d0000000000000000000000000000000000000000006401001e000000000000000000000000000000000000006500001e";
}

encoded :
    param_str 7 (of_ℕ 255) (profit)
    ≡ codes
        "000000000000000000ff000000000000000000000000000000000000006401001e000000000000000000000000000000000000006500001e"
unfolding program
encoded = refl

swapped : swap_v2 node 7 prices amount profit ≡ ok (some sent)
unfolding program
swapped = refl

swap_v2-IsSent_example : IsSent node 7 prices amount profit sent
swap_v2-IsSent_example = swap_v2-IsSent node 7 prices amount profit sent swapped

-- What the path pays for the amount.
abbrev paid : Float64
paid =
    get_amount_out
      (get_amount_out amount (of_ℕ 1000000000000000000) (of_ℕ 1000000000000000000) (of_ℕ 30))
      (of_ℕ 1000000000000000000) (of_ℕ 4000000000000000000) (of_ℕ 30)

computed : get_amounts_out 7 amount profit ≡ ok paid
unfolding program
computed = refl

paid_ne_zero : paid ≢ plus 0
unfolding program
paid_ne_zero = λ h. cc

get_amounts_out-Leads_example : Leads 7 (directions 7 profit) 7
get_amounts_out-Leads_example = get_amounts_out-Leads 7 amount profit paid computed paid_ne_zero
