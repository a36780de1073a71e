-- ===== src/Trader.antt =====
-- monitor/trader/trader.go: the gas prices, the estimates of gas and fee, and the transaction of a swap
-- with its last check. What the chain's node answers, the packing of the ABI and the signature
-- are parameters; `none` is a returned error.
use evm_arbitrage.Base.{
  ℕ, zero, suc, ◌+◌, ◌-◌, ◌*◌, ◌/◌, ◌%◌, ◌^◌, Bool, true, false, Option, none, some, List, [], ◌∷◌,
  ◌++◌, length, replicate, ltb, ◌==◌, if◌then◌else◌,
}
use evm_arbitrage.Base.Bytes.{Bytes}
use evm_arbitrage.Base.Int.{ℤ, pos, negsuc, ltb_ℤ}
use evm_arbitrage.Base.Outcome.{Outcome, ok, ◌>>=◌}
use evm_arbitrage.Float64.{
  Float64, plus, minus, one_units, add, sub, mul, div, lt, of_ℕ, of_ℤ, of_ratio, to_int64,
}
use evm_arbitrage.Protocol.{UniswapV2Pair}
use evm_arbitrage.Protocol.Amounts.{get_amounts_out}
pub mod Swap
pub mod Directions
pub mod Tests

-- The prices that the watcher keeps.
pub record Trader : Type 0 where
  pub gas_price : ℤ
  pub eth_gas_price : ℤ

-- `NewTrader`
abbrev pub new_trader : Trader
new_trader = record { gas_price = pos 120000000; eth_gas_price = pos 20000000000 }

-- `fetchGasPrice` and `fetchETHGasPrice`, with the price that the node suggests, and whether there
-- was no error: only a price above 0 is kept.
unfoldable pub fetch_gas_price : Option ℤ → Trader → Trader × Bool
fetch_gas_price none t = (t, false)
fetch_gas_price (some p) t = (if ltb_ℤ (pos 0) p then record t { gas_price = p } else t, true)

unfoldable pub fetch_eth_gas_price : Option ℤ → Trader → Trader × Bool
fetch_eth_gas_price none t = (t, false)
fetch_eth_gas_price (some p) t =
    (if ltb_ℤ (pos 0) p then record t { eth_gas_price = p } else t, true)

-- A round of `loopWatcher`; errors are logged.
unfoldable pub watch_round : Option ℤ → Option ℤ → Trader → Trader
unfolding fetch_gas_price fetch_eth_gas_price
watch_round gas eth t = (fetch_eth_gas_price eth (fetch_gas_price gas t).0).0

-- `swapGas` and `swapBaseEthGas`.
unfoldable pub swap_gas : ℕ → Float64
swap_gas len =
    if len == 2
    then of_ℕ 210000
    else if len == 3
    then of_ℕ 250000
    else if len == 4
    then of_ℕ 320000
    else if len == 5
    then of_ℕ 360000
    else of_ℕ (80000 + len * 60000)

unfoldable pub swap_base_eth_gas : ℕ → Float64
swap_base_eth_gas len =
    if len == 2
    then of_ℕ 2100
    else if len == 3
    then of_ℕ 2400
    else if len == 4
    then of_ℕ 2600
    else if len == 5
    then of_ℕ 2800
    else of_ℕ (1800 + len * 200)

-- `MinGasPrice`, `EstimateFee` and `gasPriceFromFee`.
unfoldable pub min_gas_price : Trader → Float64
min_gas_price t = div (of_ℤ t.gas_price) (of_ℕ 20)

unfoldable pub estimate_fee : Trader → ℕ → Float64
unfolding min_gas_price swap_gas swap_base_eth_gas
estimate_fee t len =
    add (mul (swap_gas len) (min_gas_price t)) (mul (of_ℤ t.eth_gas_price) (swap_base_eth_gas len))

unfoldable pub gas_price_from_fee : Trader → ℕ → ℕ → Float64 → Float64
unfolding swap_base_eth_gas
gas_price_from_fee t len gas_used fee =
    div (sub fee (mul (of_ℤ t.eth_gas_price) (swap_base_eth_gas len))) (of_ℕ gas_used)

-- The end of `finalCheck`, with the fee that may be spent and the price that it buys.
unfoldable pub check_price : Trader → Float64 → Float64 → Option ℤ
unfolding min_gas_price
check_price t fee max_gas_price =
    if lt max_gas_price (min_gas_price t)
    then none
    else if lt max_gas_price (of_ℤ t.gas_price)
    then some (to_int64 (min_gas_price t))
    else if lt (of_ratio 1 1000) fee
    then none
    else some (to_int64 max_gas_price)

-- The fee that may be spent: the gain by 1.2.
unfoldable pub spendable : Float64 → Float64 → Float64
spendable amount_out input_amount = div (sub amount_out input_amount) (of_ratio 12 10)

unfoldable pub final_check : ℕ → Trader → ℕ → Float64 → List UniswapV2Pair → Outcome (Option ℤ)
unfolding check_price gas_price_from_fee spendable
final_check weth_address t gas_used input_amount pair_path = do
  amount_out ← get_amounts_out weth_address input_amount pair_path
  let fee = spendable amount_out input_amount
  ok (check_price t fee (gas_price_from_fee t (length pair_path) gas_used fee))

-- The verb %x of a number, with its width in digits; the fuel n is enough, since n / 16 < n.
unfoldable pub hex_digit : ℕ → ℕ
hex_digit d = if ltb d 10 then b'0' + d else b'a' + (d - 10)

unfoldable pub hex_digits : ℕ → ℕ → Bytes → Bytes
unfolding hex_digit
hex_digits zero n out = out
hex_digits (suc f) n out = elim (n == 0) [
  | true ↦ out
  | false ↦ hex_digits f (n / 16) (hex_digit (n % 16) ∷ out)
]

unfoldable pub print_hex : ℕ → ℕ → Bytes
unfolding hex_digits
print_hex width n =
    let text = if n == 0 then b'0' ∷ [] else hex_digits n n [] in
    replicate (width - length text) b'0' ++ text

unfoldable pub print_hex_ℤ : ℕ → ℤ → Bytes
unfolding print_hex
print_hex_ℤ width (pos n) = print_hex width n
print_hex_ℤ width (negsuc n) = b'-' ∷ print_hex (width - 1) (n + 1)

-- The direction of each pair, true out of token0; `in_addr` is the token that is held.
unfoldable pub directions : ℕ → List UniswapV2Pair → List (UniswapV2Pair × Bool)
directions in_addr [] = []
directions in_addr (pair ∷ pairs) =
    let out = pair.token0 == in_addr in
    (pair, out) ∷ directions (if out then pair.token1 else pair.token0) pairs

-- The parameters of the swap as hexadecimal text.
unfoldable pub print_steps : List (UniswapV2Pair × Bool) → Bytes
unfolding print_hex print_hex_ℤ
print_steps [] = []
print_steps ((pair, out) ∷ steps) =
    print_hex 40 pair.address
    ++ print_hex 2 (if out then 1 else 0)
    ++ print_hex_ℤ 4 pair.fee
    ++ print_steps steps

unfoldable pub param_str : ℕ → Float64 → List UniswapV2Pair → Bytes
unfolding directions print_steps print_hex_ℤ
param_str weth_address input_amount pair_path =
    print_hex_ℤ 20 (to_int64 input_amount) ++ print_steps (directions weth_address pair_path)

-- `uint64(x)`; out of range Go leaves the result to the processor, as on amd64.
unfoldable pub to_uint64 : Float64 → ℕ
to_uint64 (plus a) = let n = a / one_units in if ltb n (2 ^ 64) then n else 2 ^ 63
to_uint64 (minus a) =
    let n = a / one_units in if ltb n (2 ^ 63) then (2 ^ 64 - n) % 2 ^ 64 else 2 ^ 63
to_uint64 _ = 2 ^ 63

pub record Transaction : Type 0 where
  pub nonce : ℕ
  pub gas : ℕ
  pub gas_price : ℤ
  pub input : Bytes

-- What the node, the ABI and the key answer: the packed call of a text, the gas of a call at a price
-- with a limit, the next nonce, and whether the signing succeeds.
pub record Chain : Type 0 where
  pub pack : Bytes → Option Bytes
  pub estimate_gas : Bytes → ℕ → ℤ → Option ℕ
  pub nonce_at : Option ℕ
  pub signs : Transaction → Bool

-- The transaction, up to its signature.
unfoldable pub swap_transaction :
    Chain → ℕ → Trader → Float64 → List UniswapV2Pair → Option (ℕ × Transaction)
unfolding min_gas_price param_str to_uint64
swap_transaction c weth_address t input_amount pair_path =
    let price = to_int64 (min_gas_price t) in
    if ltb_ℤ (pos 0) price
    then elim (c.pack (param_str weth_address input_amount pair_path)) [
      | none ↦ none
      | some input ↦ elim (c.estimate_gas input (70000 + length pair_path * 100000) price) [
        | none ↦ none
        | some gas_used ↦ elim c.nonce_at [
          | none ↦ none
          | some nonce ↦
              let tx : Transaction = record {
                nonce = nonce;
                gas = to_uint64 (mul (of_ℕ gas_used) (of_ratio 11 10));
                gas_price = price;
                input = input;
              } in
              if c.signs tx then some (gas_used, tx) else none
        ]
      ]
    ]
    else none

-- The end of `SwapV2`, with the transaction and the gas that was estimated: the last check, then the
-- sending. The price of the check is written to the call, which nothing reads after.
unfoldable pub send_checked :
    ℕ
    → Trader
    → Float64
    → List UniswapV2Pair
    → Option (ℕ × Transaction)
    → Outcome (Option Transaction)
unfolding final_check
send_checked weth_address t input_amount pair_path none = ok none
send_checked weth_address t input_amount pair_path (some (gas_used, tx)) = do
  price ← final_check weth_address t gas_used input_amount pair_path
  ok (elim price [ none ↦ none | some p ↦ some tx ])

-- `SwapV2`: the transaction that is sent.
unfoldable pub swap_v2 :
    Chain → ℕ → Trader → Float64 → List UniswapV2Pair → Outcome (Option Transaction)
unfolding swap_transaction send_checked
swap_v2 c weth_address t input_amount pair_path =
    send_checked weth_address t input_amount pair_path
      (swap_transaction c weth_address t input_amount pair_path)
