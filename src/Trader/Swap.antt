-- ===== src/Trader/Swap.antt =====
-- When `SwapV2` sends a transaction, and at which price.
use evm_arbitrage.Base.{
  ℕ, ◌+◌, ◌*◌, ◌≡◌, ap, ◌∙◌, ◌⊎◌, true, false, Option, none, some, List, length, arith, Bool-cases,
  Option-cases, inl, inr,
}
use evm_arbitrage.Base.Int.{ℤ, pos, ltb_ℤ}
use evm_arbitrage.Base.Outcome.{ok, >>=-eq-ok}
use evm_arbitrage.Float64.{Float64, div, lt, mul, of_ℕ, of_ℤ, of_ratio, sub, to_int64}
use evm_arbitrage.Protocol.{UniswapV2Pair}
use evm_arbitrage.Protocol.Amounts.{get_amounts_out}
use evm_arbitrage.Trader.{
  Trader, Transaction, Chain, min_gas_price, gas_price_from_fee, check_price, spendable,
  final_check, swap_transaction, send_checked, swap_v2, param_str, to_uint64,
}

check_price-eq-some :
    (t : Trader) (fee max : Float64) (p : ℤ)
    → check_price t fee max ≡ some p
    → (lt max (min_gas_price t) ≡ false)
      × ((lt max (of_ℤ t.gas_price) ≡ true) ⊎ (lt (of_ratio 1 1000) fee ≡ false))
unfolding check_price
check_price-eq-some t fee max p h = elim (Bool-cases (lt max (min_gas_price t))) [
  | inl low ↦ absurd (no_price (rw (low, check_price) at h))
  | inr enough ↦ elim (Bool-cases (lt max (of_ℤ t.gas_price))) [
    | inl below ↦ (enough, inl below)
    | inr above ↦ elim (Bool-cases (lt (of_ratio 1 1000) fee)) [
      | inl dear ↦ absurd (no_price (rw (enough, above, dear, check_price) at h))
      | inr cheap ↦ (enough, inr cheap)
    ]
  ]
]
  where
    no_price : none ≡ some p → ⊥
    no_price e = cc

-- The transaction is that of the parameters at the least price, which is above 0, with the node's
-- estimate and nonce, and signed.
record IsMade (c : Chain) (weth_address : ℕ) (t : Trader) (input_amount : Float64)
    (pair_path : List UniswapV2Pair) (gas_used : ℕ) (tx : Transaction) : Type 0 where
  estimated :
      c.estimate_gas tx.input (70000 + length pair_path * 100000) tx.gas_price ≡ some gas_used
  numbered : c.nonce_at ≡ some tx.nonce
  limited : tx.gas ≡ to_uint64 (mul (of_ℕ gas_used) (of_ratio 11 10))
  signed : c.signs tx ≡ true
  price : tx.gas_price ≡ to_int64 (min_gas_price t)
  above : ltb_ℤ (pos 0) tx.gas_price ≡ true
  packed : c.pack (param_str weth_address input_amount pair_path) ≡ some tx.input

swap_transaction-eq-some :
    (c : Chain) (weth_address : ℕ) (t : Trader) (input_amount : Float64)
    (pair_path : List UniswapV2Pair) (gas_used : ℕ) (tx : Transaction)
    → swap_transaction c weth_address t input_amount pair_path ≡ some (gas_used, tx)
    → IsMade c weth_address t input_amount pair_path gas_used tx
unfolding swap_transaction
swap_transaction-eq-some c weth_address t input_amount pair_path gas_used tx h = record {
  estimated = ground arith;
  numbered = ground arith;
  limited = ground arith;
  signed = ground arith;
  price = ground arith;
  above = ground arith;
  packed = ground arith;
}

-- What holds of a transaction that is sent: it carries the encoded parameters at the least gas
-- price, which is above 0, with the nonce that the node gives and 1.1 times the gas that it
-- estimates for these parameters, and is signed; the price that the spendable part of the gain
-- buys, at the gas that was estimated, is not below the least price; and that price is below the
-- trader's or the spendable part is not above 0.001. The spendable part is the gain by 1.2.
pub record IsSent (c : Chain) (weth_address : ℕ) (t : Trader) (input_amount : Float64)
    (pair_path : List UniswapV2Pair) (tx : Transaction) : Type 0 where
  pub gas_used : ℕ
  pub estimated :
      c.estimate_gas tx.input (70000 + length pair_path * 100000) tx.gas_price ≡ some gas_used
  pub numbered : c.nonce_at ≡ some tx.nonce
  pub limited : tx.gas ≡ to_uint64 (mul (of_ℕ gas_used) (of_ratio 11 10))
  pub signed : c.signs tx ≡ true
  pub amount_out : Float64
  pub paid : get_amounts_out weth_address input_amount pair_path ≡ ok amount_out
  pub covered :
      lt
        (gas_price_from_fee t
          (length pair_path)
          gas_used
          (div (sub amount_out input_amount) (of_ratio 12 10)))
        (min_gas_price t)
      ≡ false
  pub modest :
      (lt
          (gas_price_from_fee t
            (length pair_path)
            gas_used
            (div (sub amount_out input_amount) (of_ratio 12 10)))
          (of_ℤ t.gas_price)
        ≡ true)
      ⊎ (lt (of_ratio 1 1000) (div (sub amount_out input_amount) (of_ratio 12 10)) ≡ false)
  pub price : tx.gas_price ≡ to_int64 (min_gas_price t)
  pub above : ltb_ℤ (pos 0) tx.gas_price ≡ true
  pub packed : c.pack (param_str weth_address input_amount pair_path) ≡ some tx.input

module _ (c : Chain) (weth_address : ℕ) (t : Trader) (input_amount : Float64)
    (pair_path : List UniswapV2Pair) where
  send_checked-eq-some :
      (o : Option (ℕ × Transaction)) (tx : Transaction)
      → send_checked weth_address t input_amount pair_path o ≡ ok (some tx)
      → (gas_used : ℕ) × (p : ℤ) × (o ≡ some (gas_used, tx))
        × (final_check weth_address t gas_used input_amount pair_path ≡ ok (some p))
  unfolding send_checked
  send_checked-eq-some none tx h = absurd (cc)
  send_checked-eq-some (some (gas_used, tx')) tx h =
      let (r, run, e) =
        >>=-eq-ok (final_check weth_address t gas_used input_amount pair_path) _ h in
      elim (Option-cases r) [
        | inl refused ↦ absurd (no_tx (rw refused at e))
        | inr (p, passed) ↦
            let sent : ok (some tx') ≡ ok (some tx) = rw passed at e in
            let same : tx' ≡ tx = ground arith in
            (gas_used, p, ap (λ x. some (gas_used, x)) same, run ∙ ap ok passed)
      ]
    where
      no_tx : ok none ≡ ok (some tx) → ⊥
      no_tx e = cc

  -- A transaction that `SwapV2` sends carries the encoded parameters at the least gas price, above 0,
  -- whatever price the last check found; it has the nonce that the node gives and 1.1 times the gas
  -- that the node estimates for these parameters at this price, and is signed; and it is sent only
  -- if the price that the spendable part of the gain of `GetAmountsOut`, which is the gain by 1.2,
  -- buys at the gas that was estimated is not below the least gas price, and is below the trader's
  -- gas price or the spendable part is not above 0.001.
  pub swap_v2-IsSent :
      (tx : Transaction)
      → swap_v2 c weth_address t input_amount pair_path ≡ ok (some tx)
      → IsSent c weth_address t input_amount pair_path tx
  unfolding swap_v2 final_check spendable
  swap_v2-IsSent tx h =
      let (gas_used, p, made, checked) =
        send_checked-eq-some (swap_transaction c weth_address t input_amount pair_path) tx h in
      let (amount_out, paid, e) =
        >>=-eq-ok (get_amounts_out weth_address input_amount pair_path) _ checked in
      let fee = spendable amount_out input_amount in
      let price : check_price t fee (gas_price_from_fee t (length pair_path) gas_used fee)
          ≡ some p =
        ground arith in
      let bought =
        check_price-eq-some t fee (gas_price_from_fee t (length pair_path) gas_used fee) p price in
      let priced =
        swap_transaction-eq-some c weth_address t input_amount pair_path gas_used tx made in
      record {
        gas_used = gas_used;
        amount_out = amount_out;
        paid = paid;
        estimated = priced.estimated;
        numbered = priced.numbered;
        limited = priced.limited;
        signed = priced.signed;
        covered = bought.0;
        modest = bought.1;
        price = priced.price;
        above = priced.above;
        packed = priced.packed;
      }
