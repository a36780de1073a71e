-- ===== src/Arbitrage/Trade/Tests.antt =====
-- Trades over two pairs with a node that answers, and a cache that is a list of entries.
use evm_arbitrage.Base.{
  subst, inl, inr, Bool-cases, ◌==◌, ℕ, ◌+◌, ◌*◌, ◌≡◌, ◌≢◌, refl, true, false, Option, none, some,
  List, [], ◌∷◌, arith, leb, if◌then◌else◌,
}
use evm_arbitrage.Base.Bytes.{Bytes, bytes_eq, codes, nat_eq, big_endian}
use evm_arbitrage.Base.GoMap.{lookup, insert, lookup-insert_self, lookup-insert_ne}
use evm_arbitrage.Base.Int.{pos}
use evm_arbitrage.Base.Outcome.{ok}
use evm_arbitrage.Base.Slice.{at}
use evm_arbitrage.Float64.{add, sub, mul, div, le, of_ℕ, of_ℤ, of_ratio, to_int64}
use evm_arbitrage.Protocol.{UniswapV2Pair}
use evm_arbitrage.Protocol.Amounts.{fee_base, get_amount_out, swap_step, swap_path, get_amounts_out}
use evm_arbitrage.Protocol.Samples.{pair_at, state_at}
use evm_arbitrage.Trader.{
  Trader, Transaction, Chain, swap_gas, swap_base_eth_gas, min_gas_price, estimate_fee,
  gas_price_from_fee, check_price, spendable, final_check, hex_digit, hex_digits, print_hex,
  print_hex_ℤ, directions, print_steps, param_str, to_uint64, swap_transaction, send_checked,
  swap_v2,
}
use evm_arbitrage.Arbitrage.Trade.{
  minute, Cache, IsCache, print_addresses, path_pairs, first_amount, search_amount, min_recieve_of,
  find_amount, send_swap, end_trade, try_path, try_trade,
}
use evm_arbitrage.Arbitrage.Trade.FirstAmount.{IsUint112}
use evm_arbitrage.Arbitrage.Trade.Priced.{IsPriced, try_trade-returns_priced}
use evm_arbitrage.Arbitrage.Trade.Left.{IsLeft, try_trade-IsLeft}
use evm_arbitrage.Arbitrage.Trade.Pause.{try_trade-paused}
use evm_arbitrage.Arbitrage.Trade.Sound.{IsTrade, try_trade-IsTrade}

program : Unit {0}
unfolding fee_base get_amount_out swap_step swap_path get_amounts_out add sub mul div le of_ℕ of_ℤ
    of_ratio to_int64 swap_gas swap_base_eth_gas min_gas_price estimate_fee gas_price_from_fee
    check_price spendable final_check hex_digit hex_digits print_hex print_hex_ℤ directions
    print_steps param_str to_uint64 swap_transaction send_checked swap_v2 big_endian lookup insert
    at print_addresses path_pairs first_amount search_amount min_recieve_of find_amount send_swap
    end_trade try_path try_trade
program = tt

-- Entries with the time until which they are kept.
abbrev pub Entries : Type 0
Entries = List (Bytes × (ℕ × ℕ))

abbrev kept_at : ℕ → Option (ℕ × ℕ) → Option ℕ
kept_at t none = none
kept_at t (some (n, end)) = if leb t end then some n else none

abbrev pub entries : Cache Entries
entries = record {
  get = λ t key c. kept_at t (lookup key c);
  set = λ t key n d c. insert key (n, t + d) c;
}

entries-IsCache : IsCache entries
entries-IsCache = record {
  get-set = λ t u n d key c before soon. rw (lookup-insert_self key (n, t + d) c) (ground arith);
  get-set_ne = λ t u n d key other c h. rw (lookup-insert_ne key other (n, t + d) c h) refl;
}

-- 7 is traded for 8 at 10^18 : 10^18 and back at 10^18 : 4 * 10^18.
abbrev there : UniswapV2Pair
there = record (pair_at 100 (state_at 5 0)) {
  reserve0 = some (pos 1000000000000000000);
  reserve1 = some (pos 1000000000000000000);
}

abbrev back : UniswapV2Pair
back = record (pair_at 101 (state_at 5 1)) {
  reserve0 = some (pos 4000000000000000000);
  reserve1 = some (pos 1000000000000000000);
}

abbrev pairs : List (ℕ × UniswapV2Pair)
pairs = (100, there) ∷ (101, back) ∷ []

abbrev pub node : Chain
node = record {
  pack = λ text. some text;
  estimate_gas = λ input limit price. some 200000;
  nonce_at = some 9;
  signs = λ tx. true;
}

abbrev pub prices : Trader
prices = record { gas_price = pos 2000000000000; eth_gas_price = pos 1000 }

abbrev path : List ℕ
path = 101 ∷ 100 ∷ []

path_full : path ≢ []
path_full = λ h. cc

-- The transaction for a tenth of the reserve.
abbrev sent : Transaction
sent = record {
  nonce = 9;
  gas = 220000;
  gas_price = pos 100000000000;
  input =
      codes
        "0000016345785d8a0000000000000000000000000000000000000000006401001e000000000000000000000000000000000000006500001e";
}

abbrev marked : Entries
marked = (print_addresses path, (0, 50 + minute)) ∷ []

abbrev twice : Entries
twice = (print_addresses path, (1, 60 + 10 * minute)) ∷ []

traded :
    try_trade entries 1 node (λ tx. true) 7 prices 50 60 pairs path []
    ≡ ok (some (marked, some sent))
unfolding program
traded = refl

-- The node refuses the transaction.
refused :
    try_trade entries 1 node (λ tx. false) 7 prices 50 60 pairs path [] ≡ ok (some (twice, none))
unfolding program
refused = refl

unknown : entries.get 50 (print_addresses path) [] ≡ none
unfolding program
unknown = refl

try_trade-IsTrade_example :
    IsTrade entries 1 node (λ tx. true) 7 prices 50 60 pairs path [] marked sent
try_trade-IsTrade_example =
    try_trade-IsTrade entries 1 node (λ tx. true) 7 prices 50 60 pairs path [] marked sent traded

try_trade-IsLeft_example :
    IsLeft entries 1 node (λ tx. false) 7 prices 50 60 pairs path [] twice none
try_trade-IsLeft_example =
    try_trade-IsLeft entries 1 node (λ tx. false) 7 prices 50 60 pairs path [] twice none path_full
      refused

try_trade-paused_example :
    try_trade entries 5 node (λ tx. true) 7 prices 70 80 pairs path twice ≡ ok (some (twice, none))
try_trade-paused_example =
    try_trade-paused entries 1 5 node node (λ tx. false) (λ tx. true) 7 7 prices prices 50 60 70 80
      pairs pairs path [] twice none entries-IsCache path_full unknown (omega arith) (omega arith)
      (omega arith) refused

pairs-IsUint112 : (x : ℕ) (p : UniswapV2Pair) → lookup x pairs ≡ some p → IsUint112 p
unfolding lookup
pairs-IsUint112 x p h = elim (Bool-cases (100 == x)) [
  | inl first ↦
      let e : some there ≡ some p = rw first at h in
      let same : there ≡ p = ground arith in
      subst IsUint112 same (record {
        r0 = 1000000000000000000;
        r1 = 1000000000000000000;
        left = refl;
        right = refl;
        left_lt = omega arith;
        right_lt = omega arith;
      })
  | inr other ↦ elim (Bool-cases (101 == x)) [
    | inl second ↦
        let e : some back ≡ some p = rw (other, second) at h in
        let same : back ≡ p = ground arith in
        subst IsUint112 same (record {
          r0 = 4000000000000000000;
          r1 = 1000000000000000000;
          left = refl;
          right = refl;
          left_lt = omega arith;
          right_lt = omega arith;
        })
    | inr neither ↦ absurd (no_pair (rw (other, neither) at h))
  ]
]
  where
    no_pair : none ≡ some p → ⊥
    no_pair e = cc

prices-IsPriced : IsPriced prices
prices-IsPriced = record {
  gas = 2000000000000;
  eth = 1000;
  gas_eq = refl;
  eth_eq = refl;
  gas_pos = omega arith;
  eth_pos = omega arith;
}

try_trade-returns_priced_example :
    (fuel : ℕ) × (r : Entries × Option Transaction) × (try_trade entries fuel node
        (λ tx. true)
        7
        prices
        50
        60
        pairs
        path
        []
      ≡ ok (some r))
try_trade-returns_priced_example =
    try_trade-returns_priced entries node (λ tx. true) 7 prices 50 60 pairs pairs-IsUint112
      prices-IsPriced path []
