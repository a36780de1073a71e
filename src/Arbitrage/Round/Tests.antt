-- ===== src/Arbitrage/Round/Tests.antt =====
-- A round on a store of two pairs, with a node that answers.
use mathlib.Core.List.Permᴰ
use evm_arbitrage.Base.{◌+◌, ◌≡◌, refl, true, some, [], ◌∷◌}
use evm_arbitrage.Base.Bytes.{codes, big_endian, bytes_eq, nat_eq}
use evm_arbitrage.Base.GoMap.{lookup, insert}
use evm_arbitrage.Base.Int.{pos, ◌+ℤ◌}
use evm_arbitrage.Base.Outcome.{ok}
use evm_arbitrage.Base.Slice.{at}
use evm_arbitrage.Float64.{add, sub, mul, div, neg, le, of_ℕ, of_ℤ, of_ratio, to_int64}
use evm_arbitrage.Protocol.Amounts.{fee_base, get_amount_out, swap_step, swap_path, get_amounts_out}
use evm_arbitrage.Protocol.Update.{expired}
use evm_arbitrage.Storage.{delete, sweep, load_all}
use evm_arbitrage.SwapGraph.{
  far, add_vertices, add_edges, find_circle, shorter, relax, relax_all, bellman_ford, better,
  best_edge, walk_back, preedge,
}
use evm_arbitrage.Trader.{
  Transaction, swap_gas, swap_base_eth_gas, min_gas_price, estimate_fee, gas_price_from_fee,
  check_price, spendable, final_check, hex_digit, hex_digits, print_hex, print_hex_ℤ, directions,
  print_steps, param_str, to_uint64, swap_transaction, send_checked, swap_v2,
}
use evm_arbitrage.Arbitrage.{
  edge_out, edge_back, add_pair, weight, set_weights, weigh, add_pairs, find_arbitrage,
}
use evm_arbitrage.Arbitrage.Trade.{
  minute, print_addresses, path_pairs, first_amount, search_amount, min_recieve_of, find_amount,
  send_swap, end_trade, try_path, try_trade,
}
use evm_arbitrage.Arbitrage.Trade.Reached.Tests.{filled, filled-Reached, straight}
use evm_arbitrage.Arbitrage.Trade.Tests.{Entries, entries, node, prices}
use evm_arbitrage.Arbitrage.Round.{Orders, AreRanges, arbitrage_round}
use evm_arbitrage.Arbitrage.Round.Safe.{IsCircleTrade, arbitrage_round-IsCircleTrade}

abbrev orders : Orders
orders = record {
  log10 = straight;
  load_order = λ l. l;
  visit = λ l. l;
  order = λ i l. l;
  pick = λ l. l;
}

orders-AreRanges : AreRanges orders
orders-AreRanges = record {
  load_order = λ l. Permᴰ.refl l;
  visit = λ l. Permᴰ.refl l;
  order = λ i l. Permᴰ.refl l;
  pick = λ l. Permᴰ.refl l;
}

abbrev sent : Transaction
sent = record {
  nonce = 9;
  gas = 220000;
  gas_price = pos 100000000000;
  input =
      codes
        "0000016345785d8a0000000000000000000000000000000000000000006601001e000000000000000000000000000000000000006400001e";
}

abbrev marked : Entries
marked = (print_addresses (100 ∷ 102 ∷ []), (0, 50 + minute)) ∷ []

round :
    arbitrage_round entries orders 7 node
      (λ tx. true)
      prices
      1
      (λ k. pos 2000)
      50
      60
      (some filled)
      []
    ≡ ok (some filled, some (marked, some sent))
unfolding arbitrage_round load_all sweep expired delete insert lookup ◌+ℤ◌ add sub mul div neg le
    of_ℕ of_ℤ of_ratio to_int64 fee_base get_amount_out swap_step swap_path get_amounts_out far
    add_vertices add_edges find_circle shorter relax relax_all bellman_ford better best_edge
    walk_back preedge swap_gas swap_base_eth_gas min_gas_price estimate_fee gas_price_from_fee
    check_price spendable final_check hex_digit hex_digits print_hex print_hex_ℤ directions
    print_steps param_str to_uint64 swap_transaction send_checked swap_v2 edge_out edge_back
    add_pair weight set_weights weigh add_pairs find_arbitrage big_endian at print_addresses
    path_pairs first_amount search_amount min_recieve_of find_amount send_swap end_trade try_path
    try_trade
round = refl

arbitrage_round-IsCircleTrade_example : IsCircleTrade node (λ tx. true) 7 prices filled sent
arbitrage_round-IsCircleTrade_example =
    arbitrage_round-IsCircleTrade entries orders 7 node (λ tx. true) prices 1 (λ k. pos 2000) 50 60
      filled (some filled) [] marked sent filled-Reached orders-AreRanges round
