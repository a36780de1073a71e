-- ===== src/Arbitrage/Trade/Reached/Tests.antt =====
-- Two pairs that one batch of logs and the answers to its calls bring into the empty store.
use mathlib.Core.List.Permᴰ
use evm_arbitrage.Base.{ℕ, ◌≡◌, refl, true, Option, none, some, List, [], ◌∷◌}
use evm_arbitrage.Base.Bytes.{Bytes, codes, nat_eq, big_endian}
use evm_arbitrage.Base.GoMap.{lookup, insert}
use evm_arbitrage.Base.Int.{ℤ, pos, ◌+ℤ◌}
use evm_arbitrage.Base.Outcome.{ok}
use evm_arbitrage.Base.Text.{print_ℕ, parse_ℕ, split}
use evm_arbitrage.Float64.{Float64, plus, one_units, add, sub, mul, div, neg, of_ℕ, of_ℤ}
use evm_arbitrage.PairStore.{PairStore, pair_update}
use evm_arbitrage.PairStore.Addressed.{empty-IsAddressed}
use evm_arbitrage.Protocol.{UniswapV2Pair}
use evm_arbitrage.Protocol.Amounts.{fee_base}
use evm_arbitrage.Protocol.Calls.{
  CallResult, bytes_value, fill, call_id, info_calls, apply_result, call_results,
}
use evm_arbitrage.Protocol.Logs.{
  Log, PairAbi, synced_pair, is_sync, swap_topics, filter_pairs, swap_loop, sync_loop, filter_fees,
  add_fee, place_key,
}
use evm_arbitrage.Protocol.Samples.{decimal_text, pair_at}
use evm_arbitrage.Protocol.Update.{need_update, new_state, newer, expired}
use evm_arbitrage.Storage.{load, store_one, store_all, store, delete, sweep, load_all}
use evm_arbitrage.SwapGraph.{
  far, add_vertices, add_edges, find_circle, shorter, relax, relax_all, bellman_ford, better,
  best_edge, walk_back, preedge,
}
use evm_arbitrage.Action.{
  Surroundings, learn, ask, set_fees, with_fees, prepare, save, handle_uniswap, do_new_log_handler,
}
use evm_arbitrage.Action.Addressed.{Addressed, do_new_log_handler-Addressed}
use evm_arbitrage.Arbitrage.{
  edge_out, edge_back, add_pair, weight, set_weights, weigh, add_pairs, find_arbitrage,
}
use evm_arbitrage.Arbitrage.Trade.Path.{IsTradable}
use evm_arbitrage.Arbitrage.Trade.Reached.{Reached, created, handled, reached-IsTradable}

program : Unit {0}
unfolding do_new_log_handler handle_uniswap prepare save with_fees set_fees ask learn load store
    store_all store_one need_update new_state newer filter_pairs filter_fees swap_loop sync_loop
    is_sync swap_topics synced_pair add_fee place_key lookup insert bytes_value fill call_id
    info_calls apply_result call_results split print_ℕ parse_ℕ
program = tt

-- The second log has another second reserve.
abbrev reserves : Bytes → Option (List ℤ)
reserves [] = some (pos 1000000000000000000 ∷ pos 1000000000000000000 ∷ [])
reserves (b ∷ bs) = some (pos 1000000000000000000 ∷ pos 4000000000000000000 ∷ [])

abbrev abi : PairAbi
abi = record { sync_sign = 1; swap_sign = 2; unpack_sync = reserves; unpack_swap = λ b. none }

abbrev told : ℕ → CallResult
told a = record { success = true; return_data = a ∷ [] }

abbrev world : Surroundings
world = record {
  text = decimal_text;
  methods = record { token0 = 1 ∷ []; token1 = 2 ∷ []; get_reserves = 3 ∷ [] };
  abi = abi;
  cube = λ x. x;
  now = λ log. pos 2000;
  view = λ calls. some (
      (codes "UniswapV2-100-token0", told 7)
      ∷ (codes "UniswapV2-100-token1", told 8)
      ∷ (codes "UniswapV2-102-token0", told 7)
      ∷ (codes "UniswapV2-102-token1", told 8)
      ∷ []);
  pair_order = λ l. l;
  fee_order = λ l. l;
  store_order = λ l. l;
}

abbrev log_at : ℕ → Bytes → Log
log_at address bytes = record {
  address = address;
  topics = 1 ∷ [];
  log_data = bytes;
  block_number = 6;
  tx_index = 2;
  index = 3;
}

abbrev logs : List Log
logs = log_at 100 [] ∷ log_at 102 (1 ∷ []) ∷ []

abbrev empty : PairStore
empty = record { datas = none }

abbrev synced : ℕ → ℕ → UniswapV2Pair
synced address reserve =
    record (pair_at address
      (record { block_number = 6; tx_index = 2; log_index = 3; timestamp = pos 2000 })) {
        reserve0 = some (pos 1000000000000000000);
        reserve1 = some (pos reserve);
        weight0 = plus 0;
      }

abbrev pub pairs : List (ℕ × UniswapV2Pair)
pairs = (100, synced 100 1000000000000000000) ∷ (102, synced 102 4000000000000000000) ∷ []

abbrev pub filled : PairStore
filled = record { datas = some pairs }

batch : do_new_log_handler world logs (some empty) ≡ ok (some filled, true)
unfolding program
batch = refl

pub filled-Reached : Reached filled
filled-Reached =
    handled empty filled world logs true created (λ l. Permᴰ.refl l) (λ l. Permᴰ.refl l) batch

loaded : load_all pair_update (λ l. l) (λ k. pos 2000) (some filled) ≡ ok (some filled, pairs)
unfolding load_all sweep expired delete insert ◌+ℤ◌
loaded = refl

abbrev pub straight : Float64 → Float64
straight x = sub x (plus one_units)

found : find_arbitrage straight (λ l. l) (λ i l. l) (λ l. l) 7 pairs ≡ ok (100 ∷ 102 ∷ [])
unfolding add sub mul div neg of_ℕ of_ℤ fee_base big_endian lookup insert far add_vertices add_edges
    find_circle shorter relax relax_all bellman_ford better best_edge walk_back preedge edge_out
    edge_back add_pair weight set_weights weigh add_pairs find_arbitrage
found = refl

reached-IsTradable_example : IsTradable 7 pairs (100 ∷ 102 ∷ [])
reached-IsTradable_example =
    reached-IsTradable filled (some filled) (λ l. l) (λ k. pos 2000) straight (λ l. l) (λ i l. l)
      (λ l. l) 7 pairs (100 ∷ 102 ∷ []) filled-Reached (λ l. Permᴰ.refl l) (λ l. Permᴰ.refl l)
      (λ i l. Permᴰ.refl l) (λ l. Permᴰ.refl l) loaded found (λ h. cc)

do_new_log_handler-Addressed_example : Addressed world (some filled)
do_new_log_handler-Addressed_example =
    do_new_log_handler-Addressed world logs empty (some filled, true) (λ l. Permᴰ.refl l)
      (λ l. Permᴰ.refl l) empty-IsAddressed batch
