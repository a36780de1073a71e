-- ===== src/Action/Tests.antt =====
-- A batch with one Sync log of a stored pair.
use evm_arbitrage.Base.{◌≡◌, refl, true, none, some, [], ◌∷◌}
use evm_arbitrage.Base.Bytes.{nat_eq}
use evm_arbitrage.Base.GoMap.{lookup, insert}
use evm_arbitrage.Base.Int.{pos}
use evm_arbitrage.Base.Outcome.{ok}
use evm_arbitrage.Float64.{plus}
use evm_arbitrage.PairStore.{pair_update}
use evm_arbitrage.Protocol.{UniswapV2Pair}
use evm_arbitrage.Protocol.Logs.{
  Log, PairAbi, synced_pair, is_sync, swap_topics, filter_pairs, swap_loop, sync_loop, filter_fees,
  add_fee, place_key,
}
use evm_arbitrage.Protocol.Samples.{decimal_text, state_at, pair_at}
use evm_arbitrage.Protocol.Update.{need_update, new_state, newer}
use evm_arbitrage.Storage.{load, store_one, store_all, store}
use evm_arbitrage.Storage.Newest.{Kept}
use evm_arbitrage.Action.{
  Surroundings, learn, ask, set_fees, with_fees, prepare, save, handle_uniswap, do_new_log_handler,
}
use evm_arbitrage.Action.Kept.{do_new_log_handler-Kept}

abbrev abi : PairAbi
abi = record {
  sync_sign = 1;
  swap_sign = 2;
  unpack_sync = λ b. some (pos 600 ∷ pos 700 ∷ []);
  unpack_swap = λ b. none;
}

abbrev world : Surroundings
world = record {
  text = decimal_text;
  methods = record { token0 = 1 ∷ []; token1 = 2 ∷ []; get_reserves = 3 ∷ [] };
  abi = abi;
  cube = λ x. x;
  now = λ log. pos 2000;
  view = λ calls. none;
  pair_order = λ l. l;
  fee_order = λ l. l;
  store_order = λ l. l;
}

abbrev sync_log : Log
sync_log = record {
  address = 100;
  topics = 1 ∷ [];
  log_data = [];
  block_number = 6;
  tx_index = 2;
  index = 3;
}

abbrev before : UniswapV2Pair
before = pair_at 100 (state_at 5 0)

abbrev after : UniswapV2Pair
after = record before {
  reserve0 = some (pos 600);
  reserve1 = some (pos 700);
  weight0 = plus 0;
  state = some (record { block_number = 6; tx_index = 2; log_index = 3; timestamp = pos 2000 });
}

handled :
    do_new_log_handler world (sync_log ∷ []) (some (record { datas = some ((100, before) ∷ []) }))
    ≡ ok (some (record { datas = some ((100, after) ∷ []) }), true)
unfolding do_new_log_handler handle_uniswap prepare save with_fees set_fees ask learn load store
    store_all store_one need_update new_state newer filter_pairs filter_fees swap_loop sync_loop
    is_sync swap_topics synced_pair add_fee place_key lookup insert
handled = refl

do_new_log_handler-Kept_example : Kept pair_update before after
unfolding lookup
do_new_log_handler-Kept_example =
    do_new_log_handler-Kept world (sync_log ∷ []) (record { datas = some ((100, before) ∷ []) })
      (record { datas = some ((100, after) ∷ []) }) true 100 before after handled refl refl
