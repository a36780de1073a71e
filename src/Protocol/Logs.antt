-- ===== src/Protocol/Logs.antt =====
-- monitor/protocol/uniswapv2.go: the pairs and the fees that a batch of logs tells of. A topic is a
-- number below 2^256; the ABI's event signatures and its unpacking are a parameter. `none` is a
-- returned error.
use evm_arbitrage.Base.{
  ℕ, ◌+◌, ◌%◌, ◌^◌, Bool, true, false, not, Option, none, some, List, [], ◌∷◌, ◌++◌, ◌==◌,
  if◌then◌else◌,
}
use evm_arbitrage.Base.Bytes.{Bytes, nat_eq, bytes_eq}
use evm_arbitrage.Base.GoMap.{lookup, insert}
use evm_arbitrage.Base.Int.{ℤ, pos}
use evm_arbitrage.Base.Outcome
use evm_arbitrage.Base.Outcome.{Outcome, ok, panic}
use evm_arbitrage.Base.Text.{print_ℕ}
use evm_arbitrage.Float64.{Float64}
use evm_arbitrage.Protocol.{UniswapV2Pair, StateFromLogUpdate}
use evm_arbitrage.Protocol.Fee.{calculate_pair_fee}
use evm_arbitrage.Float64.{plus}
pub mod Last
pub mod LastSync
pub mod Places
pub mod SwapEvents
pub mod Fees
pub mod Tests

-- go-ethereum's `types.Log`, as far as it is read.
pub record Log : Type 0 where
  pub address : ℕ
  pub topics : List ℕ
  pub log_data : Bytes
  pub block_number : ℕ
  pub tx_index : ℕ
  pub index : ℕ

-- The pair's ABI: the topics of the events Sync and Swap, and the unpacking of their data.
pub record PairAbi : Type 0 where
  pub sync_sign : ℕ
  pub swap_sign : ℕ
  pub unpack_sync : Bytes → Option (List ℤ)
  pub unpack_swap : Bytes → Option (List ℤ)

pub record UniswapV2SwapEvent : Type 0 where
  pub address : ℕ
  pub sender : ℕ
  pub amount0_in : ℤ
  pub amount1_in : ℤ
  pub amount0_out : ℤ
  pub amount1_out : ℤ
  pub to : ℕ

pub record UniswapV2SyncEvent : Type 0 where
  pub address : ℕ
  pub reserve0 : ℤ
  pub reserve1 : ℤ

-- Two values exactly, as the tests of `len(dataList)` want.
abbrev pub two_values : Option (List ℤ) → Option (ℤ × ℤ)
two_values (some (a ∷ b ∷ [])) = some (a, b)
two_values _ = none

-- `BytesToAddress` of a topic.
abbrev pub topic_address : ℕ → ℕ
topic_address t = t % 2 ^ 160

-- The pair that a Sync log tells of, at the time at which it is read.
unfoldable pub synced_pair : (Log → ℤ) → Log → ℤ × ℤ → UniswapV2Pair
synced_pair now log (r0, r1) = record {
  address = log.address;
  token0 = 0;
  token1 = 0;
  reserve0 = some r0;
  reserve1 = some r1;
  weight0 = plus 0;
  weight1 = plus 0;
  error = false;
  fee = pos 30;
  state = some (record {
    block_number = log.block_number;
    tx_index = log.tx_index;
    log_index = log.index;
    timestamp = now log;
  });
}

-- The key of a log's place.
unfoldable pub place_key : ℕ → ℕ → ℕ → Bytes
place_key block tx index = print_ℕ block ++ b':' ∷ (print_ℕ tx ++ b':' ∷ print_ℕ index)

module _ (abi : PairAbi) where
  unfoldable pub is_sync : List ℕ → Bool
  is_sync (t ∷ []) = t == abi.sync_sign
  is_sync _ = false

  -- The sender and the receiver of a Swap log.
  unfoldable pub swap_topics : List ℕ → Option (ℕ × ℕ)
  swap_topics (t ∷ sender ∷ to ∷ []) =
      if t == abi.swap_sign then some (topic_address sender, topic_address to) else none
  swap_topics _ = none

  -- `FilterUniswapV2PairFromLog`
  unfoldable pub filter_pairs :
      (Log → ℤ) → List Log → List (ℕ × UniswapV2Pair) → Option (List (ℕ × UniswapV2Pair))
  unfolding is_sync synced_pair
  filter_pairs now [] datas = some datas
  filter_pairs now (log ∷ logs) datas = elim (is_sync log.topics) [
    | false ↦ filter_pairs now logs datas
    | true ↦ elim (two_values (abi.unpack_sync log.log_data)) [
      | none ↦ none
      | some r ↦ filter_pairs now logs (insert log.address (synced_pair now log r) datas)
    ]
  ]

  -- The event of a Swap log; fewer than four values are read past the end, which panics.
  unfoldable pub swap_event : Log → ℕ × ℕ → List ℤ → Outcome UniswapV2SwapEvent
  swap_event log (sender, to) (a ∷ b ∷ c ∷ d ∷ rest) = ok (record {
    address = log.address;
    sender = sender;
    amount0_in = a;
    amount1_in = b;
    amount0_out = c;
    amount1_out = d;
    to = to;
  })
  swap_event log ends _ = panic

  module _ (cube : Float64 → Float64) where
    -- The fee of a swap with the reserves after it.
    unfoldable pub event_fee : UniswapV2SwapEvent → UniswapV2SyncEvent → ℤ
    event_fee swap sync =
        calculate_pair_fee cube swap.amount0_in swap.amount1_in swap.amount0_out swap.amount1_out
          sync.reserve0 sync.reserve1

    -- The end of each loop's body: the fee of two events of one pair, unless the pair has one.
    unfoldable pub add_fee :
        Option UniswapV2SwapEvent → Option UniswapV2SyncEvent → List (ℕ × ℤ) → List (ℕ × ℤ)
    unfolding event_fee
    add_fee (some swap) (some sync) fees = elim (lookup swap.address fees) [
      | some _ ↦ fees
      | none ↦
          if swap.address == sync.address
          then insert swap.address (event_fee swap sync) fees
          else fees
    ]
    add_fee _ _ fees = fees

    -- The loop over the Swap logs; no Sync event is known yet.
    unfoldable pub swap_loop :
        List Log
        → List (Bytes × UniswapV2SwapEvent) × List (ℕ × ℤ)
        → Outcome (Option (List (Bytes × UniswapV2SwapEvent) × List (ℕ × ℤ)))
    unfolding swap_topics swap_event place_key add_fee
    swap_loop [] s = ok (some s)
    swap_loop (log ∷ logs) (swaps, fees) = elim (swap_topics log.topics) [
      | none ↦ swap_loop logs (swaps, fees)
      | some ends ↦ elim (abi.unpack_swap log.log_data) [
        | none ↦ ok none
        | some values ↦
            let key = place_key log.block_number log.tx_index log.index in
            Outcome.◌>>=◌ (swap_event log ends values)
              λ event. swap_loop logs (insert key event swaps, add_fee (some event) none fees)
      ]
    ]

    -- The loop over the Sync logs: a Sync log stands just before the Swap log of its swap.
    unfoldable pub sync_loop :
        List Log → List (Bytes × UniswapV2SwapEvent) → List (ℕ × ℤ) → Option (List (ℕ × ℤ))
    unfolding is_sync place_key add_fee
    sync_loop [] swaps fees = some fees
    sync_loop (log ∷ logs) swaps fees = elim (is_sync log.topics) [
      | false ↦ sync_loop logs swaps fees
      | true ↦ elim (two_values (abi.unpack_sync log.log_data)) [
        | none ↦ none
        | some (r0, r1) ↦
            let key = place_key log.block_number log.tx_index ((log.index + 1) % 2 ^ 64) in
            let event : UniswapV2SyncEvent = record {
              address = log.address;
              reserve0 = r0;
              reserve1 = r1;
            } in
            sync_loop logs swaps (add_fee (lookup key swaps) (some event) fees)
      ]
    ]

    -- `FilterUniswapV2FeeFromLog`
    unfoldable pub filter_fees : List Log → Outcome (Option (List (ℕ × ℤ)))
    unfolding swap_loop sync_loop
    filter_fees logs =
        Outcome.◌>>=◌ (swap_loop logs ([], []))
          λ r. ok (elim r [ none ↦ none | some (swaps, fees) ↦ sync_loop logs swaps fees ])
