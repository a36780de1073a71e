-- ===== src/Protocol/Logs/Fees.antt =====
-- Where a fee of `FilterUniswapV2FeeFromLog` comes from.
use evm_arbitrage.Base.{ℕ, ◌+◌, ◌%◌, ◌^◌, ◌≡◌, true, some, List, In}
use evm_arbitrage.Base.Bytes.{Bytes, nat_eq, bytes_eq}
use evm_arbitrage.Base.GoMap.{lookup}
use evm_arbitrage.Base.Int.{ℤ}
use evm_arbitrage.Base.Outcome.{Outcome, ok}
use evm_arbitrage.Float64.{Float64}
use evm_arbitrage.Protocol.Fee.{calculate_pair_fee}
use evm_arbitrage.Protocol.Logs.{
  Log, PairAbi, UniswapV2SwapEvent, two_values, is_sync, swap_topics, swap_event,
}

module _ (abi : PairAbi) (cube : Float64 → Float64) (batch : List Log) where
  -- The fee is that of a Swap log and a Sync log of the batch, both of the address, in one transaction,
  -- the Sync log just before the Swap log.
  pub record IsFeeOf (address : ℕ) (fee : ℤ) : Type 0 where
    pub swap_log : Log
    pub sync_log : Log
    pub swap_in : In swap_log batch
    pub sync_in : In sync_log batch
    pub ends : ℕ × ℕ
    pub is_swap : swap_topics abi swap_log.topics ≡ some ends
    pub is_sync_log : is_sync abi sync_log.topics ≡ true
    pub swap_address : swap_log.address ≡ address
    pub sync_address : sync_log.address ≡ address
    pub same_block : swap_log.block_number ≡ sync_log.block_number
    pub same_tx : swap_log.tx_index ≡ sync_log.tx_index
    pub next_index : swap_log.index ≡ (sync_log.index + 1) % 2 ^ 64
    pub swap : UniswapV2SwapEvent
    pub values : List ℤ
    pub unpacked : abi.unpack_swap swap_log.log_data ≡ some values
    pub read : swap_event abi swap_log ends values ≡ ok swap
    pub reserves : ℤ × ℤ
    pub synced : two_values (abi.unpack_sync sync_log.log_data) ≡ some reserves
    pub paid :
        fee
        ≡ calculate_pair_fee cube swap.amount0_in swap.amount1_in swap.amount0_out swap.amount1_out
            reserves.0 reserves.1

  abbrev AllFees : List (ℕ × ℤ) → Type 0
  AllFees fees = (a : ℕ) (fee : ℤ) → lookup a fees ≡ some fee → IsFeeOf a fee
