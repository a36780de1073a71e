-- ===== src/Protocol/Update/Order.antt =====
-- `NeedUpdate` is a strict order by block, transaction and log, and what it needs of the pointers.
use evm_arbitrage.Base.{◌<◌, ◌≡◌, true, false, ◌⊎◌, arith}
use evm_arbitrage.Protocol.{StateFromLogUpdate}
use evm_arbitrage.Protocol.Update.{newer}

-- The place of a state in the chain.
abbrev pub SamePlace : StateFromLogUpdate → StateFromLogUpdate → Type 0
SamePlace s t =
    (s.block_number ≡ t.block_number) × (s.tx_index ≡ t.tx_index) × (s.log_index ≡ t.log_index)

pub newer_asymm : (s t : StateFromLogUpdate) → newer s t ≡ true → newer t s ≡ false
unfolding newer
newer_asymm s t h = ground arith

pub newer_trans :
    (s t u : StateFromLogUpdate) → newer s t ≡ true → newer t u ≡ true → newer s u ≡ true
unfolding newer
newer_trans s t u h k = ground arith

-- A state that does not replace s does not replace a newer t either.
pub newer_keep :
    (s t u : StateFromLogUpdate) → newer s t ≡ true → newer s u ≡ false → newer t u ≡ false
unfolding newer
newer_keep s t u h k = ground arith

-- The first stands before the second: in an earlier block, or in an earlier transaction of the block, or
-- in an earlier log of the transaction.
abbrev pub Before : StateFromLogUpdate → StateFromLogUpdate → Type 0
Before s t =
    (s.block_number < t.block_number)
    ⊎ ((s.block_number ≡ t.block_number) × (s.tx_index < t.tx_index))
    ⊎ ((s.block_number ≡ t.block_number) × (s.tx_index ≡ t.tx_index) × (s.log_index < t.log_index))

-- Of two states one of three holds: the first stands before the second in the order of block,
-- transaction and log, and only the second counts as newer; or the second stands before the first,
-- and only the first counts as newer; or both stand at the same block, transaction and log, and
-- neither counts as newer.
pub newer-total :
    (s t : StateFromLogUpdate)
    → (Before s t × (newer s t ≡ true) × (newer t s ≡ false))
      ⊎ (Before t s × (newer t s ≡ true) × (newer s t ≡ false))
      ⊎ (SamePlace s t × (newer s t ≡ false) × (newer t s ≡ false))
unfolding newer
newer-total s t = ground arith
