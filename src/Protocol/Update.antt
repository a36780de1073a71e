-- ===== src/Protocol/Update.antt =====
-- monitor/protocol/protocol.go: which of two states of a pair is the newer, and when one has expired.
use evm_arbitrage.Base.{
  ℕ, ◌+◌, ◌-◌, ◌^◌, ◌≡◌, refl, Bool, true, false, ◌&&◌, ◌||◌, Option, none, some, ltb, ◌==◌,
  if◌then◌else◌,
}
use evm_arbitrage.Base.Int.{ℤ, pos, negsuc, ◌+ℤ◌, ◌-ℤ◌, ltb_ℤ, wrap_int64}
use evm_arbitrage.Base.Outcome.{Outcome, ok, panic, ◌>>=◌, need}
use evm_arbitrage.Protocol.{StateFromLogUpdate, UniswapV2Pair}
pub mod Order
pub mod Tests

-- What `NeedUpdate` is given: a pointer to a state or to a pair, or a value of another type.
pub data NewData : Type 0 where
  state : Option StateFromLogUpdate → NewData
  pair : Option UniswapV2Pair → NewData
  unknown : NewData

-- The type switch: the new state, nil for another type; a nil pair is read, which panics.
unfoldable pub new_state : NewData → Outcome (Option StateFromLogUpdate)
new_state (state s) = ok s
new_state (pair none) = panic
new_state (pair (some p)) = ok p.state
new_state unknown = ok none

-- The comparison of block, transaction and log.
unfoldable pub newer : StateFromLogUpdate → StateFromLogUpdate → Bool
newer old new =
    ltb old.block_number new.block_number
    || new.block_number == old.block_number && ltb old.tx_index new.tx_index
    || new.block_number == old.block_number
      && new.tx_index == old.tx_index
      && ltb old.log_index new.log_index

-- `old.NeedUpdate(new)`: both states are read, so a nil one panics.
unfoldable pub need_update : Option StateFromLogUpdate → NewData → Outcome Bool
unfolding new_state newer
need_update old new = do
  found ← new_state new
  new_st ← need found
  old_st ← need old
  ok (newer old_st new_st)

-- A state is kept for a day: `now > old.Timestamp+86400`.
unfoldable pub expired : Option StateFromLogUpdate → ℤ → Outcome Bool
unfolding wrap_int64
expired old now = do st ← need old; ok (ltb_ℤ (wrap_int64 (st.timestamp +ℤ pos 86400)) now)
