-- ===== src/Protocol/Update/Tests.antt =====
-- The order of states at concrete blocks.
use evm_arbitrage.Base.{◌≡◌, refl, true, false, some, none, ◌⊎◌}
use evm_arbitrage.Base.Int.{wrap_int64, pos, ◌+ℤ◌}
use evm_arbitrage.Base.Outcome.{ok, panic}
use evm_arbitrage.Protocol.Samples.{state_at}
use evm_arbitrage.Protocol.Update.{NewData, newer, need_update, new_state, expired}
use evm_arbitrage.Protocol.Update.Order.{Before, SamePlace, newer-total}

needs :
    (need_update (some (state_at 5 1)) (NewData.state (some (state_at 5 2))) ≡ ok true)
    × (need_update (some (state_at 6 1)) (NewData.state (some (state_at 5 2))) ≡ ok false)
    × (need_update none (NewData.state (some (state_at 5 2))) ≡ panic)
    × (need_update (some (state_at 5 1)) NewData.unknown ≡ panic)
unfolding need_update new_state newer
needs = (refl, refl, refl, refl)

expiry :
    (expired (some (state_at 5 1)) (pos 87400) ≡ ok false)
    × (expired (some (state_at 5 1)) (pos 87401) ≡ ok true)
unfolding expired wrap_int64 ◌+ℤ◌
expiry = (refl, refl)

newer-total_example :
    (Before (state_at 5 1) (state_at 5 2)
      × (newer (state_at 5 1) (state_at 5 2) ≡ true)
      × (newer (state_at 5 2) (state_at 5 1) ≡ false))
    ⊎ (Before (state_at 5 2) (state_at 5 1)
        × (newer (state_at 5 2) (state_at 5 1) ≡ true)
        × (newer (state_at 5 1) (state_at 5 2) ≡ false))
    ⊎ (SamePlace (state_at 5 1) (state_at 5 2)
        × (newer (state_at 5 1) (state_at 5 2) ≡ false)
        × (newer (state_at 5 2) (state_at 5 1) ≡ false))
newer-total_example = newer-total (state_at 5 1) (state_at 5 2)
