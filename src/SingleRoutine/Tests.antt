-- ===== src/SingleRoutine/Tests.antt =====
-- Three starts.
use evm_arbitrage.Base.{◌≡◌, true, false, some, [], ◌∷◌}
use evm_arbitrage.SingleRoutine.{new_single_routine, runs, runs-last_only}

runs-last_only_example :
    runs 3 (new_single_routine, []) ≡ (record { cancel = some 2 }, true ∷ true ∷ false ∷ [])
runs-last_only_example = runs-last_only 2
