-- ===== src/Monitor/Tests.antt =====
-- Reports of blocks out of order, and logs between ticks.
use evm_arbitrage.Base.{ℕ, ◌≡◌, ◌≢◌, refl, List, [], ◌∷◌, ◌++◌, All, arith}
use evm_arbitrage.Monitor.{
  EvmMonitor, count_up, on_new_block, on_reported, watch, Event, arrive, tick, on_event,
  subscribe_filter,
}
use evm_arbitrage.Monitor.Batches.{joined, arrivals, subscribe_filter-joined}
use evm_arbitrage.Monitor.Blocks.{Handed, watch-Handed}

abbrev at_5 : EvmMonitor
at_5 = record { latest_block_number = 5 }

watched :
    (watch (7 ∷ 6 ∷ 10 ∷ []) at_5
      ≡ (record { latest_block_number = 10 }, (6 ∷ 7 ∷ []) ∷ (8 ∷ 9 ∷ 10 ∷ []) ∷ []))
    × (watch (7 ∷ []) (record { latest_block_number = 0 })
        ≡ (record { latest_block_number = 7 }, (7 ∷ []) ∷ []))
unfolding watch on_reported on_new_block count_up
watched = (refl, refl)

watch-Handed_example : Handed at_5 (watch (7 ∷ 6 ∷ 10 ∷ []) at_5)
watch-Handed_example = watch-Handed (7 ∷ 6 ∷ 10 ∷ []) at_5 (ground arith)

abbrev events : List (Event ℕ)
events = arrive 1 ∷ arrive 2 ∷ tick ∷ tick ∷ arrive 3 ∷ tick ∷ arrive 4 ∷ []

batched : subscribe_filter events [] ≡ (4 ∷ [], (1 ∷ 2 ∷ []) ∷ (3 ∷ []) ∷ [])
unfolding subscribe_filter on_event
batched = refl

subscribe_filter-joined_example :
    (joined (subscribe_filter events []).1 ++ (subscribe_filter events []).0 ≡ arrivals events)
    × All (λ b. b ≢ []) (subscribe_filter events []).1
subscribe_filter-joined_example = subscribe_filter-joined events []
