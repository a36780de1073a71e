-- ===== src/BellmanFord2/Tests.antt =====
-- Two vertices whose chain of predecessors visits both before it closes, and three that close early.
use evm_arbitrage.Base.{
  ℕ, zero, suc, ◌<◌, ◌≡◌, ◌≢◌, refl, some, List, [], ◌∷◌, get_elem?, length, arith,
}
use evm_arbitrage.Base.Int.{ℤ, pos}
use evm_arbitrage.Base.Outcome.{ok, panic}
use evm_arbitrage.Base.Slice.{at, put, make}
use evm_arbitrage.Float64.{Float64, minus, one_units, add}
use evm_arbitrage.BellmanFord2.{
  Bf2Edge, set_far, shorter, relax_all, rounds, bellman_ford, slice, chase, arbitrage_loop,
  find_negative_weight_cycle, find_arbitrage_loop,
}
use evm_arbitrage.BellmanFord2.Chase.{arbitrage_loop-eq-panic}

program : Unit {0}
unfolding at put make add set_far shorter relax_all rounds bellman_ford slice chase arbitrage_loop
    find_negative_weight_cycle find_arbitrage_loop
program = tt

abbrev edge_of : ℕ → ℕ → Float64 → Bf2Edge
edge_of u v w = record { from = pos u; to = pos v; weight = w }

-- A negative circle through both of two vertices ...
panics :
    find_arbitrage_loop (pos 0) (record {
      edges = edge_of 0 1 (minus one_units) ∷ edge_of 1 0 (minus one_units) ∷ [];
      vertices = pos 0 ∷ pos 1 ∷ [];
    })
    ≡ panic
unfolding program
panics = refl

-- ... and the same with a third vertex that is not on it.
loop_found :
    find_arbitrage_loop (pos 0) (record {
      edges = edge_of 0 1 (minus one_units) ∷ edge_of 1 0 (minus one_units) ∷ [];
      vertices = pos 0 ∷ pos 1 ∷ pos 2 ∷ [];
    })
    ≡ ok (some (pos 0 ∷ pos 1 ∷ pos 0 ∷ []))
unfolding program
loop_found = refl

abbrev both : List ℤ
both = pos 1 ∷ pos 0 ∷ []

-- The chain 0, 1, 0, 1, ...
abbrev swap : ℕ → ℕ
swap zero = 0
swap (suc zero) = 1
swap (suc (suc k)) = 0

swap_follows : (k : ℕ) → k < length both → get_elem? both (swap k) ≡ some (pos (swap (suc k)))
swap_follows zero h = refl
swap_follows (suc zero) h = refl
swap_follows (suc (suc k)) h = absurd (omega arith)

swap_distinct : (j k : ℕ) → j < k → k < length both → swap j ≢ swap k
swap_distinct zero (suc zero) h l = λ e. omega arith
swap_distinct j zero h l = absurd (omega arith)
swap_distinct (suc j) (suc zero) h l = absurd (omega arith)
swap_distinct j (suc (suc k)) h l = absurd (omega arith)

arbitrage_loop-eq-panic_example : arbitrage_loop both (pos 0) ≡ panic
arbitrage_loop-eq-panic_example =
    arbitrage_loop-eq-panic both swap swap_follows swap_distinct 0 refl
