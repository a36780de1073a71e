-- ===== src/Retry.antt =====
-- monitor/utils/retry.go: a function is called again until it succeeds or the count is used up.
use evm_arbitrage.Base.{ℕ, zero, suc, ◌+◌, Bool, true, false, Option, none, some, if◌then◌else◌}
use evm_arbitrage.Base.Int.{ℤ, pos, negsuc, ◌+ℤ◌, ltb_ℤ, wrap_int64}
pub mod Attempts
pub mod Tests

-- The count after a failure, an int64: -1 is no limit; none when nothing is left.
unfoldable pub next_left : ℤ → Option ℤ
next_left (negsuc zero) = some (negsuc zero)
next_left left =
    let less = wrap_int64 (left +ℤ negsuc 0) in if ltb_ℤ (pos 0) less then some less else none

-- `Retry` from call i on, with whether each call succeeds: whether it returned without an error, and
-- the number of calls. None only when the fuel, a bound on the calls, runs out; without a limit
-- the loop itself need not end.
unfoldable pub retry : ℕ → (ℕ → Bool) → ℕ → ℤ → Option (Bool × ℕ)
unfolding next_left
retry zero succeeds i left = none
retry (suc fuel) succeeds i left = elim (succeeds i) [
  | true ↦ some (true, i + 1)
  | false ↦ elim (next_left left) [
    | none ↦ some (false, i + 1)
    | some left' ↦ retry fuel succeeds (i + 1) left'
  ]
]
