-- ===== src/Retry/Tests.antt =====
-- A function that succeeds at its third call.
use evm_arbitrage.Base.{ℕ, ◌+◌, ◌≡◌, ◌==◌, refl, Bool, true, false, none, some, arith}
use evm_arbitrage.Base.Int.{pos, negsuc, ◌+ℤ◌, wrap_int64}
use evm_arbitrage.Retry.{next_left, retry}
use evm_arbitrage.Retry.Attempts.{IsRun, retry-IsRun}

abbrev at_third : ℕ → Bool
at_third i = i == 2

runs :
    (retry 5 at_third 0 (pos 5) ≡ some (true, 3))
    × (retry 2 at_third 0 (pos 2) ≡ some (false, 2))
    × (retry 9 at_third 0 (pos 0) ≡ some (false, 1))
    × (retry 9 at_third 0 (negsuc 0) ≡ some (true, 3))
    × (retry 9 (λ i. false) 0 (negsuc 0) ≡ none)
unfolding retry next_left wrap_int64 ◌+ℤ◌
runs = (refl, refl, refl, refl, refl)

retry-IsRun_example :
    (result : Bool) × (k : ℕ) × (retry 5 at_third 0 (pos 5) ≡ some (result, 0 + k))
    × IsRun at_third 0 5 result k
retry-IsRun_example = retry-IsRun at_third 4 0 (omega arith)
