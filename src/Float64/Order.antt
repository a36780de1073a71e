-- ===== src/Float64/Order.antt =====
-- The order of float64: what a comparison that came out true says, with NaN allowed on every side.
use evm_arbitrage.Base.{◌≡◌, true, false, arith}
use evm_arbitrage.Float64.{Float64, nan, lt}

pub lt_irrefl : (x : Float64) → lt x x ≡ false
lt_irrefl nan = ground arith
lt_irrefl _ = ground arith

pub lt_trans : (x y z : Float64) → lt x y ≡ true → lt y z ≡ true → lt x z ≡ true
lt_trans nan y z h k = ground arith
lt_trans _ nan z h k = ground arith
lt_trans _ _ nan h k = ground arith
lt_trans _ _ _ h k = ground arith
