-- ===== src/Trader/Directions.antt =====
-- The directions that `SwapV2` encodes are those of the trade that `GetAmountsOut` computes.
use evm_arbitrage.Base.{
  ℕ, ◌≡◌, ◌≢◌, refl, sym, subst, Bool, true, false, List, [], ◌∷◌, ==_ne, ==_refl,
}
use evm_arbitrage.Base.Outcome.{ok}
use evm_arbitrage.Float64.{Float64, plus}
use evm_arbitrage.Protocol.{UniswapV2Pair}
use evm_arbitrage.Protocol.Amounts.{get_amounts_out}
use evm_arbitrage.Protocol.Amounts.Route.{Route, get_amounts_out-Route}
use evm_arbitrage.Trader.{directions}

-- The steps lead from a to b, each out of the token that is held: token0 if the flag is set, else
-- token1.
pub data Leads : ℕ → List (UniswapV2Pair × Bool) → ℕ → Type 0 where
  end : (a : ℕ) → Leads a [] a
  out :
      (p : UniswapV2Pair) (a b : ℕ) (ss : List (UniswapV2Pair × Bool))
      → p.token0 ≡ a
      → Leads p.token1 ss b
      → Leads a ((p, true) ∷ ss) b
  back :
      (p : UniswapV2Pair) (a b : ℕ) (ss : List (UniswapV2Pair × Bool))
      → p.token1 ≡ a
      → Leads p.token0 ss b
      → Leads a ((p, false) ∷ ss) b

step_out :
    (p : UniswapV2Pair) (ps : List UniswapV2Pair) (a : ℕ)
    → p.token0 ≡ a
    → directions a (p ∷ ps) ≡ (p, true) ∷ directions p.token1 ps
unfolding directions
step_out p ps a e = rw (sym e, ==_refl p.token0) refl

step_back :
    (p : UniswapV2Pair) (ps : List UniswapV2Pair) (a : ℕ)
    → p.token0 ≢ a
    → directions a (p ∷ ps) ≡ (p, false) ∷ directions p.token0 ps
unfolding directions
step_back p ps a h = rw (==_ne p.token0 a h) refl

directions-Leads :
    (a : ℕ) (x : Float64) (ps : List UniswapV2Pair) (b : ℕ) (y : Float64)
    → Route a x ps b y
    → Leads a (directions a ps) b
unfolding directions
directions-Leads a x [] b y (Route.stay _ _) = Leads.end a
directions-Leads a x (p ∷ ps) b y (Route.forward _ _ _ r0 r1 _ _ _ e l0 l1 r) =
    subst (λ ss. Leads a ss b) (sym (step_out p ps a e))
      (Leads.out p a b (directions p.token1 ps) e (directions-Leads p.token1 _ ps b y r))
directions-Leads a x (p ∷ ps) b y (Route.backward _ _ _ r0 r1 _ _ _ n e l0 l1 r) =
    subst (λ ss. Leads a ss b) (sym (step_back p ps a n))
      (Leads.back p a b (directions p.token0 ps) e (directions-Leads p.token0 _ ps b y r))

-- When `GetAmountsOut` pays out another amount than +0 for a path, the directions that `SwapV2`
-- encodes for it lead from the token in turn back to itself, each pair being traded out of the
-- token that is held.
pub get_amounts_out-Leads :
    (token : ℕ) (amount : Float64) (ps : List UniswapV2Pair) (x : Float64)
    → get_amounts_out token amount ps ≡ ok x
    → x ≢ plus 0
    → Leads token (directions token ps) token
get_amounts_out-Leads token amount ps x h paid =
    directions-Leads token amount ps token x ((get_amounts_out-Route token amount ps x paid).0 h)
