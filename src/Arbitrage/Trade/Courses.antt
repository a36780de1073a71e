-- ===== src/Arbitrage/Trade/Courses.antt =====
-- The ways in which `tryTrade` returns.
use evm_arbitrage.Base.{
  ℕ, ◌≡◌, ◌≢◌, refl, sym, ap, ◌∙◌, Bool, Option, none, some, List, [], ◌∷◌, arith, inl, inr,
  Option-cases,
}
use evm_arbitrage.Base.Bytes.{nat_eq}
use evm_arbitrage.Base.Outcome.{Outcome, ok, >>=-eq-ok}
use evm_arbitrage.Float64.{Float64}
use evm_arbitrage.Protocol.{UniswapV2Pair}
use evm_arbitrage.Trader.{Trader, Transaction, Chain}
use evm_arbitrage.Arbitrage.Trade.{
  minute, Cache, Search, no_fuel, stop, trade, print_addresses, path_pairs, find_amount, send_swap,
  after_swap, end_trade, try_path, try_trade,
}

module _ {C : Type 0} (cache : Cache C) (fuel : ℕ) (c : Chain) (accepts : Transaction → Bool)
    (weth_address : ℕ) (t : Trader) (now later : ℕ) (pairs : List (ℕ × UniswapV2Pair))
    (path : List ℕ) (tried : C) where
  -- The cache with the path.
  abbrev pub marked : C
  marked = cache.set now (print_addresses path) 0 minute tried

  -- The ways to return, for a path that was not tried lately: a pair is missing, no amount pays, or a
  -- swap was tried.
  pub data Course (tried' : C) (sent : Option Transaction) : Type 0 where
    missing : path_pairs pairs path ≡ none → tried' ≡ marked → sent ≡ none → Course tried' sent
    stopped :
        (ps : List UniswapV2Pair)
        → path_pairs pairs path ≡ some ps
        → find_amount fuel weth_address t pairs path ps ≡ ok stop
        → tried' ≡ marked
        → sent ≡ none
        → Course tried' sent
    swapped :
        (ps : List UniswapV2Pair) (amount out : Float64)
        → path_pairs pairs path ≡ some ps
        → find_amount fuel weth_address t pairs path ps ≡ ok (trade amount out)
        → send_swap c accepts weth_address t amount ps ≡ ok sent
        → tried' ≡ after_swap cache later (print_addresses path) none sent marked
        → Course tried' sent

  end_trade-Course :
      (ps : List UniswapV2Pair) (s : Search) (tried' : C) (sent : Option Transaction)
      → path_pairs pairs path ≡ some ps
      → find_amount fuel weth_address t pairs path ps ≡ ok s
      → end_trade cache c accepts weth_address t later (print_addresses path) none ps marked s
        ≡ ok (some (tried', sent))
      → Course tried' sent
  unfolding end_trade
  end_trade-Course ps no_fuel tried' sent p f h = absurd (cc)
  end_trade-Course ps stop tried' sent p f h = Course.stopped ps p f (ground arith) (ground arith)
  end_trade-Course ps (trade amount out) tried' sent p f h =
      let (sent', run, e) = >>=-eq-ok (send_swap c accepts weth_address t amount ps) _ h in
      let same : sent' ≡ sent = ground arith in
      let kept : after_swap cache later (print_addresses path) none sent' marked ≡ tried' =
        ground arith in
      Course.swapped ps amount out p f (run ∙ ap ok same)
        (sym kept ∙ ap (λ s. after_swap cache later (print_addresses path) none s marked) same)

  pub try_path-Course :
      (tried' : C) (sent : Option Transaction)
      → try_path cache fuel c accepts weth_address t now later pairs path none tried
        ≡ ok (some (tried', sent))
      → Course tried' sent
  unfolding try_path
  try_path-Course tried' sent h = elim (Option-cases (path_pairs pairs path)) [
    | inl gone ↦
        let e : ◌≡◌ {A = Outcome (Option (C × Option Transaction))} (ok (some (marked, none)))
            (ok (some (tried', sent))) =
          rw (gone, try_path) at h in
        Course.missing gone (ground arith) (ground arith)
    | inr (ps, there) ↦
        let (s, run, e) =
          >>=-eq-ok (find_amount fuel weth_address t pairs path ps)
            (end_trade cache c accepts weth_address t later (print_addresses path) none ps marked)
            (rw (there, try_path) at h) in
        end_trade-Course ps s tried' sent there run e
  ]

  pub try_path-paused :
      (n : ℕ)
      → try_path cache fuel c accepts weth_address t now later pairs path (some n) tried
        ≡ ok (some (tried, none))
  unfolding try_path
  try_path-paused n = refl

-- `tryTrade` of a path that is not empty is `try_path` with the cache's entry.
pub try_trade-try_path :
    {C : Type 0} (cache : Cache C) (fuel : ℕ) (c : Chain) (accepts : Transaction → Bool)
    (weth_address : ℕ) (t : Trader) (now later : ℕ) (pairs : List (ℕ × UniswapV2Pair))
    (path : List ℕ) (tried : C)
    → path ≢ []
    → try_trade cache fuel c accepts weth_address t now later pairs path tried
      ≡ try_path cache fuel c accepts weth_address t now later pairs path
          (cache.get now (print_addresses path) tried)
          tried
unfolding try_trade
try_trade-try_path cache fuel c accepts weth_address t now later pairs [] tried h = absurd (h refl)
try_trade-try_path cache fuel c accepts weth_address t now later pairs (a ∷ path) tried h = refl
