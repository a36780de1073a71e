-- ===== src/Arbitrage/Trade/Pause.antt =====
-- How long `tryTrade` leaves a path alone once it tried it.
use evm_arbitrage.Base.{
  ℕ, ◌+◌, ◌*◌, ◌≤◌, ◌<◌, ◌≡◌, ◌≢◌, ◌∙◌, Bool, Option, none, some, List, [], arith,
}
use evm_arbitrage.Base.Outcome.{ok}
use evm_arbitrage.Protocol.{UniswapV2Pair}
use evm_arbitrage.Trader.{Trader, Transaction, Chain}
use evm_arbitrage.Arbitrage.Trade.{minute, Cache, IsCache, print_addresses, try_trade}
use evm_arbitrage.Arbitrage.Trade.Courses.{try_path-paused, try_trade-try_path}
use evm_arbitrage.Arbitrage.Trade.Left
use evm_arbitrage.Arbitrage.Trade.Left.{IsLeft, try_trade-IsLeft}

module _ {C : Type 0} (cache : Cache C) (laws : IsCache cache) (fuel : ℕ) (c : Chain)
    (accepts : Transaction → Bool) (weth_address : ℕ) (t : Trader) (now later u : ℕ)
    (pairs : List (ℕ × UniswapV2Pair)) (path : List ℕ) (tried tried' : C)
    (sent : Option Transaction) (fresh : cache.get now (print_addresses path) tried ≡ none)
    (ended : now ≤ later) (after : later ≤ u) (soon : u < now + minute) where
  marked_found :
      tried' ≡ cache.set now (print_addresses path) 0 minute tried
      → (n : ℕ) × (cache.get u (print_addresses path) tried' ≡ some n)
  marked_found k =
      (0, rw k (laws.get-set now u 0 minute (print_addresses path) tried (omega arith) soon))

  IsLeft-found :
      IsLeft cache fuel c accepts weth_address t now later pairs path tried tried' sent
      → (n : ℕ) × (cache.get u (print_addresses path) tried' ≡ some n)
  IsLeft-found (Left.IsLeft.untouched n e k s) = absurd (cc)
  IsLeft-found (Left.IsLeft.missing a e i l k s) = marked_found k
  IsLeft-found (Left.IsLeft.poor ps e p f k s) = marked_found k
  IsLeft-found (Left.IsLeft.traded ps amount out tx e p f m y k s) = marked_found k
  IsLeft-found (Left.IsLeft.failed ps amount out e p f x k s) = (
    1,
    rw k (
        laws.get-set later u 1 (10 * minute) (print_addresses path)
          (cache.set now (print_addresses path) 0 minute tried) after (omega arith)),
  )

-- Once `tryTrade` has tried a path that had no entry, then, whether it sent a transaction, found no
-- amount or failed, for a minute from its start it does nothing for the same path: it returns at
-- once with the cache as it is, whatever pairs, prices and node it is given.
pub try_trade-paused :
    {C : Type 0} (cache : Cache C) (fuel fuel' : ℕ) (c c' : Chain)
    (accepts accepts' : Transaction → Bool) (weth_address weth_address' : ℕ) (t t' : Trader)
    (now later u later' : ℕ) (pairs pairs' : List (ℕ × UniswapV2Pair)) (path : List ℕ)
    (tried tried' : C) (sent : Option Transaction)
    → IsCache cache
    → path ≢ []
    → cache.get now (print_addresses path) tried ≡ none
    → now ≤ later
    → later ≤ u
    → u < now + minute
    → try_trade cache fuel c accepts weth_address t now later pairs path tried
      ≡ ok (some (tried', sent))
    → try_trade cache fuel' c' accepts' weth_address' t' u later' pairs' path tried'
      ≡ ok (some (tried', none))
try_trade-paused cache fuel fuel' c c' accepts accepts' weth_address weth_address' t t' now later u
      later' pairs pairs' path tried tried' sent laws full fresh ended after soon h =
    let left =
      try_trade-IsLeft cache fuel c accepts weth_address t now later pairs path tried tried' sent
        full h in
    let (n, found) =
      IsLeft-found cache laws fuel c accepts weth_address t now later u pairs path tried tried' sent
        fresh ended after soon left in
    try_trade-try_path cache fuel' c' accepts' weth_address' t' u later' pairs' path tried' full
    ∙ rw found
        (try_path-paused cache fuel' c' accepts' weth_address' t' u later' pairs' path tried' n)
