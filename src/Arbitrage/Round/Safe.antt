-- ===== src/Arbitrage/Round/Safe.antt =====
-- What a transaction that a round sends swaps.
use evm_arbitrage.Base.{
  ℕ, ◌≡◌, ◌≢◌, sym, ap, subst, ◌∙◌, Bool, true, Option, none, some, List, [], ◌∷◌, length, arith,
}
use evm_arbitrage.Base.Bytes.{nat_eq}
use evm_arbitrage.Base.Int.{ℤ}
use evm_arbitrage.Base.Outcome.{Outcome, ok, >>=-eq-ok, ok-inj}
use evm_arbitrage.Float64.{Float64, mul, of_ratio}
use evm_arbitrage.PairStore.{PairStore, pair_update}
use evm_arbitrage.Protocol.{UniswapV2Pair}
use evm_arbitrage.Storage.{entries, load_all}
use evm_arbitrage.Storage.Sweep.{load_all-copied}
use evm_arbitrage.Base.GoMap.{lookup}
use evm_arbitrage.Trader.{Trader, Transaction, Chain, estimate_fee, directions}
use evm_arbitrage.Trader.Directions.{Leads}
use evm_arbitrage.Trader.Swap.{IsSent}
use evm_arbitrage.Arbitrage.{find_arbitrage}
use evm_arbitrage.Arbitrage.Trade.{Cache, try_trade}
use evm_arbitrage.Arbitrage.Trade.Path.{IsTradable}
use evm_arbitrage.Arbitrage.Trade.Reached.{Reached, Reached-IsAddressed, reached-IsTradable}
use evm_arbitrage.Arbitrage.Trade.Sound.{IsGood, IsTrade, try_trade-IsTrade}
use evm_arbitrage.Arbitrage.Trade.Stored.{Stored, Stored-within, Stored-path_pairs}
use evm_arbitrage.Arbitrage.Round.{Orders, AreRanges, trade_path, arbitrage_round}

-- The transaction makes a circle of swaps through pairs of the store, from WETH back to WETH, for an amount
-- that pays more than itself and the least gain.
pub record IsCircleTrade (c : Chain) (accepts : Transaction → Bool) (weth_address : ℕ) (t : Trader)
    (s : PairStore) (tx : Transaction) : Type 0 where
  pub path : List ℕ
  pub pair_path : List UniswapV2Pair
  pub full : path ≢ []
  pub stored : Stored (entries s.datas) path pair_path
  pub amount : Float64
  pub out : Float64
  pub good :
      IsGood weth_address pair_path
        (mul (estimate_fee t (length pair_path)) (of_ratio 3 2))
        amount
        out
  pub leads : Leads weth_address (directions weth_address pair_path) weth_address
  pub sent : IsSent c weth_address t amount pair_path tx
  pub taken : accepts tx ≡ true

module _ {C : Type 0} (cache : Cache C) (o : Orders) (weth_address : ℕ) (c : Chain)
    (accepts : Transaction → Bool) (t : Trader) where
  IsTrade-IsCircleTrade :
      (fuel now later : ℕ) (s : PairStore) (pairs : List (ℕ × UniswapV2Pair)) (path : List ℕ)
      (tried tried' : C) (tx : Transaction)
      → ((a : ℕ) (p : UniswapV2Pair)
          → lookup a pairs ≡ some p
          → lookup a (entries s.datas) ≡ some p)
      → path ≢ []
      → IsTradable weth_address pairs path
      → IsTrade cache fuel c accepts weth_address t now later pairs path tried tried' tx
      → IsCircleTrade c accepts weth_address t s tx
  IsTrade-IsCircleTrade fuel now later s pairs path tried tried' tx copied full able trade =
      let both : some able.pair_path ≡ some trade.pair_path =
        sym able.found ∙ Stored-path_pairs pairs path trade.pair_path trade.stored in
      let same : able.pair_path ≡ trade.pair_path = ground arith in
      record {
        path = path;
        full = full;
        stored = Stored-within pairs (entries s.datas) path trade.pair_path copied trade.stored;
        pair_path = trade.pair_path;
        amount = trade.amount;
        out = trade.out;
        good = trade.good;
        leads =
            subst (λ ps. Leads weth_address (directions weth_address ps) weth_address) same
              able.leads;
        sent = trade.sent;
        taken = trade.taken;
      }

  trade_path-full :
      (fuel now later : ℕ) (pairs : List (ℕ × UniswapV2Pair)) (path : List ℕ) (tried tried' : C)
      (tx : Transaction)
      → trade_path cache o weth_address c accepts t fuel now later pairs tried path
        ≡ ok (some (tried', some tx))
      → (path ≢ [])
        × (try_trade cache fuel c accepts weth_address t now later pairs path tried
            ≡ ok (some (tried', some tx)))
  trade_path-full fuel now later pairs [] tried tried' tx h = absurd (no_tx h)
    where
      no_tx :
          ◌≡◌ {A = Outcome (Option (C × Option Transaction))}
            (ok (some (tried, none)))
            (ok (some (tried', some tx)))
          → ⊥
      no_tx e = cc
  trade_path-full fuel now later pairs (a ∷ path) tried tried' tx h = (λ e. cc, h)

  -- On a store that any starts from a file, batches of logs and calls of `LoadAll` led to, whatever came
  -- from outside: when a round of the arbitrage sends a transaction, the node accepted it; there is a
  -- path of addresses, not empty, each that of a pair of the store; the directions of these pairs,
  -- from the end of the path to its start, lead from WETH in turn back to WETH; for them and some
  -- amount `GetAmountsOut` does not pay at most the amount and one and a half of the estimated fee;
  -- and the transaction is the one of this amount and these pairs: with their encoded parameters,
  -- the least gas price, above 0, the node's nonce and 1.1 times its estimate of the gas, signed,
  -- and with a gain that covers that gas at that price.
  pub arbitrage_round-IsCircleTrade :
      (fuel : ℕ) (times : ℕ → ℤ) (now later : ℕ) (s : PairStore) (s' : Option PairStore)
      (tried tried' : C) (tx : Transaction)
      → Reached s
      → AreRanges o
      → arbitrage_round cache o weth_address c accepts t fuel times now later (some s) tried
        ≡ ok (s', some (tried', some tx))
      → IsCircleTrade c accepts weth_address t s tx
  unfolding arbitrage_round
  arbitrage_round-IsCircleTrade fuel times now later s s' tried tried' tx reached ranges h =
      let ((left, pairs), loaded, k) =
        >>=-eq-ok (load_all pair_update o.load_order times (some s)) _ h in
      let (path, found, k') =
        >>=-eq-ok (find_arbitrage o.log10 o.visit o.order o.pick weth_address pairs) _ k in
      let (r, traded, e) =
        >>=-eq-ok (trade_path cache o weth_address c accepts t fuel now later pairs tried path) _
          k' in
      let result : r ≡ some (tried', some tx) = ap (λ x. x.1) (ok-inj e) in
      let (full, run) =
        trade_path-full fuel now later pairs path tried tried' tx (traded ∙ ap ok result) in
      let able =
        reached-IsTradable s left o.load_order times o.log10 o.visit o.order o.pick weth_address
          pairs path reached ranges.load_order ranges.visit ranges.order ranges.pick loaded found
          full in
      IsTrade-IsCircleTrade fuel now later s pairs path tried tried' tx
        (λ a p.
          load_all-copied pair_update o.load_order times s left pairs a p ranges.load_order
            (Reached-IsAddressed s reached).once loaded)
        full able
        (try_trade-IsTrade cache fuel c accepts weth_address t now later pairs path tried tried' tx
          run)
