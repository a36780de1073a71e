-- ===== src/Arbitrage/Trade/Reached.antt =====
-- Whatever the monitor did to the store before, a path found in it can be traded.
use evm_arbitrage.Base.{
  ℕ, ◌≡◌, ◌≢◌, refl, sym, ap, subst, ◌∙◌, Bool, Option, none, some, List, [], ◌∷◌, arith,
}
use evm_arbitrage.Base.Bytes.{nat_eq}
use evm_arbitrage.Base.GoMap.{IsRange}
use evm_arbitrage.Base.Int.{ℤ}
use evm_arbitrage.Base.Outcome.{Outcome, ok}
use evm_arbitrage.Action.{Surroundings, do_new_log_handler}
use evm_arbitrage.Action.Addressed.{do_new_log_handler-Addressed}
use evm_arbitrage.DataKeeper.{FileDataKeeper, FileRead, init}
use evm_arbitrage.DataKeeper.Addressed.{init-KeepsAddressed}
use evm_arbitrage.Float64.{Float64}
use evm_arbitrage.PairStore.{PairStore, pair_update}
use evm_arbitrage.PairStore.Addressed.{IsAddressed, empty-IsAddressed, load_all-IsAddressed}
use evm_arbitrage.Protocol.{UniswapV2Pair, AddressText}
use evm_arbitrage.Protocol.Logs.{Log}
use evm_arbitrage.Storage.{entries, load_all}
use evm_arbitrage.SwapGraph.{SwapEdge}
use evm_arbitrage.Arbitrage.{find_arbitrage}
use evm_arbitrage.Arbitrage.Trade.Path.{IsTradable, find_arbitrage-IsTradable}
pub mod Tests

-- The stores that the start from a file, batches of logs and `LoadAll`, in any order and with any
-- answers from outside, lead to from the empty one.
pub data Reached : PairStore → Type 0 where
  created : Reached (record { datas = none })
  restored :
      (s s' : PairStore) (t : AddressText) (made : Bool) (answer : FileRead) (f : FileDataKeeper)
      (r : FileDataKeeper × Option (Unit {0}))
      → Reached s
      → f.datas ≡ some s
      → init t made answer f ≡ ok r
      → (r.0).datas ≡ some s'
      → Reached s'
  handled :
      (s s' : PairStore) (w : Surroundings) (logs : List Log) (done : Bool)
      → Reached s
      → IsRange w.pair_order
      → IsRange w.store_order
      → do_new_log_handler w logs (some s) ≡ ok (some s', done)
      → Reached s'
  swept :
      (s s' : PairStore) (order : List (ℕ × UniswapV2Pair) → List (ℕ × UniswapV2Pair)) (now : ℕ → ℤ)
      (all : List (ℕ × UniswapV2Pair))
      → Reached s
      → IsRange order
      → load_all pair_update order now (some s) ≡ ok (some s', all)
      → Reached s'

-- The store of an option that is there.
same_store :
    (s' : PairStore) (o : Option PairStore)
    → (s : PairStore) × (o ≡ some s) × IsAddressed (entries s.datas)
    → o ≡ some s'
    → IsAddressed (entries s'.datas)
same_store s' o (s, e, h) e' =
    let both : some s ≡ some s' = sym e ∙ e' in
    let same : s ≡ s' = ground arith in
    subst (λ (x : PairStore). IsAddressed (entries x.datas)) same h

pub Reached-IsAddressed : (s : PairStore) → Reached s → IsAddressed (entries s.datas)
Reached-IsAddressed s created = empty-IsAddressed
Reached-IsAddressed s (restored s0 _ t made answer f r before at run after) =
    same_store s (r.0).datas
      (init-KeepsAddressed t made answer f r (s0, at, Reached-IsAddressed s0 before) run) after
Reached-IsAddressed s (handled s0 _ w logs done before range range' run) =
    same_store s (some s)
      (do_new_log_handler-Addressed w logs s0 (some s, done) range range'
        (Reached-IsAddressed s0 before) run)
      refl
Reached-IsAddressed s (swept s0 _ order now all before range run) =
    same_store s (some s)
      (load_all-IsAddressed pair_update now order s0 (some s) all range
        (Reached-IsAddressed s0 before) run).1
      refl

-- On a store that any starts from a file, batches of logs and calls of `LoadAll` led to, whatever the
-- file, the node and the ABI gave: when `findArbitrage` finds a path that is not empty in the pairs
-- that `LoadAll` gives, then `tryTrade` finds all its pairs among them, the pair at its end trades
-- WETH, and the directions that `SwapV2` encodes for them lead from WETH in turn back to WETH.
pub reached-IsTradable :
    (s : PairStore) (o : Option PairStore)
    (load_order : List (ℕ × UniswapV2Pair) → List (ℕ × UniswapV2Pair)) (now : ℕ → ℤ)
    (log10 : Float64 → Float64) (visit : List UniswapV2Pair → List UniswapV2Pair)
    (order : ℕ → List SwapEdge → List SwapEdge) (pick : List SwapEdge → List SwapEdge)
    (weth_address : ℕ) (pairs : List (ℕ × UniswapV2Pair)) (path : List ℕ)
    → Reached s
    → IsRange load_order
    → IsRange visit
    → ((i : ℕ) → IsRange (order i))
    → IsRange pick
    → load_all pair_update load_order now (some s) ≡ ok (o, pairs)
    → find_arbitrage log10 visit order pick weth_address pairs ≡ ok path
    → path ≢ []
    → IsTradable weth_address pairs path
reached-IsTradable s o load_order now log10 visit order pick weth_address pairs path reached loads
      visits ranges range loaded run found =
    find_arbitrage-IsTradable log10 visit order pick weth_address pairs path
      (load_all-IsAddressed pair_update now load_order s o pairs loads
        (Reached-IsAddressed s reached) loaded).0
      visits ranges range run found
