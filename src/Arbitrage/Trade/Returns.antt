-- ===== src/Arbitrage/Trade/Returns.antt =====
-- `tryTrade` returns.
use evm_arbitrage.Base.{
  ℕ, zero, suc, ◌-◌, ◌≡◌, refl, sym, subst, Bool, true, Option, none, some, List, [], ◌∷◌, All,
  All-append, arith, inl, inr, Option-cases, length, get_elem?,
}
use evm_arbitrage.Base.Bytes.{Bytes, nat_eq}
use evm_arbitrage.Base.GoMap.{lookup}
use evm_arbitrage.Base.Int.{ℤ, pos}
use evm_arbitrage.Base.Outcome.{Outcome, ok, total-map, ◌>>=◌}
use evm_arbitrage.Base.Slice.{at, at_of_lt}
use evm_arbitrage.Float64.{Float64, plus, lt}
use evm_arbitrage.Protocol.{UniswapV2Pair}
use evm_arbitrage.Protocol.Amounts.{get_amounts_out}
use evm_arbitrage.Trader.{
  Trader, Transaction, Chain, final_check, swap_transaction, send_checked, swap_v2,
}
use evm_arbitrage.Arbitrage.Trade.{
  minute, Cache, Search, stop, print_addresses, path_pairs, first_amount, search_amount,
  min_recieve_of, find_amount, send_swap, after_swap, end_trade, try_path, try_trade,
}
use evm_arbitrage.Arbitrage.Trade.Stored.{path_pairs-cons}
use evm_arbitrage.Arbitrage.Trade.Courses.{try_path-paused}
use evm_arbitrage.Arbitrage.Trade.Halting.{
  HasReserves, Ended, stopped, traded, get_amounts_out-total, search_amount-Ended,
}
use evm_arbitrage.Arbitrage.Trade.FirstAmount.{
  IsUint112, IsUint112-HasReserves, nowhere, units, first_amount-IsFirst,
}

module _ (pairs : List (ℕ × UniswapV2Pair)) where
  path_pairs-lookup :
      (path : List ℕ) (ps : List UniswapV2Pair) (i x : ℕ)
      → path_pairs pairs path ≡ some ps
      → get_elem? path i ≡ some x
      → (p : UniswapV2Pair) × (lookup x pairs ≡ some p)
  path_pairs-lookup [] ps i x h g = cc
  path_pairs-lookup (a ∷ path) ps zero x h g =
      let (qs, p, rest, first, e) = path_pairs-cons pairs a path ps h in
      let same : a ≡ x = ground arith in (p, subst (λ k. lookup k pairs ≡ some p) same first)
  path_pairs-lookup (a ∷ path) ps (suc i) x h g =
      let (qs, p, rest, first, e) = path_pairs-cons pairs a path ps h in
      path_pairs-lookup path qs i x rest g

  path_pairs-All :
      (path : List ℕ) (ps : List UniswapV2Pair)
      → ((a : ℕ) (p : UniswapV2Pair) → lookup a pairs ≡ some p → IsUint112 p)
      → path_pairs pairs path ≡ some ps
      → All IsUint112 ps
  unfolding path_pairs
  path_pairs-All [] ps f h = let e : [] ≡ ps = ground arith in subst (All IsUint112) e tt
  path_pairs-All (a ∷ path) ps f h =
      let (qs, p, rest, first, e) = path_pairs-cons pairs a path ps h in
      subst (All IsUint112) (sym e)
        (All-append IsUint112 qs (p ∷ []) (path_pairs-All path qs f rest) (f a p first, tt))

module _ (c : Chain) (weth_address : ℕ) (t : Trader) (amount : Float64) (ps : List UniswapV2Pair)
    (h : All HasReserves ps) where
  final_check-total :
      (gas_used : ℕ) → (r : Option ℤ) × (final_check weth_address t gas_used amount ps ≡ ok r)
  unfolding final_check
  final_check-total gas_used =
      total-map (get_amounts_out weth_address amount ps) _
        (get_amounts_out-total weth_address amount ps h)

  send_checked-total :
      (o : Option (ℕ × Transaction))
      → (r : Option Transaction) × (send_checked weth_address t amount ps o ≡ ok r)
  unfolding send_checked
  send_checked-total none = (none, refl)
  send_checked-total (some (gas_used, tx)) =
      total-map (final_check weth_address t gas_used amount ps) _ (final_check-total gas_used)

  -- A swap ends, with a transaction or an error.
  send_swap-total :
      (accepts : Transaction → Bool)
      → (r : Option Transaction) × (send_swap c accepts weth_address t amount ps ≡ ok r)
  unfolding send_swap swap_v2
  send_swap-total accepts =
      total-map
        (send_checked weth_address t amount ps (swap_transaction c weth_address t amount ps)) _
        (send_checked-total (swap_transaction c weth_address t amount ps))

module _ (weth_address : ℕ) (t : Trader) (pairs : List (ℕ × UniswapV2Pair)) (a : ℕ) (path : List ℕ)
    (ps : List UniswapV2Pair)
    (bits : (x : ℕ) (p : UniswapV2Pair) → lookup x pairs ≡ some p → IsUint112 p)
    (found : path_pairs pairs (a ∷ path) ≡ some ps)
    (large : lt (plus 10) (min_recieve_of t ps) ≡ true) where
  reserves : All HasReserves ps
  reserves = IsUint112-HasReserves ps (path_pairs-All pairs (a ∷ path) ps bits found)

  find_amount_from :
      (fuel x : ℕ) (p : UniswapV2Pair) (o : Option Float64)
      → at (a ∷ path) (pos (length (a ∷ path) - 1)) ≡ ok x
      → lookup x pairs ≡ some p
      → first_amount weth_address p ≡ ok o
      → find_amount fuel weth_address t pairs (a ∷ path) ps ≡ elim o [
        | none ↦ ok stop
        | some n ↦ search_amount fuel weth_address ps (min_recieve_of t ps) n
      ]
  unfolding find_amount
  find_amount_from fuel x p o last there first = rw last (rw there (rw first refl))

  find_amount-Ended : (fuel : ℕ) × Ended (find_amount fuel weth_address t pairs (a ∷ path) ps)
  find_amount-Ended =
      let (x, last, elem) = at_of_lt (a ∷ path) (length (a ∷ path) - 1) (omega arith) in
      let (p, there) = path_pairs-lookup pairs (a ∷ path) ps (length (a ∷ path) - 1) x found elem in
      elim (first_amount-IsFirst weth_address p (bits x p there)) [
        | nowhere e ↦ (0, stopped (find_amount_from 0 x p none last there e))
        | units n e small ↦ (
          suc n,
          subst Ended (sym (find_amount_from (suc n) x p (some (plus n)) last there e)) (
              search_amount-Ended weth_address ps (min_recieve_of t ps) reserves large (suc n) n
                (omega arith) small),
        )
      ]

module _ {C : Type 0} (cache : Cache C) (c : Chain) (accepts : Transaction → Bool)
    (weth_address : ℕ) (t : Trader) (now later : ℕ) (pairs : List (ℕ × UniswapV2Pair))
    (bits : (x : ℕ) (p : UniswapV2Pair) → lookup x pairs ≡ some p → IsUint112 p) where
  end_trade-Ended :
      (key : Bytes) (dup_count : Option ℕ) (ps : List UniswapV2Pair) (tried : C)
      (found : Outcome Search)
      → All HasReserves ps
      → Ended found
      → (r : C × Option Transaction) × ((found
            >>= end_trade cache c accepts weth_address t later key dup_count ps tried)
          ≡ ok (some r))
  unfolding end_trade
  end_trade-Ended key dup_count ps tried found h (stopped e) = ((tried, none), rw e refl)
  end_trade-Ended key dup_count ps tried found h (traded amount out e) =
      let (sent, swapped) = send_swap-total c weth_address t amount ps h accepts in
      ((after_swap cache later key dup_count sent tried, sent), rw e (rw swapped refl))

  try_path-returns :
      (a : ℕ) (path : List ℕ) (tried : C)
      → ((ps : List UniswapV2Pair)
          → path_pairs pairs (a ∷ path) ≡ some ps
          → lt (plus 10) (min_recieve_of t ps) ≡ true)
      → (fuel : ℕ) × (r : C × Option Transaction) × (try_path cache fuel c accepts weth_address t
            now later pairs
            (a ∷ path)
            none
            tried
          ≡ ok (some r))
  unfolding try_path
  try_path-returns a path tried large =
      let key = print_addresses (a ∷ path) in
      let marked = cache.set now key 0 minute tried in
      elim (Option-cases (path_pairs pairs (a ∷ path))) [
        | inl missing ↦ (0, (marked, none), rw (missing, try_path) refl)
        | inr (ps, found) ↦
            let (fuel, ended) =
              find_amount-Ended weth_address t pairs a path ps bits found (large ps found) in
            let (r, e) =
              end_trade-Ended key none ps marked
                (find_amount fuel weth_address t pairs (a ∷ path) ps)
                (reserves weth_address t pairs a path ps bits found (large ps found)) ended in
            (fuel, r, rw (found, try_path) e)
      ]

  -- When every stored pair has both reserves, as numbers of 112 bits, and one and a half of the
  -- estimated fee for the pairs of the path is above ten units (of 2^-1074 wei), then `tryTrade` of
  -- the path returns, within some fuel: it does not panic, and its search for an amount ends.
  pub try_trade-returns :
      (path : List ℕ) (tried : C)
      → ((ps : List UniswapV2Pair)
          → path_pairs pairs path ≡ some ps
          → lt (plus 10) (min_recieve_of t ps) ≡ true)
      → (fuel : ℕ) × (r : C × Option Transaction) × (try_trade cache fuel c accepts weth_address t
            now later pairs path tried
          ≡ ok (some r))
  unfolding try_trade
  try_trade-returns [] tried large = (0, (tried, none), refl)
  try_trade-returns (a ∷ path) tried large =
      elim (Option-cases (cache.get now (print_addresses (a ∷ path)) tried)) [
        | inl fresh ↦
            let (fuel, r, e) = try_path-returns a path tried large in
            (fuel, r, rw (fresh, try_trade) e)
        | inr (n, lately) ↦ (
          0,
          (tried, none),
          rw (lately, try_trade)
              (try_path-paused cache 0 c accepts weth_address t now later pairs (a ∷ path) tried n),
        )
      ]
