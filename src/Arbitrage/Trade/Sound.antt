-- ===== src/Arbitrage/Trade/Sound.antt =====
-- When `tryTrade` sends a transaction.
use evm_arbitrage.Base.{
  ℕ, zero, suc, ◌-◌, ◌≡◌, sym, ap, subst, ◌∙◌, Bool, true, false, Option, none, some, List, length,
  arith, inl, inr, Bool-cases, List-cases, Option-cases, if◌then◌else◌,
}
use evm_arbitrage.Base.Bytes.{nat_eq}
use evm_arbitrage.Base.GoMap.{lookup}
use evm_arbitrage.Base.Int.{pos}
use evm_arbitrage.Base.Outcome.{Outcome, ok, need, >>=-eq-ok}
use evm_arbitrage.Base.Slice.{at}
use evm_arbitrage.Float64.{Float64, add, mul, le, lt, of_ratio}
use evm_arbitrage.Protocol.{UniswapV2Pair}
use evm_arbitrage.Protocol.Amounts.{get_amounts_out}
use evm_arbitrage.Trader.{Trader, Transaction, Chain, estimate_fee, swap_v2}
use evm_arbitrage.Trader.Swap.{IsSent, swap_v2-IsSent}
use evm_arbitrage.Arbitrage.Trade.{
  minute, Cache, stop, trade, print_addresses, search_amount, min_recieve_of, first_amount,
  find_amount, send_swap, try_path, try_trade,
}
use evm_arbitrage.Arbitrage.Trade.Courses.{
  Course, try_path-Course, try_path-paused, try_trade-try_path,
}
use evm_arbitrage.Arbitrage.Trade.Courses
use evm_arbitrage.Arbitrage.Trade.Stored.{Stored, path_pairs-Stored}

-- The amount pays more than itself and the least gain.
pub record IsGood (weth_address : ℕ) (ps : List UniswapV2Pair) (min_recieve amount out : Float64)
    : Type 0 where
  pub paid : get_amounts_out weth_address amount ps ≡ ok out
  pub enough : le out (add amount min_recieve) ≡ false

search_amount-IsGood :
    (fuel weth_address : ℕ) (ps : List UniswapV2Pair) (min_recieve start amount out : Float64)
    → search_amount fuel weth_address ps min_recieve start ≡ ok (trade amount out)
    → IsGood weth_address ps min_recieve amount out
unfolding search_amount
search_amount-IsGood zero weth_address ps min_recieve start amount out h = absurd (cc)
search_amount-IsGood (suc f) weth_address ps min_recieve start amount out h =
    let (x, paid, e) = >>=-eq-ok (get_amounts_out weth_address start ps) _ h in
    elim (Bool-cases (le x (add start min_recieve))) [
      | inl poor ↦ elim (Bool-cases (lt start min_recieve)) [
        | inl low ↦ absurd (no_trade (rw (poor, low) at e))
        | inr high ↦
            search_amount-IsGood f weth_address ps min_recieve (mul start (of_ratio 9 10)) amount
              out (rw (poor, high) at e)
      ]
      | inr good ↦
          let same : ok (trade start x) ≡ ok (trade amount out) = rw good at e in
          let a : start ≡ amount = ground arith in
          let o : x ≡ out = ground arith in
          subst (λ b. IsGood weth_address ps min_recieve b out) a
            (record {
              paid = paid ∙ ap ok o;
              enough = subst (λ y. le y (add start min_recieve) ≡ false) o good;
            })
    ]
  where
    no_trade : ok stop ≡ ok (trade amount out) → ⊥
    no_trade e = cc

find_amount-IsGood :
    (fuel weth_address : ℕ) (t : Trader) (pairs : List (ℕ × UniswapV2Pair)) (path : List ℕ)
    (ps : List UniswapV2Pair) (amount out : Float64)
    → find_amount fuel weth_address t pairs path ps ≡ ok (trade amount out)
    → IsGood weth_address ps (min_recieve_of t ps) amount out
unfolding find_amount
find_amount-IsGood fuel weth_address t pairs path ps amount out h =
    let (last, at_end, k) = >>=-eq-ok (at path (pos (length path - 1))) _ h in
    let (pair0, there, k') = >>=-eq-ok (need (lookup last pairs)) _ k in
    let (start, first, e) = >>=-eq-ok (first_amount weth_address pair0) _ k' in
    elim (Option-cases start) [
      | inl none_left ↦ absurd (no_trade (rw none_left at e))
      | inr (a, some_left) ↦
          search_amount-IsGood fuel weth_address ps (min_recieve_of t ps) a amount out
            (rw some_left at e)
    ]
  where
    no_trade : ok stop ≡ ok (trade amount out) → ⊥
    no_trade e = cc

pub send_swap-eq-some :
    (c : Chain) (accepts : Transaction → Bool) (weth_address : ℕ) (t : Trader) (amount : Float64)
    (ps : List UniswapV2Pair) (tx : Transaction)
    → send_swap c accepts weth_address t amount ps ≡ ok (some tx)
    → (swap_v2 c weth_address t amount ps ≡ ok (some tx)) × (accepts tx ≡ true)
unfolding send_swap
send_swap-eq-some c accepts weth_address t amount ps tx h =
    let (r, run, e) = >>=-eq-ok (swap_v2 c weth_address t amount ps) _ h in
    elim (Option-cases r) [
      | inl refused ↦ absurd (no_tx (rw refused at e))
      | inr (tx', made) ↦
          let (same, taken) = accepted tx' (rw made at e) in
          (run ∙ ap ok (made ∙ ap some same), taken)
    ]
  where
    no_tx : ok none ≡ ok (some tx) → ⊥
    no_tx e = cc

    accepted :
        (tx' : Transaction)
        → ok (if accepts tx' then some tx' else none) ≡ ok (some tx)
        → (tx' ≡ tx) × (accepts tx ≡ true)
    accepted tx' e = elim (Bool-cases (accepts tx')) [
      | inl yes_taken ↦
          let s : ok (some tx') ≡ ok (some tx) = rw yes_taken at e in
          let same : tx' ≡ tx = ground arith in (same, subst (λ x. accepts x ≡ true) same yes_taken)
      | inr not_taken ↦ absurd (no_tx (rw not_taken at e))
    ]

module _ {C : Type 0} (cache : Cache C) (fuel : ℕ) (c : Chain) (accepts : Transaction → Bool)
    (weth_address : ℕ) (t : Trader) (now later : ℕ) (pairs : List (ℕ × UniswapV2Pair))
    (path : List ℕ) (tried tried' : C) where
  -- What holds when a transaction was sent for a path.
  pub record IsTrade (tx : Transaction) : Type 0 where
    pub fresh : cache.get now (print_addresses path) tried ≡ none
    pub pair_path : List UniswapV2Pair
    pub stored : Stored pairs path pair_path
    pub amount : Float64
    pub out : Float64
    pub good :
        IsGood weth_address pair_path
          (mul (estimate_fee t (length pair_path)) (of_ratio 3 2))
          amount
          out
    pub sent : IsSent c weth_address t amount pair_path tx
    pub taken : accepts tx ≡ true
    pub kept : tried' ≡ cache.set now (print_addresses path) 0 minute tried

  Course-IsTrade :
      (tx : Transaction)
      → cache.get now (print_addresses path) tried ≡ none
      → Course cache fuel c accepts weth_address t now later pairs path tried tried' (some tx)
      → IsTrade tx
  unfolding min_recieve_of
  Course-IsTrade tx fresh (Courses.Course.missing p k s) = absurd (cc)
  Course-IsTrade tx fresh (Courses.Course.stopped ps p f k s) = absurd (cc)
  Course-IsTrade tx fresh (Courses.Course.swapped ps amount out p f s k) =
      let (made, taken) = send_swap-eq-some c accepts weth_address t amount ps tx s in
      record {
        fresh = fresh;
        pair_path = ps;
        stored = path_pairs-Stored pairs path ps p;
        amount = amount;
        out = out;
        good = find_amount-IsGood fuel weth_address t pairs path ps amount out f;
        sent = swap_v2-IsSent c weth_address t amount ps tx made;
        taken = taken;
        kept = k;
      }

  -- When `tryTrade` sends a transaction, the node accepted it; the path had no entry in the cache and
  -- has one of a minute after; every address of the path is that of a pair of the map; for these
  -- pairs, from the end of the path to its start, and some amount, `GetAmountsOut` does not pay at
  -- most the amount and one and a half of the estimated fee; and the transaction is the one of this
  -- amount and these pairs: with their encoded parameters, the least gas price, above 0, the node's
  -- nonce and 1.1 times its estimate of the gas, signed, and with a gain that covers that gas at
  -- that price.
  pub try_trade-IsTrade :
      (tx : Transaction)
      → try_trade cache fuel c accepts weth_address t now later pairs path tried
        ≡ ok (some (tried', some tx))
      → IsTrade tx
  unfolding try_trade
  try_trade-IsTrade tx h = elim (List-cases path) [
    | inl empty ↦ absurd (no_tx (rw empty at h))
    | inr full ↦
        let k : try_path cache fuel c accepts weth_address t now later pairs path
              (cache.get now (print_addresses path) tried) tried
            ≡ ok (some (tried', some tx)) =
          sym
            (try_trade-try_path cache fuel c accepts weth_address t now later pairs path tried full)
          ∙ h in
        elim (Option-cases (cache.get now (print_addresses path) tried)) [
          | inl fresh ↦ Course-IsTrade tx fresh (
              try_path-Course cache fuel c accepts weth_address t now later pairs path tried tried'
                (some tx) (rw fresh at k))
          | inr (n, lately) ↦ absurd (
              no_tx (
                sym
                  (try_path-paused cache fuel c accepts weth_address t now later pairs path tried n)
                ∙ (rw lately at k)))
        ]
  ]
    where
      no_tx :
          ◌≡◌ {A = Outcome (Option (C × Option Transaction))}
            (ok (some (tried, none)))
            (ok (some (tried', some tx)))
          → ⊥
      no_tx e = cc
