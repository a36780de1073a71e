-- ===== src/Arbitrage/Trade/Left.antt =====
-- What `tryTrade` leaves in the cache, and after which course.
use evm_arbitrage.Base.{
  ℕ, ◌*◌, ◌≡◌, ◌≢◌, ◌⊎◌, sym, ap, ◌∙◌, Bool, true, false, Option, none, some, List, [], In, arith,
  inl, inr, Bool-cases, Option-cases, if◌then◌else◌,
}
use evm_arbitrage.Base.Bytes.{nat_eq}
use evm_arbitrage.Base.GoMap.{lookup}
use evm_arbitrage.Base.Outcome.{Outcome, ok, >>=-eq-ok}
use evm_arbitrage.Float64.{Float64}
use evm_arbitrage.Protocol.{UniswapV2Pair}
use evm_arbitrage.Trader.{Trader, Transaction, Chain, swap_v2}
use evm_arbitrage.Arbitrage.Trade.{
  minute, Cache, stop, trade, print_addresses, find_amount, send_swap, after_swap, try_path,
  try_trade,
}
use evm_arbitrage.Arbitrage.Trade.Courses.{
  Course, marked, try_path-Course, try_path-paused, try_trade-try_path,
}
use evm_arbitrage.Arbitrage.Trade.Courses
use evm_arbitrage.Arbitrage.Trade.Sound.{send_swap-eq-some}
use evm_arbitrage.Arbitrage.Trade.Stored.{Stored, path_pairs-Stored, path_pairs-missing}

-- A swap that failed: `SwapV2` makes no transaction, or the node does not accept it.
abbrev pub Fails : Chain → (Transaction → Bool) → ℕ → Trader → Float64 → List UniswapV2Pair → Type 0
Fails c accepts weth_address t amount ps =
    (swap_v2 c weth_address t amount ps ≡ ok none)
    ⊎ ((tx : Transaction) × (swap_v2 c weth_address t amount ps ≡ ok (some tx))
        × (accepts tx ≡ false))

module _ {C : Type 0} (cache : Cache C) (fuel : ℕ) (c : Chain) (accepts : Transaction → Bool)
    (weth_address : ℕ) (t : Trader) (now later : ℕ) (pairs : List (ℕ × UniswapV2Pair))
    (path : List ℕ) (tried tried' : C) (sent : Option Transaction) where
  -- The courses with what they leave: what `tryTrade` found, if the path had an entry; the mark of a
  -- minute, if a pair is missing, no amount pays or the swap was sent; and after a swap that
  -- failed, the mark and over it the count 1 for ten minutes.
  pub data IsLeft : Type 0 where
    untouched :
        (n : ℕ)
        → cache.get now (print_addresses path) tried ≡ some n
        → tried' ≡ tried
        → sent ≡ none
        → IsLeft
    missing :
        (a : ℕ)
        → cache.get now (print_addresses path) tried ≡ none
        → In a path
        → lookup a pairs ≡ none
        → tried' ≡ cache.set now (print_addresses path) 0 minute tried
        → sent ≡ none
        → IsLeft
    poor :
        (ps : List UniswapV2Pair)
        → cache.get now (print_addresses path) tried ≡ none
        → Stored pairs path ps
        → find_amount fuel weth_address t pairs path ps ≡ ok stop
        → tried' ≡ cache.set now (print_addresses path) 0 minute tried
        → sent ≡ none
        → IsLeft
    traded :
        (ps : List UniswapV2Pair) (amount out : Float64) (tx : Transaction)
        → cache.get now (print_addresses path) tried ≡ none
        → Stored pairs path ps
        → find_amount fuel weth_address t pairs path ps ≡ ok (trade amount out)
        → swap_v2 c weth_address t amount ps ≡ ok (some tx)
        → accepts tx ≡ true
        → tried' ≡ cache.set now (print_addresses path) 0 minute tried
        → sent ≡ some tx
        → IsLeft
    failed :
        (ps : List UniswapV2Pair) (amount out : Float64)
        → cache.get now (print_addresses path) tried ≡ none
        → Stored pairs path ps
        → find_amount fuel weth_address t pairs path ps ≡ ok (trade amount out)
        → Fails c accepts weth_address t amount ps
        → tried'
          ≡ cache.set later
              (print_addresses path)
              1
              (10 * minute)
              (cache.set now (print_addresses path) 0 minute tried)
        → sent ≡ none
        → IsLeft

send_swap-eq-none :
    (c : Chain) (accepts : Transaction → Bool) (weth_address : ℕ) (t : Trader) (amount : Float64)
    (ps : List UniswapV2Pair)
    → send_swap c accepts weth_address t amount ps ≡ ok none
    → Fails c accepts weth_address t amount ps
unfolding send_swap
send_swap-eq-none c accepts weth_address t amount ps h =
    let (r, run, e) = >>=-eq-ok (swap_v2 c weth_address t amount ps) _ h in
    elim (Option-cases r) [
      | inl refused ↦ inl (run ∙ ap ok refused)
      | inr (tx, made) ↦ inr (tx, run ∙ ap ok made, not_accepted tx (rw made at e))
    ]
  where
    some_tx : (tx : Transaction) → ok (some tx) ≡ ok none → ⊥
    some_tx tx e = cc

    not_accepted :
        (tx : Transaction)
        → ok (if accepts tx then some tx else none) ≡ ok none
        → accepts tx ≡ false
    not_accepted tx e = elim (Bool-cases (accepts tx)) [
      | inl taken ↦ absurd (some_tx tx (rw taken at e))
      | inr refused ↦ refused
    ]

module _ {C : Type 0} (cache : Cache C) (fuel : ℕ) (c : Chain) (accepts : Transaction → Bool)
    (weth_address : ℕ) (t : Trader) (now later : ℕ) (pairs : List (ℕ × UniswapV2Pair))
    (path : List ℕ) (tried tried' : C) (sent : Option Transaction) where
  Course-IsLeft :
      cache.get now (print_addresses path) tried ≡ none
      → Course cache fuel c accepts weth_address t now later pairs path tried tried' sent
      → IsLeft cache fuel c accepts weth_address t now later pairs path tried tried' sent
  Course-IsLeft fresh (Courses.Course.missing p k s) =
      let (a, i, gone) = path_pairs-missing pairs path p in IsLeft.missing a fresh i gone k s
  Course-IsLeft fresh (Courses.Course.stopped ps p f k s) =
      IsLeft.poor ps fresh (path_pairs-Stored pairs path ps p) f k s
  Course-IsLeft fresh (Courses.Course.swapped ps amount out p f s k) =
      let stored = path_pairs-Stored pairs path ps p in
      elim (Option-cases sent) [
        | inl nothing ↦
            IsLeft.failed ps amount out fresh stored f
              (send_swap-eq-none c accepts weth_address t amount ps (s ∙ ap ok nothing))
              (k ∙ left nothing) nothing
        | inr (tx, one) ↦
            let (made, taken) =
              send_swap-eq-some c accepts weth_address t amount ps tx (s ∙ ap ok one) in
            IsLeft.traded ps amount out tx fresh stored f made taken (k ∙ left one) one
      ]
    where
      left :
          {o : Option Transaction}
          → sent ≡ o
          → after_swap cache later
              (print_addresses path)
              none
              sent
              (marked cache fuel c accepts weth_address t now later pairs path tried)
            ≡ after_swap cache later
                (print_addresses path)
                none
                o
                (marked cache fuel c accepts weth_address t now later pairs path tried)
      left e =
          ap
            (λ o.
              after_swap cache later (print_addresses path) none o
                (marked cache fuel c accepts weth_address t now later pairs path tried))
            e

  -- `tryTrade` of a path that is not empty either finds the path in the cache, leaves the cache alone
  -- and sends nothing; or it marks the path for a minute, and then an address of it has no pair, or
  -- no amount pays, or the swap is sent; or the swap fails, since `SwapV2` makes no transaction or
  -- the node does not accept it, and exactly then the count 1 is also written for ten minutes:
  -- whatever the cache held, no other count and no longer time.
  pub try_trade-IsLeft :
      path ≢ []
      → try_trade cache fuel c accepts weth_address t now later pairs path tried
        ≡ ok (some (tried', sent))
      → IsLeft cache fuel c accepts weth_address t now later pairs path tried tried' sent
  try_trade-IsLeft full h =
      let k : try_path cache fuel c accepts weth_address t now later pairs path
            (cache.get now (print_addresses path) tried) tried
          ≡ ok (some (tried', sent)) =
        sym (try_trade-try_path cache fuel c accepts weth_address t now later pairs path tried full)
        ∙ h in
      elim (Option-cases (cache.get now (print_addresses path) tried)) [
        | inl fresh ↦ Course-IsLeft fresh (
            try_path-Course cache fuel c accepts weth_address t now later pairs path tried tried'
              sent (rw fresh at k))
        | inr (n, lately) ↦
            let e : ◌≡◌ {A = Outcome (Option (C × Option Transaction))} (ok (some (tried, none)))
                (ok (some (tried', sent))) =
              sym (try_path-paused cache fuel c accepts weth_address t now later pairs path tried n)
              ∙ (rw lately at k) in
            IsLeft.untouched n lately (ground arith) (ground arith)
      ]
