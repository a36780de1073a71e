-- ===== src/Arbitrage/Trade.antt =====
-- monitor/arbitrage/arbitrage.go: `tryTrade`, which looks for an amount that pays and has it traded. The
-- cache of paths tried lately, of the package go-cache, is a parameter.
use evm_arbitrage.Base.{
  ℕ, zero, suc, ◌+◌, ◌-◌, ◌*◌, ◌≤◌, ◌<◌, ◌≡◌, ◌≢◌, Bool, true, false, Option, none, some, List, [],
  ◌∷◌, ◌++◌, length, ◌==◌, if◌then◌else◌,
}
use evm_arbitrage.Base.Bytes.{Bytes, big_endian, nat_eq}
use evm_arbitrage.Base.Fallible
use evm_arbitrage.Base.GoMap.{lookup}
use evm_arbitrage.Base.Int.{ℤ, pos}
use evm_arbitrage.Base.Outcome.{Outcome, ok, ◌>>=◌, need}
use evm_arbitrage.Base.Slice.{at}
use evm_arbitrage.Float64.{Float64, plus, add, mul, le, lt, of_ℤ, of_ratio}
use evm_arbitrage.Protocol.{UniswapV2Pair}
use evm_arbitrage.Protocol.Amounts.{get_amounts_out}
use evm_arbitrage.Trader.{Trader, Transaction, Chain, estimate_fee, swap_v2}
pub mod Halting
pub mod FirstAmount
pub mod Returns
pub mod Priced
pub mod Left
pub mod Pause
pub mod Stored
pub mod Courses
pub mod Sound
pub mod Path
pub mod Reached
pub mod Tests

-- A minute in nanoseconds.
abbrev pub minute : ℕ
minute = 60000000000

-- A go-cache: `get t k c` is `Get` at the time t, and `set t k n d c` is `Set` at the time t, which
-- keeps n for the duration d.
pub record Cache (C : Type 0) : Type 0 where
  pub get : ℕ → Bytes → C → Option ℕ
  pub set : ℕ → Bytes → ℕ → ℕ → C → C

-- What go-cache documents: an item that was set is found until it expires, and setting it leaves the
-- other keys alone.
pub record IsCache {C : Type 0} (k : Cache C) : Type 0 where
  pub get-set :
      (t u n d : ℕ) (key : Bytes) (c : C)
      → t ≤ u
      → u < t + d
      → k.get u key (k.set t key n d c) ≡ some n
  pub get-set_ne :
      (t u n d : ℕ) (key other : Bytes) (c : C)
      → key ≢ other
      → k.get u other (k.set t key n d c) ≡ k.get u other c

-- `AddressList.String`: the bytes of the addresses in a row.
unfoldable pub print_addresses : List ℕ → Bytes
unfolding big_endian
print_addresses [] = []
print_addresses (a ∷ path) = big_endian 20 a ++ print_addresses path

-- The pairs of the path from its end to its start, none if one is missing.
unfoldable pub path_pairs : List (ℕ × UniswapV2Pair) → List ℕ → Option (List UniswapV2Pair)
unfolding lookup
path_pairs pairs [] = some []
path_pairs pairs (a ∷ path) =
    Fallible.◌>>=◌ (path_pairs pairs path)
      λ ps. Fallible.◌>>=◌ (lookup a pairs) λ p. some (ps ++ p ∷ [])

-- `amtIn *= 0.1` of a reserve; a nil reserve panics.
abbrev pub tenth : Option ℤ → Outcome (Option Float64)
tenth reserve = do r ← need reserve; ok (some (mul (of_ℤ r) (of_ratio 1 10)))

-- A tenth of what the first pair holds of the token, none if it does not trade it.
unfoldable pub first_amount : ℕ → UniswapV2Pair → Outcome (Option Float64)
first_amount weth_address pair0 =
    if pair0.token0 == weth_address
    then tenth pair0.reserve0
    else if pair0.token1 == weth_address
    then tenth pair0.reserve1
    else ok none

-- How the search for an amount ends: without one, or with an amount and what it pays. `no_fuel` is the
-- model's own.
pub data Search : Type 0 where
  no_fuel : Search
  stop : Search
  trade : Float64 → Float64 → Search

-- The loop: an amount that pays no more than itself and the least gain is cut by a tenth, until it
-- is below the least gain.
unfoldable pub search_amount : ℕ → ℕ → List UniswapV2Pair → Float64 → Float64 → Outcome Search
search_amount zero weth_address pair_path min_recieve amount = ok no_fuel
search_amount (suc f) weth_address pair_path min_recieve amount = do
  out ← get_amounts_out weth_address amount pair_path
  elim (le out (add amount min_recieve)) [
    | true ↦ elim (lt amount min_recieve) [
      | true ↦ ok stop
      | false ↦ search_amount f weth_address pair_path min_recieve (mul amount (of_ratio 9 10))
    ]
    | false ↦ ok (trade amount out)
  ]

-- `EstimateFee(len(pairPath)) * 1.5`
unfoldable pub min_recieve_of : Trader → List UniswapV2Pair → Float64
min_recieve_of t pair_path = mul (estimate_fee t (length pair_path)) (of_ratio 3 2)

-- The search, from the amount that the pair at the end of the path gives.
unfoldable pub find_amount :
    ℕ → ℕ → Trader → List (ℕ × UniswapV2Pair) → List ℕ → List UniswapV2Pair → Outcome Search
unfolding first_amount search_amount min_recieve_of
find_amount fuel weth_address t pairs path pair_path = do
  last ← at path (pos (length path - 1))
  pair0 ← need (lookup last pairs)
  amount ← first_amount weth_address pair0
  elim amount [
    | none ↦ ok stop
    | some a ↦ search_amount fuel weth_address pair_path (min_recieve_of t pair_path) a
  ]

-- The fail count after a failed swap, with the entry that was read before.
abbrev pub fail_count : Option ℕ → ℕ
fail_count none = 1
fail_count (some n) = n + 1

-- `SwapV2` with the answer of the node to the transaction.
unfoldable pub send_swap :
    Chain
    → (Transaction → Bool)
    → ℕ
    → Trader
    → Float64
    → List UniswapV2Pair
    → Outcome (Option Transaction)
unfolding swap_v2
send_swap c accepts weth_address t amount pair_path = do
  r ← swap_v2 c weth_address t amount pair_path
  ok (elim r [ none ↦ none | some tx ↦ if accepts tx then some tx else none ])

module _ {C : Type 0} (cache : Cache C) where
  -- The cache after the swap; `later` is the time at which it is over.
  abbrev pub after_swap : ℕ → Bytes → Option ℕ → Option Transaction → C → C
  after_swap later key dup_count none tried =
      cache.set later key (fail_count dup_count) (minute * (10 * fail_count dup_count)) tried
  after_swap later key dup_count (some tx) tried = tried

  -- What the search led to: the cache and the transaction that was sent; none out of fuel.
  unfoldable pub end_trade :
      Chain
      → (Transaction → Bool)
      → ℕ
      → Trader
      → ℕ
      → Bytes
      → Option ℕ
      → List UniswapV2Pair
      → C
      → Search
      → Outcome (Option (C × Option Transaction))
  unfolding send_swap
  end_trade c accepts weth_address t later key dup_count pair_path tried no_fuel = ok none
  end_trade c accepts weth_address t later key dup_count pair_path tried stop =
      ok (some (tried, none))
  end_trade c accepts weth_address t later key dup_count pair_path tried (trade amount out) = do
    sent ← send_swap c accepts weth_address t amount pair_path
    ok (some (after_swap later key dup_count sent tried, sent))

  -- `tryTrade` for a path that is not empty, at the time `now`.
  unfoldable pub try_path :
      ℕ
      → Chain
      → (Transaction → Bool)
      → ℕ
      → Trader
      → ℕ
      → ℕ
      → List (ℕ × UniswapV2Pair)
      → List ℕ
      → Option ℕ
      → C
      → Outcome (Option (C × Option Transaction))
  unfolding print_addresses path_pairs find_amount end_trade
  try_path fuel c accepts weth_address t now later pairs path (some n) tried =
      ok (some (tried, none))
  try_path fuel c accepts weth_address t now later pairs path none tried =
      let key = print_addresses path in
      let tried' = cache.set now key 0 minute tried in
      elim (path_pairs pairs path) [
        | none ↦ ok (some (tried', none))
        | some pair_path ↦
            find_amount fuel weth_address t pairs path pair_path
            >>= end_trade c accepts weth_address t later key none pair_path tried'
      ]

  unfoldable pub try_trade :
      ℕ
      → Chain
      → (Transaction → Bool)
      → ℕ
      → Trader
      → ℕ
      → ℕ
      → List (ℕ × UniswapV2Pair)
      → List ℕ
      → C
      → Outcome (Option (C × Option Transaction))
  unfolding try_path
  try_trade fuel c accepts weth_address t now later pairs [] tried = ok (some (tried, none))
  try_trade fuel c accepts weth_address t now later pairs (a ∷ path) tried =
      try_path fuel c accepts weth_address t now later pairs (a ∷ path)
        (cache.get now (print_addresses (a ∷ path)) tried) tried
