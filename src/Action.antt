-- ===== src/Action.antt =====
-- monitor/action/protocol_data.go: from a batch of logs to the updates of the store. The order of each
-- range is an argument. The answer of the chain's node to the view calls is a parameter, none for
-- an error, and so are the ABI and the time.
use evm_arbitrage.Base.{
  ℕ, Bool, true, false, Option, none, some, List, [], ◌∷◌, ◌++◌, map, length, ◌==◌, if◌then◌else◌,
}
use evm_arbitrage.Base.Bytes.{Bytes, nat_eq}
use evm_arbitrage.Base.GoMap.{lookup, insert}
use evm_arbitrage.Base.Int.{ℤ}
use evm_arbitrage.Base.Outcome.{Outcome, ok, ◌>>=◌}
use evm_arbitrage.Float64.{Float64}
use evm_arbitrage.PairStore.{PairStore, pair_update}
use evm_arbitrage.Protocol.{UniswapV2Pair, AddressText}
use evm_arbitrage.Protocol.Calls.{ViewCall, CallResult, MethodIds, info_calls, call_results}
use evm_arbitrage.Protocol.Logs.{Log, PairAbi, filter_pairs, filter_fees}
use evm_arbitrage.Storage.{load, store}
pub mod Kept
pub mod Learned
pub mod Addressed
pub mod Tests

abbrev pub Pairs : Type 0
Pairs = List (ℕ × UniswapV2Pair)

-- What the program takes from outside, and the orders of its ranges.
pub record Surroundings : Type 0 where
  pub text : AddressText
  pub methods : MethodIds
  pub abi : PairAbi
  pub cube : Float64 → Float64
  pub now : Log → ℤ
  pub view : List ViewCall → Option (List (Bytes × CallResult))
  pub pair_order : Pairs → Pairs
  pub fee_order : List (ℕ × ℤ) → List (ℕ × ℤ)
  pub store_order : Pairs → Pairs

-- `pair.Token0 = prePair.Token0` and the three lines after it.
abbrev pub take_over : UniswapV2Pair → UniswapV2Pair → UniswapV2Pair
take_over pre pair = record pair {
  token0 = pre.token0;
  token1 = pre.token1;
  fee = pre.fee;
  error = pre.error;
}

-- The loop over the pairs: a stored pair hands on what the logs do not tell, another is asked for.
unfoldable pub learn :
    AddressText → MethodIds → Pairs → Option PairStore → Option PairStore × Pairs × List ViewCall
learn t ids [] s = (s, [], [])
learn t ids ((addr, pair) ∷ rest) s =
    let found = load s pair.address in
    let more = learn t ids rest found.0 in
    elim found.1 [
      | none ↦ (more.0, (addr, pair) ∷ more.1, info_calls t ids pair ++ more.2)
      | some pre ↦ (more.0, (addr, take_over pre pair) ∷ more.1, more.2)
    ]

-- The view calls, if there are any.
unfoldable pub ask :
    AddressText
    → (List ViewCall → Option (List (Bytes × CallResult)))
    → List ViewCall
    → Pairs
    → Option Pairs
ask t view [] pairs = some pairs
ask t view (c ∷ cs) pairs = elim (view (c ∷ cs)) [
  | none ↦ none
  | some results ↦ some (call_results t results pairs)
]

-- The loop over the fees.
unfoldable pub set_fees : List (ℕ × ℤ) → Pairs → Pairs
set_fees [] pairs = pairs
set_fees ((addr, fee) ∷ fees) pairs = elim (lookup addr pairs) [
  | none ↦ set_fees fees pairs
  | some pair ↦ set_fees fees (insert addr (record pair { fee = fee }) pairs)
]

abbrev pub keys_of : Pairs → List ℕ
keys_of ps = map (λ e. e.0) ps

abbrev pub datas_of : Pairs → List UniswapV2Pair
datas_of ps = map (λ e. e.1) ps

module _ (w : Surroundings) where
  -- The fees of the batch on the pairs, or an error.
  unfoldable pub with_fees : List Log → Option Pairs → Outcome (Option Pairs)
  unfolding set_fees
  with_fees logs none = ok none
  with_fees logs (some pairs) = do
    fees ← filter_fees w.abi w.cube logs
    ok (elim fees [ none ↦ none | some f ↦ some (set_fees (w.fee_order f) pairs) ])

  -- The handler up to the call of `Store`: the store, whose map may have been made, and the pairs.
  unfoldable pub prepare : List Log → Option PairStore → Outcome (Option PairStore × Option Pairs)
  unfolding learn ask with_fees
  prepare logs s = elim (filter_pairs w.abi w.now logs []) [
    | none ↦ ok (s, none)
    | some pairs ↦
        let learned = learn w.text w.methods (w.pair_order pairs) s in
        do updates ← with_fees logs (ask w.text w.view learned.2 learned.1); ok (learned.0, updates)
  ]

  -- The loop that collects keys and data, and `Store`: the store after, and whether there was no error.
  unfoldable pub save : Option PairStore × Option Pairs → Outcome (Option PairStore × Bool)
  save (s, none) = ok (s, false)
  save (s, some pairs) = do
    let ordered = w.store_order pairs
    s' ← store pair_update s (keys_of ordered) (datas_of ordered)
    ok (s', true)

  -- `doNewLogHandlerUniswapV2` and `doNewLogHandler`.
  unfoldable pub handle_uniswap : List Log → Option PairStore → Outcome (Option PairStore × Bool)
  unfolding prepare save
  handle_uniswap logs s = do r ← prepare logs s; save r

  unfoldable pub do_new_log_handler :
      List Log → Option PairStore → Outcome (Option PairStore × Bool)
  unfolding handle_uniswap
  do_new_log_handler logs s = if length logs == 0 then ok (s, true) else handle_uniswap logs s
