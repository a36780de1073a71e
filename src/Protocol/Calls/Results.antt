-- ===== src/Protocol/Calls/Results.antt =====
-- A result under the id of one of a pair's calls reaches this pair and no other.
use evm_arbitrage.Base.{
  ℕ, ◌^◌, ◌<◌, ◌≡◌, refl, ap, ◌∙◌, Bool, true, false, some, List, [], ◌∷◌, ◌++◌, arith, ◌==◌,
  if◌then◌else◌,
}
use evm_arbitrage.Base.Bytes.{Bytes, codes, nat_eq}
use evm_arbitrage.Base.GoMap.{lookup, insert, lookup-insert_self, lookup-insert}
use evm_arbitrage.Base.Text.{split}
use evm_arbitrage.Base.Text.Split.{Lacks, split-part, split_last}
use evm_arbitrage.Protocol.{UniswapV2Pair, AddressText}
use evm_arbitrage.Protocol.File.RoundTrip.{IsAddressText}
use evm_arbitrage.Protocol.Calls.{
  CallResult, bytes_to_address, fill, pair_or_new, call_id, apply_result, call_results,
}

-- The text of an address has no `-`.
pub record IsDashless (t : AddressText) : Type 0 where
  pub no_dash : (a : ℕ) → Lacks b'-' (t.to_hex a)

abbrev pub success_of : Bytes → CallResult
success_of body = record { success = true; return_data = body }

name-Lacks : Lacks b'-' (codes "UniswapV2")
name-Lacks = ground arith

module _ (t : AddressText) (law : IsAddressText t) (dashless : IsDashless t) where
  split-call_id :
      (kind : Bytes) (pair : UniswapV2Pair)
      → Lacks b'-' kind
      → split b'-' (call_id t kind pair) ≡ codes "UniswapV2" ∷ t.to_hex pair.address ∷ kind ∷ []
  unfolding call_id
  split-call_id kind pair h =
      split-part b'-' (codes "UniswapV2") (t.to_hex pair.address ++ b'-' ∷ kind) name-Lacks
      ∙ ap (λ r. codes "UniswapV2" ∷ r)
          (split-part b'-' (t.to_hex pair.address) kind (dashless.no_dash pair.address)
            ∙ ap (λ r. t.to_hex pair.address ∷ r) (split_last b'-' kind h))

  apply_result-call_id :
      (kind : Bytes) (pair : UniswapV2Pair) (result : CallResult) (pairs : List (ℕ × UniswapV2Pair))
      → Lacks b'-' kind
      → pair.address < 2 ^ 160
      → apply_result t (call_id t kind pair, result) pairs
        ≡ insert pair.address
            (fill (pair_or_new pair.address (lookup pair.address pairs)) kind result)
            pairs
  unfolding apply_result
  apply_result-call_id kind pair result pairs h small =
      rw (split-call_id kind pair h, law.read_back pair.address small, apply_result) refl

  -- Two results of one pair, one after the other.
  two_results :
      (k l : Bytes) (pair : UniswapV2Pair) (r s : CallResult) (pairs : List (ℕ × UniswapV2Pair))
      (b : ℕ)
      → Lacks b'-' k
      → Lacks b'-' l
      → pair.address < 2 ^ 160
      → lookup pair.address pairs ≡ some pair
      → lookup b (call_results t ((call_id t k pair, r) ∷ (call_id t l pair, s) ∷ []) pairs)
        ≡ (if pair.address == b then some (fill (fill pair k r) l s) else lookup b pairs)
  unfolding call_results
  two_results k l pair r s pairs b hk hl small found =
      let first = insert pair.address (fill pair k r) pairs in
      let one : apply_result t (call_id t k pair, r) pairs ≡ first =
        apply_result-call_id k pair r pairs hk small
        ∙ ap (λ o. insert pair.address (fill (pair_or_new pair.address o) k r) pairs) found in
      let two : apply_result t (call_id t l pair, s) first
          ≡ insert pair.address (fill (fill pair k r) l s) first =
        apply_result-call_id l pair s first hl small
        ∙ ap (λ o. insert pair.address (fill (pair_or_new pair.address o) l s) first)
            (lookup-insert_self pair.address (fill pair k r) pairs) in
      ap (λ m. lookup b (apply_result t (call_id t l pair, s) m)) one
      ∙ ap (lookup b) two
      ∙ lookup-insert pair.address b (fill (fill pair k r) l s) first
      ∙ ground (arith, lookup-insert pair.address b (fill pair k r) pairs)

  -- When the text of an address reads back and has no comma, `@`, line end or `-`: the results of
  -- the two calls for the tokens of a pair that is known under its address, both successful and in
  -- either order, give the pair the two addresses that they hold and change no other pair.
  pub call_results-tokens :
      (pair : UniswapV2Pair) (pairs : List (ℕ × UniswapV2Pair)) (body0 body1 : Bytes)
      (swapped : Bool) (b : ℕ)
      → pair.address < 2 ^ 160
      → lookup pair.address pairs ≡ some pair
      → lookup b (
          call_results t
            (if swapped
              then (call_id t (codes "token1") pair, success_of body1)
                ∷ (call_id t (codes "token0") pair, success_of body0)
                ∷ []
              else (call_id t (codes "token0") pair, success_of body0)
                ∷ (call_id t (codes "token1") pair, success_of body1)
                ∷ [])
            pairs)
        ≡ (if pair.address == b
            then some
                (record pair { token0 = bytes_to_address body0; token1 = bytes_to_address body1 })
            else lookup b pairs)
  unfolding fill
  call_results-tokens pair pairs body0 body1 true b small found =
      two_results (codes "token1") (codes "token0") pair (success_of body1) (success_of body0) pairs
        b (ground arith) (ground arith) small found
  call_results-tokens pair pairs body0 body1 false b small found =
      two_results (codes "token0") (codes "token1") pair (success_of body0) (success_of body1) pairs
        b (ground arith) (ground arith) small found
