-- ===== src/Protocol/Calls.antt =====
-- monitor/protocol/uniswapv2.go: the view calls that ask for the tokens and the reserves of a pair, and
-- what their results, by the calls' ids, make of the pairs. The methods' ids are a parameter.
use evm_arbitrage.Base.{
  ℕ, zero, suc, ◌+◌, ◌*◌, ◌%◌, ◌^◌, Bool, true, false, not, Option, none, some, List, [], ◌∷◌, ◌++◌,
  length, take, drop, ◌==◌, if◌then◌else◌,
}
use evm_arbitrage.Base.Bytes.{Bytes, codes, beq_bytes, nat_eq}
use evm_arbitrage.Base.GoMap.{lookup, insert}
use evm_arbitrage.Base.Int.{pos}
use evm_arbitrage.Base.Text.{split}
use evm_arbitrage.Protocol.{UniswapV2Pair, AddressText}
use evm_arbitrage.Protocol.File.{zero_pair}
pub mod Results
pub mod Tests

pub record ViewCall : Type 0 where
  pub id : Bytes
  pub to : ℕ
  pub call_data : Bytes

-- `abi.Multicall2Result`
pub record CallResult : Type 0 where
  pub success : Bool
  pub return_data : Bytes

-- The ids of the methods token0, token1 and getReserves.
pub record MethodIds : Type 0 where
  pub token0 : Bytes
  pub token1 : Bytes
  pub get_reserves : Bytes

-- The number that bytes spell, the highest first, behind n.
unfoldable pub bytes_value : ℕ → Bytes → ℕ
bytes_value n [] = n
bytes_value n (b ∷ bs) = bytes_value (n * 256 + b) bs

-- `BytesToAddress`: the last 20 bytes.
abbrev pub bytes_to_address : Bytes → ℕ
bytes_to_address bs = bytes_value 0 bs % 2 ^ 160

-- What a result makes of its pair; `kind` is the last word of the id.
unfoldable pub fill : UniswapV2Pair → Bytes → CallResult → UniswapV2Pair
unfolding bytes_value
fill pair kind result =
    if not result.success
    then record pair { error = true }
    else if beq_bytes kind (codes "token0")
    then record pair { token0 = bytes_to_address result.return_data }
    else if beq_bytes kind (codes "token1")
    then record pair { token1 = bytes_to_address result.return_data }
    else if beq_bytes kind (codes "reserve")
    then if length result.return_data == 96
      then record pair {
        reserve0 = some (pos (bytes_value 0 (take 32 result.return_data)));
        reserve1 = some (pos (bytes_value 0 (take 32 (drop 32 result.return_data))));
      }
      else record pair { error = true }
    else pair

abbrev pub three : List Bytes → Option (Bytes × Bytes × Bytes)
three (a ∷ b ∷ c ∷ []) = some (a, b, c)
three _ = none

-- `pairs[addr]`, made when there is none.
abbrev pub pair_or_new : ℕ → Option UniswapV2Pair → UniswapV2Pair
pair_or_new addr (some pair) = pair
pair_or_new addr none = record zero_pair { address = addr }

module _ (t : AddressText) where
  unfoldable pub call_id : Bytes → UniswapV2Pair → Bytes
  call_id kind pair = codes "UniswapV2" ++ b'-' ∷ (t.to_hex pair.address ++ b'-' ∷ kind)

  -- `NewUniswapV2PairInfoCalls` and `NewUniswapV2PairStateCalls`.
  unfoldable pub info_calls : MethodIds → UniswapV2Pair → List ViewCall
  unfolding call_id
  info_calls ids pair =
      record { id = call_id (codes "token0") pair; to = pair.address; call_data = ids.token0 }
      ∷ record { id = call_id (codes "token1") pair; to = pair.address; call_data = ids.token1 }
      ∷ []

  unfoldable pub state_calls : MethodIds → UniswapV2Pair → List ViewCall
  unfolding call_id
  state_calls ids pair =
      record {
        id = call_id (codes "reserve") pair;
        to = pair.address;
        call_data = ids.get_reserves;
      }
      ∷ []

  -- One round of the loop of `UniswapV2PairCallResult`.
  unfoldable pub apply_result :
      Bytes × CallResult → List (ℕ × UniswapV2Pair) → List (ℕ × UniswapV2Pair)
  unfolding fill
  apply_result (id, result) pairs = elim (three (split b'-' id)) [
    | none ↦ pairs
    | some (name, text, kind) ↦
        if beq_bytes name (codes "UniswapV2")
        then (let addr = t.hex_to_address text in
            insert addr (fill (pair_or_new addr (lookup addr pairs)) kind result) pairs)
        else pairs
  ]

  -- `UniswapV2PairCallResult`, over the results in the order of the range.
  unfoldable pub call_results :
      List (Bytes × CallResult) → List (ℕ × UniswapV2Pair) → List (ℕ × UniswapV2Pair)
  unfolding apply_result
  call_results [] pairs = pairs
  call_results (r ∷ rs) pairs = call_results rs (apply_result r pairs)
