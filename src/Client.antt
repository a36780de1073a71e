-- ===== src/Client.antt =====
-- monitor/client/ethclient.go: the clients that are kept, one for a node; the calls of a batch through
-- the multicall contract; and the arguments of an estimate of gas. The connection to a node and the
-- packing of the ABI are parameters; `none` is a returned error.
use evm_arbitrage.Base.{
  ℕ, zero, suc, ◌+◌, Bool, true, false, Option, none, some, List, [], ◌∷◌, ◌++◌, length, ◌==◌,
  if◌then◌else◌,
}
use evm_arbitrage.Base.Bytes.{Bytes, codes, bytes_eq}
use evm_arbitrage.Base.Fallible
use evm_arbitrage.Base.GoMap.{lookup, insert}
use evm_arbitrage.Base.Int.{ℤ, pos}
use evm_arbitrage.Base.Outcome.{Outcome, ok, panic, ◌>>=◌}
use evm_arbitrage.Base.Slice.{at}
use evm_arbitrage.Protocol.Calls.{ViewCall, CallResult}
pub mod Kept
pub mod Replies
pub mod Arguments
pub mod Tests

-- A client: a connection, of a type of the package ethclient, and the address of the contract.
pub record EthClient (Conn : Type 0) : Type 0 where
  pub client : Conn
  pub multicall_address : ℕ

-- `GetETHClient`, with what dialling the node would give: the client and `ETHClientMap` after.
unfoldable pub get_eth_client :
    {Conn : Type 0}
    → Option Conn
    → Bytes
    → ℕ
    → List (Bytes × EthClient Conn)
    → Option (EthClient Conn) × List (Bytes × EthClient Conn)
unfolding lookup insert
get_eth_client {Conn} dialled node multicall_address clients = elim (lookup node clients) [
  | some cli ↦ (some cli, clients)
  | none ↦ elim dialled [
    | none ↦ (none, clients)
    | some conn ↦
        let cli : EthClient Conn = record {
          client = conn;
          multicall_address = multicall_address;
        } in
        (some cli, insert node cli clients)
  ]
]

-- `NewViewMulticall2Calls`: the targets with their data.
unfoldable pub new_view_multicall2_calls : List ViewCall → List (ℕ × Bytes)
new_view_multicall2_calls [] = []
new_view_multicall2_calls (call ∷ calls) =
    (call.to, call.call_data) ∷ new_view_multicall2_calls calls

-- The ABI of tryAggregate and the node: the method's id; the packed input; the answer of a contract to
-- data; and the values in the answer, none for a value of another type than the results.
pub record Multicall : Type 0 where
  pub id : Bytes
  pub pack : List (ℕ × Bytes) → Option Bytes
  pub call_contract : ℕ → Bytes → Option Bytes
  pub unpack : Bytes → Option (List (Option (List CallResult)))

-- `len(res) <= 0`, and `res[0]` of the type of the results.
abbrev pub first_value : List (Option (List CallResult)) → Option (List CallResult)
first_value [] = none
first_value (value ∷ values) = value

-- The results of the calls, as many as the contract gave.
unfoldable pub ask_contract : Multicall → ℕ → List ViewCall → Option (List CallResult)
unfolding new_view_multicall2_calls
ask_contract m multicall_address calls =
    Fallible.◌>>=◌ (m.pack (new_view_multicall2_calls calls)) λ input.
      Fallible.◌>>=◌ (m.call_contract multicall_address (m.id ++ input))
        λ body. Fallible.◌>>=◌ (m.unpack body) λ res. first_value res

-- The loop: `ret[calls[i].ID] = one`.
unfoldable pub name_results :
    List ViewCall
    → ℕ
    → List CallResult
    → List (Bytes × CallResult)
    → Outcome (List (Bytes × CallResult))
unfolding at insert
name_results calls i [] ret = ok ret
name_results calls i (one ∷ ones) ret = do
  call ← at calls (pos i)
  name_results calls (i + 1) ones (insert call.id one ret)

-- The results by the ids of the calls.
unfoldable pub name_all :
    List ViewCall → Option (List CallResult) → Outcome (Option (List (Bytes × CallResult)))
unfolding name_results
name_all calls none = ok none
name_all calls (some results) = elim (length results == length calls) [
  | false ↦ ok none
  | true ↦ do ret ← name_results calls 0 results []; ok (some ret)
]

-- `MultiViewCall`
unfoldable pub multi_view_call :
    {Conn : Type 0}
    → Multicall
    → EthClient Conn
    → List ViewCall
    → Outcome (Option (List (Bytes × CallResult)))
unfolding ask_contract name_all
multi_view_call m e [] = ok (some [])
multi_view_call m e (call ∷ calls) =
    name_all (call ∷ calls) (ask_contract m e.multicall_address (call ∷ calls))

-- `ethereum.CallMsg`, as far as it is read; none is a nil pointer.
pub record CallMsg : Type 0 where
  pub from : ℕ
  pub to : Option ℕ
  pub msg_data : Bytes
  pub value : Option ℤ
  pub gas : ℕ
  pub gas_price : Option ℤ

-- A value among the arguments.
pub data Argument : Type 0 where
  address : Option ℕ → Argument
  bytes : Bytes → Argument
  big : ℤ → Argument
  quantity : ℕ → Argument

abbrev pub data_argument : Bytes → List (Bytes × Argument)
data_argument [] = []
data_argument (b ∷ bs) = (codes "data", Argument.bytes (b ∷ bs)) ∷ []

abbrev pub gas_argument : ℕ → List (Bytes × Argument)
gas_argument zero = []
gas_argument (suc n) = (codes "gas", Argument.quantity (suc n)) ∷ []

abbrev pub big_argument : Bytes → Option ℤ → List (Bytes × Argument)
big_argument name none = []
big_argument name (some n) = (name, Argument.big n) ∷ []

-- `toCallArg`
unfoldable pub to_call_arg : CallMsg → List (Bytes × Argument)
to_call_arg msg =
    (codes "from", Argument.address (some msg.from))
      ∷ (codes "to", Argument.address msg.to)
      ∷ data_argument msg.msg_data
    ++ big_argument (codes "value") msg.value
    ++ gas_argument msg.gas
    ++ big_argument (codes "gasPrice") msg.gas_price

-- `EstimateGasLast`: the answer of the node to the method, its arguments and the block.
unfoldable pub estimate_gas_last :
    (Bytes → List (Bytes × Argument) → Bytes → Option ℕ) → CallMsg → Option ℕ
unfolding to_call_arg
estimate_gas_last call_context msg =
    call_context (codes "eth_estimateGas") (to_call_arg msg) (codes "latest")
