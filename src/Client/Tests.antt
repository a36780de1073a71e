-- ===== src/Client/Tests.antt =====
-- A batch of two calls through a contract that answers, and clients of two nodes.
use evm_arbitrage.Base.{ℕ, ◌≡◌, refl, true, false, none, some, List, [], ◌∷◌}
use evm_arbitrage.Base.Bytes.{codes, bytes_eq}
use evm_arbitrage.Base.GoMap.{lookup, insert}
use evm_arbitrage.Base.Outcome.{ok}
use evm_arbitrage.Base.Slice.{at}
use evm_arbitrage.Protocol.Calls.{ViewCall, CallResult}
use evm_arbitrage.Client.{
  EthClient, Multicall, CallMsg, new_view_multicall2_calls, ask_contract, name_results, name_all,
  multi_view_call, to_call_arg,
}
use evm_arbitrage.Client.Kept.{Call, get_all, get_all-first_made}
use evm_arbitrage.Client.Replies.{IsReply, multi_view_call-IsReply}
use evm_arbitrage.Client.Arguments.{read_call_arg, read_call_arg-to_call_arg}

abbrev calls : List ViewCall
calls =
    record { id = codes "a"; to = 5; call_data = codes "x" }
    ∷ record { id = codes "b"; to = 6; call_data = codes "y" }
    ∷ []

abbrev good : CallResult
good = record { success = true; return_data = codes "1" }

abbrev bad : CallResult
bad = record { success = false; return_data = [] }

abbrev contract : Multicall
contract = record {
  id = codes "id";
  pack = λ cs. some (codes "packed");
  call_contract = λ a body. some body;
  unpack = λ body. some (some (good ∷ bad ∷ []) ∷ []);
}

abbrev client_at : ℕ → EthClient ℕ
client_at a = record { client = 1; multicall_address = a }

answered :
    multi_view_call contract (client_at 9) calls
    ≡ ok (some ((codes "a", good) ∷ (codes "b", bad) ∷ []))
unfolding lookup insert at new_view_multicall2_calls ask_contract name_results name_all
    multi_view_call
answered = refl

multi_view_call-IsReply_example :
    IsReply contract 9 calls (multi_view_call contract (client_at 9) calls)
multi_view_call-IsReply_example = multi_view_call-IsReply contract (client_at 9) calls

-- A refused dial, then two addresses for one node.
abbrev asked : List (Call ℕ)
asked =
    (none, codes "n", 7)
    ∷ (some 1, codes "n", 8)
    ∷ (some 2, codes "m", 5)
    ∷ (some 3, codes "n", 9)
    ∷ []

get_all-first_made_example : lookup (codes "n") (get_all asked []) ≡ some (client_at 8)
unfolding lookup
get_all-first_made_example = get_all-first_made asked (codes "n") []

abbrev msg : CallMsg
msg = record {
  from = 3;
  to = some 4;
  msg_data = codes "d";
  value = none;
  gas = 21000;
  gas_price = none;
}

read_call_arg-to_call_arg_example : read_call_arg (to_call_arg msg) ≡ msg
read_call_arg-to_call_arg_example = read_call_arg-to_call_arg msg
