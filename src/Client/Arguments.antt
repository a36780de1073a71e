-- ===== src/Client/Arguments.antt =====
-- The arguments of an estimate carry the whole message.
use evm_arbitrage.Base.{ℕ, zero, suc, ◌≡◌, refl, Option, none, some, List, [], ◌∷◌}
use evm_arbitrage.Base.Bytes.{Bytes, codes, bytes_eq}
use evm_arbitrage.Base.GoMap.{lookup}
use evm_arbitrage.Base.Int.{ℤ}
use evm_arbitrage.Client.{CallMsg, Argument, to_call_arg, estimate_gas_last}
use evm_arbitrage.Client

-- The message that a node reads from the arguments: a key that is not there stands for an empty value.
abbrev read_address : Option Argument → Option ℕ
read_address (some (Client.Argument.address a)) = a
read_address _ = none

abbrev read_bytes : Option Argument → Bytes
read_bytes (some (Client.Argument.bytes b)) = b
read_bytes _ = []

abbrev read_big : Option Argument → Option ℤ
read_big (some (Client.Argument.big n)) = some n
read_big _ = none

abbrev read_quantity : Option Argument → ℕ
read_quantity (some (Client.Argument.quantity n)) = n
read_quantity _ = 0

abbrev or_zero : Option ℕ → ℕ
or_zero none = 0
or_zero (some a) = a

abbrev pub read_call_arg : List (Bytes × Argument) → CallMsg
read_call_arg args = record {
  from = or_zero (read_address (lookup (codes "from") args));
  to = read_address (lookup (codes "to") args);
  msg_data = read_bytes (lookup (codes "data") args);
  value = read_big (lookup (codes "value") args);
  gas = read_quantity (lookup (codes "gas") args);
  gas_price = read_big (lookup (codes "gasPrice") args);
}

fields-read :
    (from : ℕ) (to : Option ℕ) (bytes : Bytes) (value : Option ℤ) (gas : ℕ) (price : Option ℤ)
    → read_call_arg (
        to_call_arg (record {
          from = from;
          to = to;
          msg_data = bytes;
          value = value;
          gas = gas;
          gas_price = price;
        }))
      ≡ record {
        from = from;
        to = to;
        msg_data = bytes;
        value = value;
        gas = gas;
        gas_price = price;
      }
unfolding to_call_arg lookup
fields-read from to [] none zero none = refl
fields-read from to [] none zero (some p) = refl
fields-read from to [] none (suc g) none = refl
fields-read from to [] none (suc g) (some p) = refl
fields-read from to [] (some v) zero none = refl
fields-read from to [] (some v) zero (some p) = refl
fields-read from to [] (some v) (suc g) none = refl
fields-read from to [] (some v) (suc g) (some p) = refl
fields-read from to (b ∷ bs) none zero none = refl
fields-read from to (b ∷ bs) none zero (some p) = refl
fields-read from to (b ∷ bs) none (suc g) none = refl
fields-read from to (b ∷ bs) none (suc g) (some p) = refl
fields-read from to (b ∷ bs) (some v) zero none = refl
fields-read from to (b ∷ bs) (some v) zero (some p) = refl
fields-read from to (b ∷ bs) (some v) (suc g) none = refl
fields-read from to (b ∷ bs) (some v) (suc g) (some p) = refl

-- The arguments that `toCallArg` makes of a message read back as the message, a missing data, value,
-- gas or gas price as an empty one.
pub read_call_arg-to_call_arg : (msg : CallMsg) → read_call_arg (to_call_arg msg) ≡ msg
read_call_arg-to_call_arg msg =
    fields-read msg.from msg.to msg.msg_data msg.value msg.gas msg.gas_price
