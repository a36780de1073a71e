-- ===== src/Start.antt =====
-- monitor/main.go and monitor/config/config.go: the configuration, the keepers that the process starts and
-- shuts down, with what Init of the trader and of the monitor do. A state of the world S stands for
-- all that keepers change; the signal to shut down comes after `serve`.
use evm_arbitrage.Base.{
  ℕ, zero, suc, Bool, true, false, ◌||◌, Option, none, some, List, [], ◌∷◌, length, replicate, ◌==◌,
  if◌then◌else◌,
}
use evm_arbitrage.Base.Bytes.{Bytes, big_endian}
use evm_arbitrage.Float64.{Float64, plus, le, of_ratio}
pub mod Runs
pub mod Tests

-- `Config`
pub record Config : Type 0 where
  pub node : Bytes
  pub multicall_address : ℕ
  pub weth_address : ℕ
  pub store_file_path : Bytes
  pub from_address : ℕ
  pub private_key : Bytes
  pub swap_address : ℕ
  pub min_recieve : Float64
  pub eth_node : Bytes

-- `len(conf.FromAddress) == 0 || len(conf.PrivateKey) == 0`: an address is an array of 20 bytes.
unfoldable pub missing_env : Config → Bool
unfolding big_endian
missing_env conf = length (big_endian 20 conf.from_address) == 0 || length conf.private_key == 0

-- `NewArbitrage` corrects the least gain of the configuration, which nothing else reads.
unfoldable pub new_arbitrage : Config → Config
new_arbitrage conf =
    if le conf.min_recieve (plus 0) then record conf { min_recieve = of_ratio 1 10000 } else conf

-- `strings.TrimPrefix(s, "0x")`
abbrev pub trim_0x : Bytes → Bytes
trim_0x (a ∷ b ∷ s) = if a == b'0' then (if b == b'x' then s else a ∷ b ∷ s) else a ∷ b ∷ s
trim_0x s = s

-- `Trader.Init`: the chain that the signer is for, and the key. `chain_id` is none if the node cannot be
-- reached or gives no id, and `hex_to_ecdsa` is that of the package crypto.
unfoldable pub trader_init : {K : Type 0} → Option ℕ → (Bytes → Option K) → Config → Option (ℕ × K)
trader_init none hex_to_ecdsa conf = none
trader_init (some chain_id) hex_to_ecdsa conf = elim (hex_to_ecdsa (trim_0x conf.private_key)) [
  | none ↦ none
  | some key ↦ some (chain_id, key)
]

-- `Keeper`: Init with whether it returned no error, and ShutDown.
pub record Keeper (S : Type 0) : Type 0 where
  pub init : S → S × Bool
  pub shut_down : S → S

-- How a sequence of calls ends: all returned, or one returned an error, which ends it.
pub data Ending (S : Type 0) : Type 0 where
  done : S → Ending S
  failed : S → Ending S

-- `if err != nil` after a call of Init, with the rest of the loop.
abbrev pub go_on : {S : Type 0} → S × Bool → (S → Ending S) → Ending S
go_on (s, true) rest = rest s
go_on (s, false) rest = failed s

-- The loop of Inits in `main`, which panics at the first error; `EVMMonitor.Init` has the same loop over
-- its actions, and returns the error.
unfoldable pub init_all : {S : Type 0} → List (S → S × Bool) → S → Ending S
init_all [] s = done s
init_all (init ∷ inits) s = go_on (init s) (init_all inits)

abbrev pub inits_of : {S : Type 0} → List (Keeper S) → List (S → S × Bool)
inits_of [] = []
inits_of (k ∷ ks) = k.init ∷ inits_of ks

-- The loop of ShutDowns.
unfoldable pub shut_all : {S : Type 0} → List (Keeper S) → S → S
shut_all [] s = s
shut_all (k ∷ ks) s = shut_all ks (k.shut_down s)

-- From the first Init on: a panic is recovered by `main` and ends the process.
unfoldable pub run_keepers : {S : Type 0} → List (Keeper S) → (S → S) → S → Ending S
unfolding init_all shut_all
run_keepers ks serve s = elim (init_all (inits_of ks) s) [
  | failed s' ↦ failed s'
  | done s' ↦ done (shut_all ks (serve s'))
]

-- `main`: without the settings it panics at once.
unfoldable pub main : {S : Type 0} → Config → List (Keeper S) → (S → S) → S → Ending S
unfolding missing_env run_keepers
main conf ks serve s = if missing_env conf then failed s else run_keepers ks serve s
