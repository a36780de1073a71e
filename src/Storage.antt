-- ===== src/Storage.antt =====
-- monitor/storage/storage.go: the shared store of the latest data by key. The mutex makes each
-- operation one step, so an operation is a function of the store; a store pointer may be nil, and
-- its map is nil until the first use.
use evm_arbitrage.Base.{
  ℕ, ◌≡◌, refl, Bool, true, false, not, ◌||◌, Option, none, some, List, [], ◌∷◌, length, ◌==◌,
  if◌then◌else◌,
}
use evm_arbitrage.Base.Bytes.{Bytes, codes, bytes_eq}
use evm_arbitrage.Base.GoMap.{Key, lookup, insert}
use evm_arbitrage.Base.Int.{ℤ}
use evm_arbitrage.Base.Outcome.{Outcome, ok, panic, ◌>>=◌}
pub mod Update
pub mod Newest
pub mod Sweep
pub mod Fresh
pub mod Tests

-- The interface `DataUpdate`: `need_update old new` and `expired old now`. A method that reads a
-- nil pointer panics.
pub record DataUpdate (V : Type 0) : Type 0 where
  pub need_update : V → V → Outcome Bool
  pub expired : V → ℤ → Outcome Bool

-- `StoreKeyUniswapv2Pairs`
abbrev pub store_key_uniswapv2_pairs : Bytes
store_key_uniswapv2_pairs = codes "Uniswapv2Pairs"

pub record DatasStorage (K V : Type 0) : Type 0 where
  pub datas : Option (List (K × V))

-- `AllDatasStorage` at the start, and `GetStorage`: nil for another key.
abbrev pub all_datas_storage : {K V : Type 0} → List (Bytes × DatasStorage K V)
all_datas_storage = (store_key_uniswapv2_pairs, record { datas = none }) ∷ []

unfoldable pub get_storage :
    {K V : Type 0} → Bytes → List (Bytes × DatasStorage K V) → Option (DatasStorage K V)
unfolding lookup
get_storage key storages = lookup key storages

-- A nil map reads as an empty one.
abbrev pub entries : {K V : Type 0} → Option (List (K × V)) → List (K × V)
entries none = []
entries (some m) = m

-- `keys[i]` with `datas[i]`.
abbrev pub pair_up : {K V : Type 0} → List K → List V → List (K × V)
pair_up (k ∷ ks) (v ∷ vs) = (k, v) ∷ pair_up ks vs
pair_up _ _ = []

module _ {K V : Type 0} ⦃eq : Key K⦄ where
  -- `delete(m, k)`
  unfoldable pub delete : K → List (K × V) → List (K × V)
  delete k [] = []
  delete k ((j, v) ∷ m) = let rest = delete k m in if eq.beq j k then rest else (j, v) ∷ rest

  -- `Load`: the store with its map made, and the datum or nil.
  unfoldable pub load : Option (DatasStorage K V) → K → Option (DatasStorage K V) × Option V
  load none k = (none, none)
  load (some s) k = (some (record { datas = some (entries s.datas) }), lookup k (entries s.datas))

module _ {K V : Type 0} ⦃eq : Key K⦄ (d : DataUpdate V) where
  -- One round of the loop of `Store`.
  unfoldable pub store_one : K → V → List (K × V) → Outcome (List (K × V))
  store_one k v m = elim (lookup k m) [
    | none ↦ ok (insert k v m)
    | some old ↦ do needed ← d.need_update old v; if needed then ok (insert k v m) else ok m
  ]

  unfoldable pub store_all : List (K × V) → List (K × V) → Outcome (List (K × V))
  store_all [] m = ok m
  store_all ((k, v) ∷ kvs) m = do m' ← store_one k v m; store_all kvs m'

  -- `Store`: nothing happens to a nil store, without data, or when the lengths differ.
  unfoldable pub store :
      Option (DatasStorage K V) → List K → List V → Outcome (Option (DatasStorage K V))
  unfolding store_one store_all
  store none ks vs = ok none
  store (some s) ks vs = if length vs == 0 || not (length ks == length vs) then ok (some s) else (do
    m ← store_all (pair_up ks vs) (entries s.datas)
    ok (some (record { datas = some m })))

  -- The loop of `LoadAll` over the entries in the order of the range: an expired one is deleted from
  -- the store, any other is copied. `now k` is the time read at the entry of k.
  unfoldable pub sweep :
      (K → ℤ) → List (K × V) → List (K × V) × List (K × V) → Outcome (List (K × V) × List (K × V))
  sweep now [] acc = ok acc
  sweep now ((k, one) ∷ rest) (datas, all) = do
    old ← d.expired one (now k)
    sweep now rest (if old then (delete k datas, all) else (datas, insert k one all))

  -- `LoadAll`: the store that is left, and the copy.
  unfoldable pub load_all :
      (List (K × V) → List (K × V))
      → (K → ℤ)
      → Option (DatasStorage K V)
      → Outcome (Option (DatasStorage K V) × List (K × V))
  unfolding sweep delete
  load_all order now none = ok (none, [])
  load_all order now (some s) = do
    (datas, all) ← sweep now (order (entries s.datas)) (entries s.datas, [])
    ok (some (record { datas = some datas }), all)
