-- ===== src/DataKeeper.antt =====
-- monitor/datakeeper/datakeeper_file.go: the store of the pairs is written to a file and read back
-- at the start. The only store is that of the key "Uniswapv2Pairs". What the file system answers is
-- an argument of each operation, and `none` is a returned error.
use evm_arbitrage.Base.{
  ℕ, ◌≡◌, refl, Bool, true, false, Option, none, some, List, [], ◌∷◌, ◌++◌, length, take,
  if◌then◌else◌,
}
use evm_arbitrage.Base.Bytes.{Bytes, codes, beq_bytes, nat_eq}
use evm_arbitrage.Base.Fallible.{◌>>=◌}
use evm_arbitrage.Base.GoMap.{values}
use evm_arbitrage.Base.Int.{ℤ}
use evm_arbitrage.Base.Outcome
use evm_arbitrage.Base.Outcome.{Outcome, ok, panic}
use evm_arbitrage.Base.Text.{split}
use evm_arbitrage.PairStore.{PairStore, pair_update}
use evm_arbitrage.Protocol.{UniswapV2Pair, AddressText}
use evm_arbitrage.Protocol.File.{to_file_data, file_data_to_storage}
use evm_arbitrage.Storage.{DatasStorage, store_key_uniswapv2_pairs, load_all, store}
pub mod Reload
pub mod Restart
pub mod Addressed
pub mod Append
pub mod Tests

-- `os.ReadFile`: the contents, or an error, which may be that there is no such file.
pub data FileRead : Type 0 where
  contents : Bytes → FileRead
  not_exist : FileRead
  read_fail : FileRead

-- The keeper, the store that it keeps and the file that it wrote.
pub record FileDataKeeper : Type 0 where
  pub store_file_path : Bytes
  pub closed : Bool
  pub datas : Option PairStore
  pub file : Option Bytes

-- `NewFileDataKeeper`, beside the store and the file that are there.
unfoldable pub new_file_data_keeper : Bytes → Option PairStore → Option Bytes → FileDataKeeper
new_file_data_keeper path datas file = record {
  store_file_path = path;
  closed = false;
  datas = datas;
  file = file;
}

-- What a file holds; a missing one is created empty.
unfoldable pub body_of : Option Bytes → Bytes
body_of none = []
body_of (some b) = b

-- `appendFile`, with the answers of `os.OpenFile` and `file.Write`; `left` is how many bytes a
-- failed write leaves behind the old ones.
unfoldable pub append_file :
    (opened written : Bool) (left : ℕ) → Bytes → FileDataKeeper → FileDataKeeper × Option (Unit {0})
append_file opened written left body f =
    if opened
    then (if written
        then (record f { file = some (body_of f.file ++ body) }, some tt)
        else (record f { file = some (body_of f.file ++ take left body) }, none))
    else (f, none)

-- `fetchFile`: a missing file reads as an empty one.
unfoldable pub fetch_file : FileRead → Option Bytes
fetch_file (contents b) = some b
fetch_file not_exist = some []
fetch_file read_fail = none

-- `mkDir`, with what `os.MkdirAll` answers.
unfoldable pub mk_dir : Bool → FileDataKeeper → Option (Unit {0})
mk_dir made f = if beq_bytes f.store_file_path [] then none else if made then some tt else none

-- The end of `readData`, with what was read or an error.
unfoldable pub restore :
    Option (List ℕ × List UniswapV2Pair)
    → FileDataKeeper
    → Outcome (FileDataKeeper × Option (Unit {0}))
restore none f = ok (f, none)
restore (some (ks, vs)) f =
    Outcome.◌>>=◌ (store pair_update f.datas ks vs) λ s. ok (record f { datas = s }, some tt)

module _ (t : AddressText) where
  -- The body of the file: a line for each pair, in the order of the range.
  unfoldable pub data_body : List UniswapV2Pair → Bytes
  data_body [] = []
  data_body (p ∷ ps) = to_file_data t (some p) ++ b'\n' ∷ data_body ps

  -- `writeData`: the pairs that have not expired go to the file. `written` is the answer of
  -- `os.WriteFile`, and `left` what the file holds after a failure.
  unfoldable pub write_data :
      (load_order : List (ℕ × UniswapV2Pair) → List (ℕ × UniswapV2Pair))
      (write_order : List UniswapV2Pair → List UniswapV2Pair) (now : ℕ → ℤ) (written : Bool)
      (left : Option Bytes)
      → FileDataKeeper
      → Outcome (FileDataKeeper × Option (Unit {0}))
  unfolding data_body
  write_data load_order write_order now written left f =
      Outcome.◌>>=◌ (load_all pair_update load_order now f.datas) λ r. ok (
        if written
        then (record f { datas = r.0; file = some (data_body (write_order (values r.1))) }, some tt)
        else (record f { datas = r.0; file = left }, none))

  -- The lines of a file as keys and data; an empty line is passed over.
  unfoldable pub read_lines : List Bytes → Option (List ℕ × List UniswapV2Pair)
  read_lines [] = some ([], [])
  read_lines ([] ∷ lines) = read_lines lines
  read_lines ((c ∷ line) ∷ lines) = do
    (k, v) ← file_data_to_storage t store_key_uniswapv2_pairs (c ∷ line)
    (ks, vs) ← read_lines lines
    some (k ∷ ks, v ∷ vs)

  -- `readData`: the keeper after, and whether it returned without an error.
  unfoldable pub read_data :
      FileRead → FileDataKeeper → Outcome (FileDataKeeper × Option (Unit {0}))
  read_data answer f = restore (fetch_file answer >>= λ body. read_lines (split b'\n' body)) f

  -- `Init`, up to the start of the writing loop.
  unfoldable pub init :
      (made : Bool) → FileRead → FileDataKeeper → Outcome (FileDataKeeper × Option (Unit {0}))
  unfolding mk_dir
  init made answer f = elim (mk_dir made f) [ none ↦ ok (f, none) | some _ ↦ read_data answer f ]

  -- One round of `writtingData`: it ends once the keeper is closed; an error is only logged.
  unfoldable pub writing_round :
      (load_order : List (ℕ × UniswapV2Pair) → List (ℕ × UniswapV2Pair))
      (write_order : List UniswapV2Pair → List UniswapV2Pair) (now : ℕ → ℤ) (written : Bool)
      (left : Option Bytes)
      → FileDataKeeper
      → Outcome (FileDataKeeper × Bool)
  unfolding write_data
  writing_round load_order write_order now written left f =
      if f.closed
      then ok (f, false)
      else (Outcome.◌>>=◌ (write_data load_order write_order now written left f)
          λ r. ok (r.0, true))

  -- `ShutDown`: closed for the loop, and written once more.
  unfoldable pub shut_down :
      (load_order : List (ℕ × UniswapV2Pair) → List (ℕ × UniswapV2Pair))
      (write_order : List UniswapV2Pair → List UniswapV2Pair) (now : ℕ → ℤ) (written : Bool)
      (left : Option Bytes)
      → FileDataKeeper
      → Outcome FileDataKeeper
  unfolding write_data
  shut_down load_order write_order now written left f =
      Outcome.◌>>=◌
        (write_data load_order write_order now written left (record f { closed = true }))
        λ r. ok r.0
