-- ===== src/DataKeeper/Append.antt =====
-- `appendFile` (monitor/datakeeper/datakeeper_file.go) after `writeData`: the lines of further pairs
-- behind those of a file.
use mathlib.Core.List.{append_assoc}
use evm_arbitrage.Base.{ap, ◌∙◌, sym, ℕ, ◌≡◌, refl, true, some, List, [], ◌∷◌, ◌++◌}
use evm_arbitrage.DataKeeper.{FileDataKeeper, data_body, body_of, append_file}
use evm_arbitrage.Protocol.{UniswapV2Pair, AddressText}
use evm_arbitrage.Protocol.File.{to_file_data}

module _ (t : AddressText) where
  data_body-++ :
      (ps qs : List UniswapV2Pair) → data_body t (ps ++ qs) ≡ data_body t ps ++ data_body t qs
  unfolding data_body
  data_body-++ [] qs = refl
  data_body-++ (p ∷ ps) qs =
      ap (λ b. to_file_data t (some p) ++ b'\n' ∷ b) (data_body-++ ps qs)
      ∙ sym (append_assoc (to_file_data t (some p)) (b'\n' ∷ data_body t ps) (data_body t qs))

  -- The pairs qs appended to a file of the pairs ps make the file of the pairs ps ++ qs.
  append_file-data_body :
      (left : ℕ) (ps qs : List UniswapV2Pair) (f : FileDataKeeper)
      → f.file ≡ some (data_body t ps)
      → append_file true true left (data_body t qs) f
        ≡ (record f { file = some (data_body t (ps ++ qs)) }, some tt)
  unfolding append_file body_of
  append_file-data_body left ps qs f h =
      ap (λ b. (record f { file = some (body_of b ++ data_body t qs) }, some tt)) h
      ∙ ap (λ b. (record f { file = some b }, some tt)) (sym (data_body-++ ps qs))
