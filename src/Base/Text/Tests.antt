-- ===== src/Base/Text/Tests.antt =====
-- Values of the text functions.
use evm_arbitrage.Base.{◌≡◌, refl, none, some, ◌∷◌, [], ◌^◌, ◌-◌}
use evm_arbitrage.Base.Bytes.{codes}
use evm_arbitrage.Base.Int.{pos, negsuc}
use evm_arbitrage.Base.Text
use evm_arbitrage.Base.Text.{print_ℤ, parse_uint64, parse_int64, split}

prints :
    (print_ℤ (negsuc 41) ≡ codes "-42") × (print_ℤ (pos (2 ^ 64)) ≡ codes "18446744073709551616")
unfolding print_ℤ
prints = (refl, refl)

parses :
    (parse_uint64 (codes "18446744073709551616") ≡ none)
    × (parse_uint64 (codes "007") ≡ some 7)
    × (parse_int64 (codes "-9223372036854775808") ≡ some (negsuc (2 ^ 63 - 1)))
    × (parse_int64 (codes "+") ≡ none)
unfolding parse_uint64 parse_int64 Text.parse_ℕ Text.parse_ℤ
parses = (refl, refl, refl, refl)

splits : split b',' (codes "a,,b") ≡ codes "a" ∷ [] ∷ codes "b" ∷ []
unfolding split
splits = refl
