-- ===== src/Protocol/Logs/Places.antt =====
-- The key of a log's place, `%d:%d:%d` of its block, transaction and index, tells the place.
use evm_arbitrage.Base.{ℕ, ◌≡◌, sym, ap, ◌∙◌, some, [], ◌∷◌, ◌++◌, arith}
use evm_arbitrage.Base.Bytes.{nat_eq, bytes_eq}
use evm_arbitrage.Base.Text.{print_ℕ, parse_ℕ, split}
use evm_arbitrage.Base.Text.Decimal.{parse_ℕ-print_ℕ}
use evm_arbitrage.Base.Text.Split.{split-part, split_last, print_ℕ-Lacks_above}
use evm_arbitrage.Protocol.Logs.{place_key}

print_ℕ-inj : (a b : ℕ) → print_ℕ a ≡ print_ℕ b → a ≡ b
print_ℕ-inj a b h =
    let e : some a ≡ some b = sym (parse_ℕ-print_ℕ a) ∙ (ap parse_ℕ h ∙ parse_ℕ-print_ℕ b) in
    ground arith

split-place_key :
    (b t i : ℕ) → split b':' (place_key b t i) ≡ print_ℕ b ∷ print_ℕ t ∷ print_ℕ i ∷ []
unfolding place_key
split-place_key b t i =
    split-part b':' (print_ℕ b) (print_ℕ t ++ b':' ∷ print_ℕ i)
      (print_ℕ-Lacks_above b':' b (omega arith))
    ∙ ap (λ l. print_ℕ b ∷ l)
        (split-part b':' (print_ℕ t) (print_ℕ i) (print_ℕ-Lacks_above b':' t (omega arith))
          ∙ ap (λ l. print_ℕ t ∷ l)
              (split_last b':' (print_ℕ i) (print_ℕ-Lacks_above b':' i (omega arith))))

-- The key of a place tells the place.
pub place_key-inj :
    (b t i b' t' i' : ℕ) → place_key b t i ≡ place_key b' t' i' → (b ≡ b') × (t ≡ t') × (i ≡ i')
place_key-inj b t i b' t' i' h =
    let e : print_ℕ b ∷ print_ℕ t ∷ print_ℕ i ∷ [] ≡ print_ℕ b' ∷ print_ℕ t' ∷ print_ℕ i' ∷ [] =
      sym (split-place_key b t i) ∙ (ap (split b':') h ∙ split-place_key b' t' i') in
    (
      print_ℕ-inj b b' (ground arith),
      print_ℕ-inj t t' (ground arith),
      print_ℕ-inj i i' (ground arith),
    )
