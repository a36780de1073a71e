-- ===== src/Base/Text/Split.antt =====
-- Splitting a text that is built from parts without the separator gives the parts back.
use evm_arbitrage.Base.{ℕ, ◌+◌, ◌<◌, ◌≡◌, ◌≢◌, refl, [], ◌∷◌, ◌++◌, arith, All, ==_ne, ==_refl}
use evm_arbitrage.Base.Bytes.{Bytes}
use evm_arbitrage.Base.Int.{ℤ, pos, negsuc}
use evm_arbitrage.Base.Text.{split, print_ℕ, print_ℤ}
use evm_arbitrage.Base.Text.Decimal.{IsDigit, print_ℕ-IsDigit}

-- The text holds no byte b.
abbrev pub Lacks : ℕ → Bytes → Type 0
Lacks b = All (λ c. c ≢ b)

pub split-part : (sep : ℕ) (p s : Bytes) → Lacks sep p → split sep (p ++ sep ∷ s) ≡ p ∷ split sep s
unfolding split
split-part sep [] s h = rw (==_refl sep)
split-part sep (c ∷ p) s h = rw (==_ne c sep h.0, split-part sep p s h.1)

pub split_last : (sep : ℕ) (p : Bytes) → Lacks sep p → split sep p ≡ p ∷ []
unfolding split
split_last sep [] h = refl
split_last sep (c ∷ p) h = rw (==_ne c sep h.0, split_last sep p h.1)

IsDigit-Lacks : (b : ℕ) (s : Bytes) → b < b'0' → All IsDigit s → Lacks b s
IsDigit-Lacks b [] h d = tt
IsDigit-Lacks b (c ∷ s) h d = (omega arith, IsDigit-Lacks b s h d.1)

IsDigit-Lacks_above : (b : ℕ) (s : Bytes) → b'9' < b → All IsDigit s → Lacks b s
IsDigit-Lacks_above b [] h d = tt
IsDigit-Lacks_above b (c ∷ s) h d = (omega arith, IsDigit-Lacks_above b s h d.1)

pub print_ℕ-Lacks : (b n : ℕ) → b < b'0' → Lacks b (print_ℕ n)
print_ℕ-Lacks b n h = IsDigit-Lacks b (print_ℕ n) h (print_ℕ-IsDigit n)

pub print_ℕ-Lacks_above : (b n : ℕ) → b'9' < b → Lacks b (print_ℕ n)
print_ℕ-Lacks_above b n h = IsDigit-Lacks_above b (print_ℕ n) h (print_ℕ-IsDigit n)

pub print_ℤ-Lacks : (b : ℕ) (z : ℤ) → b < b'-' → Lacks b (print_ℤ z)
unfolding print_ℤ
print_ℤ-Lacks b (pos n) h = print_ℕ-Lacks b n (omega arith)
print_ℤ-Lacks b (negsuc n) h = (omega arith, print_ℕ-Lacks b (n + 1) (omega arith))

pub print_ℤ-Lacks_above : (b : ℕ) (z : ℤ) → b'9' < b → Lacks b (print_ℤ z)
unfolding print_ℤ
print_ℤ-Lacks_above b (pos n) h = print_ℕ-Lacks_above b n h
print_ℤ-Lacks_above b (negsuc n) h = (omega arith, print_ℕ-Lacks_above b (n + 1) h)

pub Lacks-append : (b : ℕ) (s t : Bytes) → Lacks b s → Lacks b t → Lacks b (s ++ t)
Lacks-append b [] t hs ht = ht
Lacks-append b (c ∷ s) t hs ht = (hs.0, Lacks-append b s t hs.1 ht)
