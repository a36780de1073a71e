-- ===== src/Base/Bytes.antt =====
-- Byte strings, their equality, and addresses as numbers below 2^160 with their 20 bytes.
use Prim.Native.Char.{code}
use Prim.Native.String.{String}
use evm_arbitrage.Base.{
  ℕ, zero, suc, ◌/◌, ◌%◌, ◌≡◌, refl, Bool, true, false, ◌&&◌, List, [], ◌∷◌, ◌++◌, arith, ◌==◌,
  ==_iff, ◌↔◌,
}
use evm_arbitrage.Base.GoMap.{Key}

abbrev pub Bytes : Type 0
Bytes = List ℕ

-- The code points of a literal: its bytes when it is ASCII.
abbrev pub codes : String → Bytes
codes String.[] = []
codes (String.◌∷◌ c s) = code c ∷ codes s

abbrev pub beq_bytes : Bytes → Bytes → Bool
beq_bytes [] [] = true
beq_bytes (a ∷ s) (b ∷ t) = a == b && beq_bytes s t
beq_bytes _ _ = false

pub beq_bytes_iff : (s t : Bytes) → (beq_bytes s t ≡ true) ↔ (s ≡ t)
beq_bytes_iff [] [] = (λ _. refl, λ _. refl)
beq_bytes_iff [] (b ∷ t) = (λ h. cc, λ h. cc)
beq_bytes_iff (a ∷ s) [] = (λ h. cc, λ h. cc)
beq_bytes_iff (a ∷ s) (b ∷ t) =
    (λ h. ground (arith, beq_bytes_iff s t), λ h. ground (arith, beq_bytes_iff s t))

instance abbrev pub nat_eq : Key ℕ
nat_eq = record { beq = ◌==◌; beq_iff = ==_iff }

instance abbrev pub bytes_eq : Key Bytes
bytes_eq = record { beq = beq_bytes; beq_iff = beq_bytes_iff }

-- The n low bytes of a number, the highest first: `Address.Bytes()` with n = 20.
unfoldable pub big_endian : ℕ → ℕ → Bytes
big_endian zero a = []
big_endian (suc n) a = big_endian n (a / 256) ++ a % 256 ∷ []
