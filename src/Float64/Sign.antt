-- ===== src/Float64/Sign.antt =====
-- The sign of results: sums, products and quotients of values without a minus sign have none.
use evm_arbitrage.Base.{ℕ, ◌≡◌, refl, Bool, true, false, arith, if◌then◌else◌}
use evm_arbitrage.Float64.{
  Float64, nan, pos_inf, neg_inf, plus, minus, is_neg, xor_sign, finite, add, mul, div, signed_inf,
  signed_zero,
}

-- x has no minus sign: it is NaN, +Inf, or plus a magnitude.
pub data Unsigned (x : Float64) : Type 0 where
  unsigned : is_neg x ≡ false → Unsigned x

pub is_neg-Unsigned : {x : Float64} → Unsigned x → is_neg x ≡ false
is_neg-Unsigned (unsigned h) = h

nan-Unsigned : Unsigned nan
unfolding is_neg
nan-Unsigned = unsigned refl

pub finite-Unsigned : (n : ℕ) → Unsigned (finite false n)
unfolding finite is_neg
finite-Unsigned n = unsigned (ground arith)

if-Unsigned : (b : Bool) {x y : Float64} → Unsigned x → Unsigned y → Unsigned (if b then x else y)
if-Unsigned true h k = h
if-Unsigned false h k = k

module _ (x y : Float64) (hx : Unsigned x) (hy : Unsigned y) where
  xor_sign-false : xor_sign x y ≡ false
  unfolding xor_sign
  xor_sign-false = rw (is_neg-Unsigned hx, is_neg-Unsigned hy)

  signed_inf-Unsigned : Unsigned (signed_inf (xor_sign x y))
  unfolding is_neg
  signed_inf-Unsigned = rw xor_sign-false (unsigned refl)

  signed_zero-Unsigned : Unsigned (signed_zero (xor_sign x y))
  unfolding is_neg
  signed_zero-Unsigned = rw xor_sign-false (unsigned refl)

  signed_finite-Unsigned : (n : ℕ) → Unsigned (finite (xor_sign x y) n)
  signed_finite-Unsigned n = rw xor_sign-false (finite-Unsigned n)

  pub mul-Unsigned : Unsigned (mul x y)
  unfolding mul
  mul-Unsigned = search (if-Unsigned, nan-Unsigned, signed_inf-Unsigned, signed_finite-Unsigned)

  pub div-Unsigned : Unsigned (div x y)
  unfolding div
  div-Unsigned =
      search
        (
          if-Unsigned, nan-Unsigned, signed_inf-Unsigned, signed_zero-Unsigned,
          signed_finite-Unsigned,
        )
        depth 8

pub add-Unsigned : (x y : Float64) → Unsigned x → Unsigned y → Unsigned (add x y)
unfolding add is_neg
add-Unsigned nan y h k = unsigned refl
add-Unsigned pos_inf nan h k = unsigned refl
add-Unsigned pos_inf neg_inf h k = unsigned refl
add-Unsigned pos_inf _ h k = unsigned refl
add-Unsigned neg_inf y (unsigned h) k = absurd (cc)
add-Unsigned (plus a) nan h k = unsigned refl
add-Unsigned (plus a) pos_inf h k = unsigned refl
add-Unsigned (plus a) neg_inf h (unsigned k) = absurd (cc)
add-Unsigned (plus a) (plus b) h k = finite-Unsigned _
add-Unsigned (plus a) (minus b) h (unsigned k) = absurd (cc)
add-Unsigned (minus a) y (unsigned h) k = absurd (cc)
