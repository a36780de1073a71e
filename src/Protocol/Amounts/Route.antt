-- ===== src/Protocol/Amounts/Route.antt =====
-- `GetAmountsOut` pays out only along a path of pairs that leads from the token back to itself.
use evm_arbitrage.Base.{
  ℕ, ◌≡◌, ◌≢◌, refl, ◌∙◌, subst, none, some, List, [], ◌∷◌, arith, ◌==◌, Bool-cases, Option-cases,
  inl, inr, ◌↔◌,
}
use evm_arbitrage.Base.Int.{ℤ}
use evm_arbitrage.Base.Outcome.{ok, >>=-eq-ok, need, need-eq-ok}
use evm_arbitrage.Float64.{Float64, plus, of_ℤ}
use evm_arbitrage.Protocol.{UniswapV2Pair}
use evm_arbitrage.Protocol.Amounts.{get_amount_out, swap_step, swap_path, get_amounts_out}

-- The pairs trade the first token into the second, the amount x into y, in turn; each pair trades by
-- its own reserves and fee, out of token0 if it is the token held, else out of token1.
pub data Route : ℕ → Float64 → List UniswapV2Pair → ℕ → Float64 → Type 0 where
  stay : (a : ℕ) (x : Float64) → Route a x [] a x
  forward :
      (p : UniswapV2Pair) (ps : List UniswapV2Pair) (a : ℕ) (r0 r1 : ℤ) (x y : Float64) (b : ℕ)
      → p.token0 ≡ a
      → p.reserve0 ≡ some r0
      → p.reserve1 ≡ some r1
      → Route p.token1 (get_amount_out x (of_ℤ r0) (of_ℤ r1) (of_ℤ p.fee)) ps b y
      → Route a x (p ∷ ps) b y
  backward :
      (p : UniswapV2Pair) (ps : List UniswapV2Pair) (a : ℕ) (r0 r1 : ℤ) (x y : Float64) (b : ℕ)
      → p.token0 ≢ a
      → p.token1 ≡ a
      → p.reserve0 ≡ some r0
      → p.reserve1 ≡ some r1
      → Route p.token0 (get_amount_out x (of_ℤ r1) (of_ℤ r0) (of_ℤ p.fee)) ps b y
      → Route a x (p ∷ ps) b y

no_path : {s : ℕ × Float64} → ok none ≡ ok (some s) → ⊥
no_path h = cc

swap_path-Route :
    (ps : List UniswapV2Pair) (a : ℕ) (x : Float64) (b : ℕ) (y : Float64)
    → swap_path ps (a, x) ≡ ok (some (b, y))
    → Route a x ps b y
unfolding swap_path swap_step
swap_path-Route [] a x b y h =
    subst (λ c. Route a x [] c y) (ground arith)
      (subst (λ z. Route a x [] a z) (ground arith) (stay a x))
swap_path-Route (p ∷ ps) a x b y h =
    let (r, step, rest) = >>=-eq-ok (swap_step p (a, x)) _ h in
    let (r0, n0, k) = >>=-eq-ok (need p.reserve0) _ step in
    let (r1, n1, e) = >>=-eq-ok (need p.reserve1) _ k in
    let l0 = need-eq-ok p.reserve0 n0 in
    let l1 = need-eq-ok p.reserve1 n1 in
    elim (Bool-cases (p.token0 == a)) [
      | inl same0 ↦
          let er : r ≡ some (p.token1, get_amount_out x (of_ℤ r0) (of_ℤ r1) (of_ℤ p.fee)) =
            ground arith in
          forward p ps a r0 r1 x y b (ground arith) l0 l1 (
            swap_path-Route ps p.token1 (get_amount_out x (of_ℤ r0) (of_ℤ r1) (of_ℤ p.fee)) b y
              (rw er at rest))
      | inr other ↦ elim (Bool-cases (p.token1 == a)) [
        | inl same1 ↦
            let er : r ≡ some (p.token0, get_amount_out x (of_ℤ r1) (of_ℤ r0) (of_ℤ p.fee)) =
              ground arith in
            backward p ps a r0 r1 x y b (ground arith) (ground arith) l0 l1 (
              swap_path-Route ps p.token0 (get_amount_out x (of_ℤ r1) (of_ℤ r0) (of_ℤ p.fee)) b y
                (rw er at rest))
        | inr neither ↦ let er : r ≡ none = ground arith in absurd (no_path (rw er at rest))
      ]
    ]

Route-swap_path :
    (ps : List UniswapV2Pair) (a : ℕ) (x : Float64) (b : ℕ) (y : Float64)
    → Route a x ps b y
    → swap_path ps (a, x) ≡ ok (some (b, y))
unfolding swap_path swap_step
Route-swap_path [] a x b y (stay _ _) = refl
Route-swap_path (p ∷ ps) a x b y (forward _ _ _ r0 r1 _ _ _ e l0 l1 r) =
    ground
      (arith, Route-swap_path ps p.token1 (get_amount_out x (of_ℤ r0) (of_ℤ r1) (of_ℤ p.fee)) b y r)
Route-swap_path (p ∷ ps) a x b y (backward _ _ _ r0 r1 _ _ _ n e l0 l1 r) =
    ground
      (arith, Route-swap_path ps p.token0 (get_amount_out x (of_ℤ r1) (of_ℤ r0) (of_ℤ p.fee)) b y r)

-- `GetAmountsOut` returns an amount x other than +0 exactly when the pairs, in turn and by their own
-- reserves and fees, trade the amount of the token into x of the same token.
pub get_amounts_out-Route :
    (token : ℕ) (amount : Float64) (ps : List UniswapV2Pair) (x : Float64)
    → x ≢ plus 0
    → (get_amounts_out token amount ps ≡ ok x) ↔ Route token amount ps token x
unfolding get_amounts_out
get_amounts_out-Route token amount ps x some_paid = (
  λ h.
      let (r, run, e) = >>=-eq-ok (swap_path ps (token, amount)) _ h in
      elim (Option-cases r) [
        | inl none_left ↦ absurd (some_paid (ground arith))
        | inr ((b, y), s) ↦ elim (Bool-cases (b == token)) [
          | inl closed ↦
              let end : b ≡ token = ground arith in
              let paid : y ≡ x = ground arith in
              swap_path-Route ps token amount token x (run ∙ ground arith)
          | inr elsewhere ↦ absurd (some_paid (ground arith))
        ]
      ],
  λ r. ground (arith, Route-swap_path ps token amount token x r),
)
