-- ===== src/Retry/Attempts.antt =====
-- `Retry` with a positive count ends after that many calls at most.
use evm_arbitrage.Base.{
  ℕ, zero, suc, ◌+◌, ◌-◌, ◌^◌, ◌≤◌, ◌<◌, ◌≡◌, refl, ap, subst, ◌∙◌, Bool, true, false, none, some,
  arith, Bool-cases, inl, inr,
}
use evm_arbitrage.Base.Int.{pos, negsuc, ◌+ℤ◌, wrap_int64, int_laws}
use evm_arbitrage.Retry.{next_left, retry}

-- k calls from call i on, n at most: all but the last failed, the last had the result, and a failure
-- used up the n calls.
pub record IsRun (succeeds : ℕ → Bool) (i n : ℕ) (result : Bool) (k : ℕ) : Type 0 where
  pub some_call : 1 ≤ k
  pub within : k ≤ n
  pub failed : (j : ℕ) → j + 1 < k → succeeds (i + j) ≡ false
  pub last : succeeds (i + (k - 1)) ≡ result
  pub used_up : result ≡ false → k ≡ n

next_left_one : next_left (pos 1) ≡ none
unfolding next_left wrap_int64 ◌+ℤ◌
next_left_one = refl

wrap_small : (n : ℕ) → n < 2 ^ 63 → wrap_int64 (pos n) ≡ pos n
unfolding wrap_int64
wrap_small n h = ground arith

one_less : (n : ℕ) → pos (suc (suc n)) +ℤ negsuc 0 ≡ pos (suc n)
one_less n = grind int_laws

next_left_more : (n : ℕ) → n + 2 < 2 ^ 63 → next_left (pos (suc (suc n))) ≡ some (pos (suc n))
unfolding next_left
next_left_more n h = rw (one_less n, wrap_small (suc n) (omega arith)) (ground arith)

after_failure :
    (succeeds : ℕ → Bool) (i n : ℕ) (r : Bool) (k : ℕ)
    → succeeds i ≡ false
    → IsRun succeeds (i + 1) n r k
    → IsRun succeeds i (suc n) r (k + 1)
after_failure succeeds i n r k bad s = record {
  some_call = omega arith;
  within = ground (arith, s.within);
  failed = λ j l. failed_at j l;
  last = subst (λ m. succeeds m ≡ r) (ground (arith, s.some_call)) s.last;
  used_up = λ e. ground (arith, s.used_up e);
}
  where
    failed_at : (j : ℕ) → j + 1 < k + 1 → succeeds (i + j) ≡ false
    failed_at zero l = subst (λ m. succeeds m ≡ false) (omega arith) bad
    failed_at (suc j) l = subst (λ m. succeeds m ≡ false) (omega arith) (s.failed j (omega arith))

-- With a positive count n of int64, n calls are enough fuel, and `Retry` makes between 1 and n
-- calls: every one before the last failed, it returns as the last did, and it gives up only
-- after n calls.
pub retry-IsRun :
    (succeeds : ℕ → Bool) (n i : ℕ)
    → suc n < 2 ^ 63
    → (result : Bool) × (k : ℕ) × (retry (suc n) succeeds i (pos (suc n)) ≡ some (result, i + k))
      × IsRun succeeds i (suc n) result k
unfolding retry
retry-IsRun succeeds zero i h = elim (Bool-cases (succeeds i)) [
  | inl good ↦ (true, 1, rw (good, retry), run_of_one true good)
  | inr bad ↦ (false, 1, rw (bad, next_left_one, retry), run_of_one false bad)
]
  where
    run_of_one : (r : Bool) → succeeds i ≡ r → IsRun succeeds i 1 r 1
    run_of_one r e = record {
      some_call = omega arith;
      within = omega arith;
      failed = λ j l. absurd (omega arith);
      last = subst (λ m. succeeds m ≡ r) (omega arith) e;
      used_up = λ _. refl;
    }
retry-IsRun succeeds (suc n) i h = elim (Bool-cases (succeeds i)) [
  | inl good ↦ (
    true,
    1,
    rw (good, retry),
    record {
      some_call = omega arith;
      within = omega arith;
      failed = λ j l. absurd (omega arith);
      last = subst (λ m. succeeds m ≡ true) (omega arith) good;
      used_up = λ e. cc;
    },
  )
  | inr bad ↦
      let (r, k, run, s) = retry-IsRun succeeds n (i + 1) (omega arith) in
      (
        r,
        k + 1,
        rw (bad, next_left_more n (omega arith), retry) (run ∙ ap (λ m. some (r, m)) (omega arith)),
        after_failure succeeds i (suc n) r k bad s,
      )
]
