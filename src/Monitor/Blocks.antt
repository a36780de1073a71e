-- ===== src/Monitor/Blocks.antt =====
-- No block is left out or handed on twice.
use evm_arbitrage.Base.{
  ℕ, zero, suc, ◌+◌, ◌-◌, ◌≤◌, ◌<◌, ◌≡◌, ◌≢◌, refl, sym, ap, ◌∙◌, Option, none, some, List, [], ◌∷◌,
  ◌++◌, arith, leb, leb→le, Bool-cases, inl, inr, subst,
}
use evm_arbitrage.Monitor.{EvmMonitor, count_up, on_new_block, on_reported, watch}

-- The blocks of all calls in a row.
abbrev pub in_a_row : List (List ℕ) → List ℕ
in_a_row [] = []
in_a_row (bs ∷ rest) = bs ++ in_a_row rest

count_up-append : (a m n : ℕ) → count_up a m ++ count_up (a + m) n ≡ count_up a (m + n)
unfolding count_up
count_up-append a zero n =
    let at : a + 0 ≡ a = omega arith in
    let long : n ≡ 0 + n = omega arith in ap (λ b. count_up b n) at ∙ ap (count_up a) long
count_up-append a (suc m) n =
    let at : a + suc m ≡ a + 1 + m = omega arith in
    let long : suc (m + n) ≡ suc m + n = omega arith in
    ap (λ b. a ∷ (count_up (a + 1) m ++ count_up b n)) at
    ∙ ap (λ t. a ∷ t) (count_up-append (a + 1) m n)
    ∙ ap (count_up a) long

count_up_none : (a m : ℕ) → m ≡ 0 → [] ≡ count_up a m
unfolding count_up
count_up_none a zero h = refl
count_up_none a (suc m) h = absurd (omega arith)

-- The rest of the watch after one report.
abbrev go_on : List ℕ → EvmMonitor × Option (List ℕ) → EvmMonitor × List (List ℕ)
go_on ns r = (
  (watch ns r.0).0,
  elim r.1 [ none ↦ (watch ns r.0).1 | some blocks ↦ blocks ∷ (watch ns r.0).1 ],
)

watch_step :
    (n : ℕ) (ns : List ℕ) (e : EvmMonitor) (r : EvmMonitor × Option (List ℕ))
    → on_reported n e ≡ r
    → watch (n ∷ ns) e ≡ go_on ns r
unfolding watch
watch_step n ns e r h = ap (go_on ns) h

-- A report that is not new changes nothing; a new one hands on the blocks up to it.
on_reported_old : (n : ℕ) (e : EvmMonitor) → n ≤ e.latest_block_number → on_reported n e ≡ (e, none)
unfolding on_reported
on_reported_old n e h = ground arith

on_reported_new :
    (n : ℕ) (e : EvmMonitor)
    → e.latest_block_number < n
    → e.latest_block_number ≢ 0
    → on_reported n e ≡ (
      record { latest_block_number = n },
      some (count_up (e.latest_block_number + 1) (n - e.latest_block_number)),
    )
unfolding on_reported on_new_block
on_reported_new n e h z = ground arith

-- The blocks handed on, in a row, are those after the latest one of e up to the latest one after.
abbrev pub Handed : EvmMonitor → EvmMonitor × List (List ℕ) → Type 0
Handed e r =
    (e.latest_block_number ≤ r.0.latest_block_number)
    × (in_a_row r.1
        ≡ count_up (e.latest_block_number + 1) (r.0.latest_block_number - e.latest_block_number))

-- Whatever blocks the node reports, once a first block was seen the blocks that are handed to the
-- actions, in a row, are exactly those after the latest one before up to the latest one after,
-- each once and in order.
pub watch-Handed :
    (ns : List ℕ) (e : EvmMonitor) → e.latest_block_number ≢ 0 → Handed e (watch ns e)
unfolding watch
watch-Handed [] e h = (omega arith, count_up_none _ _ (omega arith))
watch-Handed (n ∷ ns) e h = elim (Bool-cases (leb n e.latest_block_number)) [
  | inl old ↦
      subst (Handed e)
        (sym
          (watch_step n ns e (e, none) (on_reported_old n e (leb→le n e.latest_block_number old))))
        (watch-Handed ns e h)
  | inr new ↦
      let after : EvmMonitor = record { latest_block_number = n } in
      let (le, row) = watch-Handed ns after (ground arith) in
      let low : e.latest_block_number < n = ground arith in
      let high = (watch ns after).0.latest_block_number in
      let at : n + 1 ≡ e.latest_block_number + 1 + (n - e.latest_block_number) = omega arith in
      let long : n - e.latest_block_number + (high - n) ≡ high - e.latest_block_number =
        omega arith in
      subst (Handed e) (sym (watch_step n ns e _ (on_reported_new n e low h))) (
        omega arith,
        ap (λ t. count_up (e.latest_block_number + 1) (n - e.latest_block_number) ++ t)
              (row ∙ ap (λ a. count_up a (high - n)) at)
            ∙ count_up-append (e.latest_block_number + 1) (n - e.latest_block_number) (high - n)
            ∙ ap (count_up (e.latest_block_number + 1)) long,
      )
]
