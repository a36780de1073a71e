-- ===== src/PairStore.antt =====
-- The pairs as data of the store: `*UniswapV2Pair` is a `DataUpdate` through its embedded state
-- (monitor/protocol/uniswapv2.go, monitor/storage/storage.go).
use evm_arbitrage.Base.{ℕ, ◌≡◌, refl, Bool, Option, none, some, arith, ap, ◌∙◌}
use evm_arbitrage.Base.Outcome.{ok}
use evm_arbitrage.Protocol.{StateFromLogUpdate, UniswapV2Pair}
use evm_arbitrage.Protocol.Update
use evm_arbitrage.Protocol.Update.{NewData, newer}
use evm_arbitrage.Protocol.Update.Order.{newer_asymm, newer_trans, newer_keep}
use evm_arbitrage.Storage.{DataUpdate, DatasStorage}
use evm_arbitrage.Storage.Newest.{IsOrdered}
pub mod Addressed

-- The methods that a pair has from the state that it embeds.
abbrev pub pair_update : DataUpdate UniswapV2Pair
pair_update = record {
  need_update = λ old new. Update.need_update old.state (NewData.pair (some new));
  expired = λ p now. Update.expired p.state now;
}

abbrev pub PairStore : Type 0
PairStore = DatasStorage ℕ UniswapV2Pair

-- `NeedUpdate` answers by the states of both pairs, which are there.
need_update-eq-ok :
    (a b : Option StateFromLogUpdate) (p : UniswapV2Pair) {r : Bool}
    → p.state ≡ b
    → Update.need_update a (NewData.pair (some p)) ≡ ok r
    → (s t : StateFromLogUpdate) × (a ≡ some s) × (b ≡ some t) × (newer s t ≡ r)
unfolding Update.need_update
need_update-eq-ok none none p e h = ground arith
need_update-eq-ok none (some t) p e h = ground arith
need_update-eq-ok (some s) none p e h = ground arith
need_update-eq-ok (some s) (some t) p e h = (s, t, refl, refl, ground arith)

need_update_some :
    (a b : UniswapV2Pair) (s t : StateFromLogUpdate)
    → a.state ≡ some s
    → b.state ≡ some t
    → pair_update.need_update a b ≡ ok (newer s t)
unfolding Update.need_update
need_update_some a b s t p q = ground arith

-- The pairs are ordered by their states as the store wants it.
pub pair_update-IsOrdered : IsOrdered pair_update
pair_update-IsOrdered = record {
  asymm = λ a b h.
      let (s, t, ea, eb, r) = need_update-eq-ok a.state b.state b refl h in
      need_update_some b a t s eb ea ∙ ap ok (newer_asymm s t r);
  trans = λ a b c h k.
      let (s, t, ea, eb, r) = need_update-eq-ok a.state b.state b refl h in
      let (t', u, eb', ec, r') = need_update-eq-ok b.state c.state c refl k in
      let same : t' ≡ t = ground arith in
      need_update_some a c s u ea ec ∙ ap ok (newer_trans s t u r (rw same at r'));
  keep = λ a b c h k.
      let (s, t, ea, eb, r) = need_update-eq-ok a.state b.state b refl h in
      let (s', u, ea', ec, r') = need_update-eq-ok a.state c.state c refl k in
      let same : s' ≡ s = ground arith in
      need_update_some b c t u eb ec ∙ ap ok (newer_keep s t u r (rw same at r'));
}
