-- ===== src/Storage/Tests.antt =====
-- The store with concrete data: a datum is a version and the time at which it expires.
use mathlib.Core.List.Permᴰ
use evm_arbitrage.Base.{ℕ, ◌≡◌, refl, some, List, [], ◌∷◌, All, ltb, arith}
use evm_arbitrage.Base.Bytes.{nat_eq}
use evm_arbitrage.Base.GoMap.{lookup, insert, IsMap}
use evm_arbitrage.Base.Int.{ℤ, pos, ltb_ℤ}
use evm_arbitrage.Base.Outcome.{ok}
use evm_arbitrage.Storage.{
  DataUpdate, DatasStorage, entries, pair_up, delete, load, store_one, store_all, store, sweep,
  load_all,
}
use evm_arbitrage.Storage.Newest.{IsOrdered, AtLeast, KeptOver, store-newest}
use evm_arbitrage.Storage.Sweep.{fate, load_all-fate}
use evm_arbitrage.Storage.Update.{replay, updates, store-replay}

program : Unit {0}
unfolding lookup insert delete load store_one store_all store sweep load_all
program = tt

abbrev Version : Type 0
Version = ℕ × ℤ

abbrev versions : DataUpdate Version
versions = record {
  need_update = λ old new. ok (ltb old.0 new.0);
  expired = λ v now. ok (ltb_ℤ v.1 now);
}

versions-IsOrdered : IsOrdered versions
versions-IsOrdered = record {
  asymm = λ a b h. ground arith;
  trans = λ a b c h k. ground arith;
  keep = λ a b c h k. ground arith;
}

abbrev before : DatasStorage ℕ Version
before = record { datas = some ((1, (5, pos 100)) ∷ (2, (6, pos 200)) ∷ []) }

-- Key 1 gets version 7 and then the older 4, key 2 an older one, key 3 its first.
abbrev keys : List ℕ
keys = 1 ∷ 1 ∷ 2 ∷ 3 ∷ []

abbrev news : List Version
news = (7, pos 300) ∷ (4, pos 400) ∷ (2, pos 500) ∷ (1, pos 600) ∷ []

abbrev after : DatasStorage ℕ Version
after = record { datas = some ((1, (7, pos 300)) ∷ (2, (6, pos 200)) ∷ (3, (1, pos 600)) ∷ []) }

stored :
    (store versions (some before) keys news ≡ ok (some after))
    × (store versions (some before) (1 ∷ []) news ≡ ok (some before))
    × (load (some after) 3 ≡ (some after, some (1, pos 600)))
unfolding program
stored = (refl, refl, refl)

store-replay_example :
    replay versions 1 (updates keys news) (lookup 1 (entries before.datas))
    ≡ ok (lookup 1 (entries after.datas))
store-replay_example = store-replay versions before after keys news 1 stored.0

store-newest_example :
    All (λ e. e.0 ≡ 1 → AtLeast versions (7, pos 300) e.1) (pair_up keys news)
    × KeptOver versions (lookup 1 (entries before.datas)) (7, pos 300)
unfolding program
store-newest_example =
    store-newest versions versions-IsOrdered before after keys news 1 (7, pos 300) refl stored.0
      refl

-- At time 250 the datum of key 2 has expired.
abbrev at_250 : ℕ → ℤ
at_250 k = pos 250

abbrev swept : DatasStorage ℕ Version
swept = record { datas = some ((1, (7, pos 300)) ∷ (3, (1, pos 600)) ∷ []) }

abbrev in_order : List (ℕ × Version) → List (ℕ × Version)
in_order l = l

loaded :
    load_all versions in_order at_250 (some after)
    ≡ ok (some swept, (1, (7, pos 300)) ∷ (3, (1, pos 600)) ∷ [])
unfolding program
loaded = refl

after-IsMap : IsMap (entries after.datas)
unfolding program
after-IsMap = (refl, (refl, (refl, tt)))

load_all-fate_example :
    (fate versions (at_250 2) (lookup 2 (entries after.datas))
      ≡ ok (lookup 2 (entries swept.datas)))
    × (lookup {K = ℕ} 2 ((1, (7, pos 300)) ∷ (3, (1, pos 600)) ∷ [])
        ≡ lookup 2 (entries swept.datas))
load_all-fate_example =
    load_all-fate versions in_order at_250 after swept ((1, (7, pos 300)) ∷ (3, (1, pos 600)) ∷ [])
      2 (λ l. Permᴰ.refl l) after-IsMap loaded
