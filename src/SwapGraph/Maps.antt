-- ===== src/SwapGraph/Maps.antt =====
-- The edges as a keyed map, and the edges that a `range` over them visits.
use evm_arbitrage.Base.{◌≡◌, some, none, List, [], subst, sym, All}
use evm_arbitrage.Base.Bytes.{Bytes, bytes_eq}
use evm_arbitrage.Base.GoMap.{lookup, values, IsMap, IsRange, All-perm, All-values}
use evm_arbitrage.SwapGraph.{SwapEdge}

-- Every edge stands under its own key, once, and no key is empty.
pub record IsKeyed (edges : List (Bytes × SwapEdge)) : Type 0 where
  pub unique : IsMap edges
  pub own_key : (k : Bytes) (e : SwapEdge) → lookup k edges ≡ some e → e.key ≡ k
  pub not_empty : lookup [] edges ≡ none

abbrev pub IsEdge : List (Bytes × SwapEdge) → SwapEdge → Type 0
IsEdge edges e = lookup e.key edges ≡ some e

pub own-IsEdge :
    {edges : List (Bytes × SwapEdge)} (keyed : IsKeyed edges) (k : Bytes) (e : SwapEdge)
    → lookup k edges ≡ some e
    → IsEdge edges e
own-IsEdge {edges} keyed k e h = subst (λ j. lookup j edges ≡ some e) (sym (keyed.own_key k e h)) h

pub values-IsEdge :
    {edges : List (Bytes × SwapEdge)} → IsKeyed edges → All (IsEdge edges) (values edges)
values-IsEdge {edges} keyed = All-values (IsEdge edges) edges keyed.unique (own-IsEdge keyed)

pub range-IsEdge :
    {edges : List (Bytes × SwapEdge)} {pick : List SwapEdge → List SwapEdge}
    → IsKeyed edges
    → IsRange pick
    → All (IsEdge edges) (pick (values edges))
range-IsEdge {edges} {pick} keyed range =
    All-perm (IsEdge edges) (range (values edges)) (values-IsEdge keyed)
