-- ===== src/Monitor/Batches.antt =====
-- The batches hold every log once and in order.
use mathlib.Core.List.{append_assoc}
use evm_arbitrage.Base.{◌≡◌, ◌≢◌, refl, sym, ap, ◌∙◌, List, [], ◌∷◌, ◌++◌, All}
use evm_arbitrage.Monitor.{Event, on_event, subscribe_filter}

module _ {ℓ} {L : Type ℓ} where
  abbrev pub arrivals : List (Event L) → List L
  arrivals [] = []
  arrivals (Event.arrive log ∷ es) = log ∷ arrivals es
  arrivals (Event.tick ∷ es) = arrivals es

  abbrev pub joined : List (List L) → List L
  joined [] = []
  joined (b ∷ bs) = b ++ joined bs

  append_nil : (a : List L) → a ++ [] ≡ a
  append_nil [] = refl
  append_nil (x ∷ a) = ap (λ t. x ∷ t) (append_nil a)

  -- Whenever logs arrive between the ticks, the batches in a row and then the logs that still wait
  -- are the logs that waited before and then all that arrived, in their order; and no batch is
  -- empty.
  pub subscribe_filter-joined :
      (es : List (Event L)) (logs : List L)
      → (joined (subscribe_filter es logs).1 ++ (subscribe_filter es logs).0 ≡ logs ++ arrivals es)
        × All (λ b. b ≢ []) (subscribe_filter es logs).1
  unfolding subscribe_filter on_event
  subscribe_filter-joined [] logs = (sym (append_nil logs), tt)
  subscribe_filter-joined (Event.arrive log ∷ es) logs =
      let (same, filled) = subscribe_filter-joined es (logs ++ log ∷ []) in
      (same ∙ append_assoc logs (log ∷ []) (arrivals es), filled)
  subscribe_filter-joined (Event.tick ∷ es) [] = subscribe_filter-joined es []
  subscribe_filter-joined (Event.tick ∷ es) (log ∷ logs) =
      let (same, filled) = subscribe_filter-joined es [] in
      (
        append_assoc (log ∷ logs) (joined (subscribe_filter es []).1) (subscribe_filter es []).0
            ∙ ap (λ t. log ∷ logs ++ t) same,
        ((λ h. cc), filled),
      )
