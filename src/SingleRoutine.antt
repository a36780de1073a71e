-- ===== src/SingleRoutine.antt =====
-- monitor/utils/single_routine.go: a routine that is started anew cancels the one before. A routine is
-- its number in the order of the starts, with whether its context is cancelled.
use evm_arbitrage.Base.{
  ℕ, zero, suc, ◌≡◌, refl, sym, ap, ◌∙◌, Bool, true, false, Option, none, some, List, [], ◌∷◌, ◌++◌,
  length, set, replicate, length-append, length-replicate, arith,
}
pub mod Tests

pub record SingleRoutine : Type 0 where
  pub cancel : Option ℕ

-- `NewSingleRoutine`
abbrev pub new_single_routine : SingleRoutine
new_single_routine = record { cancel = none }

-- `r.cancel()`, if there is one.
abbrev cancelled : Option ℕ → List Bool → List Bool
cancelled none routines = routines
cancelled (some i) routines = set routines i true

-- `Run`, with the routines that were started.
unfoldable pub run : SingleRoutine × List Bool → SingleRoutine × List Bool
run (r, routines) =
    (record { cancel = some (length routines) }, cancelled r.cancel routines ++ false ∷ [])

unfoldable pub runs : ℕ → SingleRoutine × List Bool → SingleRoutine × List Bool
runs zero s = s
runs (suc n) s = run (runs n s)

set-replicate : (n : ℕ) → set (replicate n true ++ false ∷ []) n true ≡ replicate (suc n) true
set-replicate zero = refl
set-replicate (suc n) = ap (λ l. true ∷ l) (set-replicate n)

length-started : (n : ℕ) → length (replicate n true ++ false ∷ []) ≡ suc n
length-started n =
    length-append (replicate n true) (false ∷ []) ∙ omega (arith, length-replicate n true)

-- After any number of starts by `Run`, one at least, every routine but the last has its context
-- cancelled, and the last has not.
pub runs-last_only :
    (n : ℕ)
    → runs (suc n) (new_single_routine, [])
      ≡ (record { cancel = some n }, replicate n true ++ false ∷ [])
unfolding runs run
runs-last_only zero = refl
runs-last_only (suc n) = ap run (runs-last_only n) ∙ rw (length-started n, set-replicate n) refl
