-- ===== src/Base/GoMap.antt =====
-- A Go map as an association list. Go leaves the order of a `range` over a map open: a loop takes
-- the order as an argument, and the theorems hold for every order.
use mathlib.Core.List.{Permᴰ}
use evm_arbitrage.Base.{
  ◌≡◌, ◌≢◌, refl, sym, ◌∙◌, subst, Bool, All, true, Option, none, some, List, [], ◌∷◌, arith,
  if◌then◌else◌, Bool-cases, inl, inr, ◌↔◌,
}

-- A type of keys: its `==`.
pub record Key {ℓ} (K : Type ℓ) : Type ℓ where
  pub beq : K → K → Bool
  pub beq_iff : (j k : K) → (beq j k ≡ true) ↔ (j ≡ k)

module _ {ℓ κ} {K : Type ℓ} {V : Type κ} ⦃e : Key K⦄ where
  -- m[k]
  unfoldable pub lookup : K → List (K × V) → Option V
  lookup k [] = none
  lookup k ((j, v) ∷ m) = if e.beq j k then some v else lookup k m

  -- m[k] = v
  unfoldable pub insert : K → V → List (K × V) → List (K × V)
  insert k v [] = (k, v) ∷ []
  insert k v ((j, w) ∷ m) = if e.beq j k then (j, v) ∷ m else (j, w) ∷ insert k v m

  pub lookup-insert :
      (k j : K) (v : V) (m : List (K × V))
      → lookup j (insert k v m) ≡ (if e.beq k j then some v else lookup j m)
  unfolding lookup insert
  lookup-insert k j v [] = refl
  lookup-insert k j v ((i, w) ∷ m) =
      ground (arith, e.beq_iff k j, e.beq_iff i k, e.beq_iff i j, lookup-insert k j v m)

  pub lookup-insert_self : (k : K) (v : V) (m : List (K × V)) → lookup k (insert k v m) ≡ some v
  lookup-insert_self k v m = rw (lookup-insert k k v m, (e.beq_iff k k).1 refl)

  pub lookup-insert_ne :
      (k j : K) (v : V) (m : List (K × V)) → k ≢ j → lookup j (insert k v m) ≡ lookup j m
  lookup-insert_ne k j v m h = ground (arith, lookup-insert k j v m, e.beq_iff k j)

-- The values in the order of the association list, and the keys.
abbrev pub values {ℓ κ} : {K : Type ℓ} {V : Type κ} → List (K × V) → List V
values [] = []
values ((k, v) ∷ m) = v ∷ values m

-- A Go `range` visits the entries in some order.
abbrev pub IsRange {ℓ} : {A : Type ℓ} → (List A → List A) → Type ℓ
IsRange {A = A} pick = (l : List A) → Permᴰ (pick l) l

pub All-perm {ℓ κ} : {A : Type ℓ} (P : A → Type κ) {l m : List A} → Permᴰ l m → All P m → All P l
All-perm P Permᴰ.nil h = h
All-perm P (Permᴰ.cons e p) h = (subst P (sym e) h.0, All-perm P p h.1)
All-perm P (Permᴰ.swap e f) h = (subst P (sym e) h.1.0, (subst P (sym f) h.0, h.1.1))
All-perm P (Permᴰ.trans p q) h = All-perm P p (All-perm P q h)

pub perm-All {ℓ κ} : {A : Type ℓ} (P : A → Type κ) {l m : List A} → Permᴰ l m → All P l → All P m
perm-All P Permᴰ.nil h = h
perm-All P (Permᴰ.cons e p) h = (subst P e h.0, perm-All P p h.1)
perm-All P (Permᴰ.swap e f) h = (subst P f h.1.0, (subst P e h.0, h.1.1))
perm-All P (Permᴰ.trans p q) h = perm-All P q (perm-All P p h)

module _ {ℓ κ} {K : Type ℓ} {V : Type κ} ⦃e : Key K⦄ where
  -- No key stands twice.
  abbrev pub IsMap : List (K × V) → Type κ
  IsMap [] = Unit
  IsMap ((k, v) ∷ m) = (lookup k m ≡ none) × IsMap m

  pub insert-IsMap : (k : K) (v : V) (m : List (K × V)) → IsMap m → IsMap (insert k v m)
  unfolding insert lookup
  insert-IsMap k v [] h = (refl, tt)
  insert-IsMap k v ((j, w) ∷ m) h = elim (Bool-cases (e.beq j k)) [
    | inl same ↦ rw same h
    | inr other ↦ rw other (
      ground (arith, lookup-insert k j v m, e.beq_iff k j, e.beq_iff j k, h.0),
      insert-IsMap k v m h.1,
    )
  ]

  -- What holds of every value that a lookup finds holds of every value of the map.
  pub All-values {ι} :
      (P : V → Type ι) (m : List (K × V))
      → IsMap m
      → ((k : K) (v : V) → lookup k m ≡ some v → P v)
      → All P (values m)
  unfolding lookup
  All-values P [] h f = tt
  All-values P ((k, v) ∷ m) h f = (
    f k v (rw ((e.beq_iff k k).1 refl)),
    All-values P m h.1 λ j w l. f j w (ground (arith, e.beq_iff k j, h.0)),
  )

  -- The same entries in another order are the same map.
  abbrev pub SameMap : List (K × V) → List (K × V) → Type (ℓ ⊔ κ)
  SameMap l m = IsMap l × ((k : K) → lookup k l ≡ lookup k m)

  swap-SameMap :
      (a b : K × V) (l : List (K × V)) → IsMap (b ∷ a ∷ l) → SameMap (a ∷ b ∷ l) (b ∷ a ∷ l)
  unfolding lookup
  swap-SameMap a b l h = (
    (
      ground (arith, e.beq_iff a.0 b.0, e.beq_iff b.0 a.0),
      (ground (arith, e.beq_iff a.0 b.0, h.0), h.1.1),
    ),
    λ k. ground (arith, e.beq_iff a.0 b.0, e.beq_iff a.0 k, e.beq_iff b.0 k, e.beq_iff b.0 a.0),
  )

  cons-SameMap :
      (a : K × V) (l m : List (K × V)) → SameMap l m → IsMap (a ∷ m) → SameMap (a ∷ l) (a ∷ m)
  unfolding lookup
  cons-SameMap a l m s h = ((s.1 a.0 ∙ h.0, s.0), λ k. ground (arith, s.1 k))

  pub perm-SameMap : {l m : List (K × V)} → Permᴰ l m → IsMap m → SameMap l m
  perm-SameMap Permᴰ.nil h = (tt, λ k. refl)
  perm-SameMap (Permᴰ.cons {a} {b} {l₁} {l₂} p q) h =
      subst (λ c. SameMap (c ∷ l₁) (b ∷ l₂)) (sym p) (cons-SameMap b l₁ l₂ (perm-SameMap q h.1) h)
  perm-SameMap (Permᴰ.swap {a} {b} {a'} {b'} {l} p q) h =
      subst (λ c. SameMap (c ∷ b ∷ l) (a' ∷ b' ∷ l)) (sym p)
        (subst (λ c. SameMap (b' ∷ c ∷ l) (a' ∷ b' ∷ l)) (sym q) (swap-SameMap b' a' l h))
  perm-SameMap (Permᴰ.trans p q) h =
      let t = perm-SameMap q h in let s = perm-SameMap p t.0 in (s.0, λ k. s.1 k ∙ t.1 k)
