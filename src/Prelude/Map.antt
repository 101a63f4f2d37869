-- ===== src/Prelude/Map.antt =====
-- `std::unordered_map` as an association list. The order of the list stands for the order in
-- which the container is walked, which the standard leaves open.
pub mod Reorder
use mathlib.Core.Path.{◌≡◌, refl}
use mathlib.Core.Logic.{◌≢◌, ◌⊎◌, inl, inr}
use mathlib.Core.Bool.{false}
use mathlib.Core.Option.{Option, none, some}
use mathlib.Core.List.{List, [], ◌∷◌, ◌++◌}
use native.Mathlib.Omega.{arith}
use kuro_net.Prelude.Lists.{All}
use kuro_net.Prelude.Tests.{Eq, ◌==◌, if◌then◌else◌, beq_refl, eq_of_beq, Bool-cases}

-- What stands under a key after `v` has been put in: an entry that is there already stays.
abbrev pub kept_or {ℓ} : {V : Type ℓ} → Option V → V → V
kept_or none v = v
kept_or (some old) v = old

module _ {ℓ κ} {K : Type ℓ} {V : Type κ} ⦃e : Eq K⦄ where
  -- `m.find(k)`, with `none` for `m.end()`.
  unfoldable pub lookup : K → List (K × V) → Option V
  lookup k [] = none
  lookup k ((j, v) ∷ m) = let rest = lookup k m in if j == k then some v else rest

  -- `m.erase(it)` for the entry of `k`.
  unfoldable pub erase : K → List (K × V) → List (K × V)
  erase k [] = []
  erase k ((j, v) ∷ m) = let rest = erase k m in if j == k then rest else (j, v) ∷ rest

  -- `m.emplace(k, v)`: an entry that is there already stays.
  unfoldable pub emplace : K → V → List (K × V) → List (K × V)
  unfolding lookup
  emplace k v m = elim (lookup k m) [ none ↦ (k, v) ∷ m | some _ ↦ m ]

  pub lookup-erase :
      (k j : K) (m : List (K × V)) → lookup j (erase k m) ≡ (if k == j then none else lookup j m)
  unfolding lookup erase
  lookup-erase k j [] = ground arith
  lookup-erase k j ((i, w) ∷ m) =
      ground (arith, e.same_iff k j, e.same_iff i k, e.same_iff i j, lookup-erase k j m)

  pub lookup-emplace :
      (k j : K) (v : V) (m : List (K × V))
      → lookup j (emplace k v m) ≡ (if k == j then some (kept_or (lookup k m) v) else lookup j m)
  unfolding emplace
  lookup-emplace k j v m = ground (arith, e.same_iff k j)

  pub lookup-erase_self : (k : K) (m : List (K × V)) → lookup k (erase k m) ≡ none
  lookup-erase_self k m = rw (lookup-erase k k m, beq_refl k)

  pub lookup-erase_ne : (k j : K) (m : List (K × V)) → j ≢ k → lookup j (erase k m) ≡ lookup j m
  lookup-erase_ne k j m h = rw (lookup-erase k j m) (ground (arith, e.same_iff k j))

  pub lookup-emplace_self :
      (k : K) (v : V) (m : List (K × V)) → lookup k (emplace k v m) ≡ some (kept_or (lookup k m) v)
  lookup-emplace_self k v m = rw (lookup-emplace k k v m, beq_refl k)

  pub lookup-emplace_ne :
      (k j : K) (v : V) (m : List (K × V)) → j ≢ k → lookup j (emplace k v m) ≡ lookup j m
  lookup-emplace_ne k j v m h = rw (lookup-emplace k j v m) (ground (arith, e.same_iff k j))

-- Each key has one entry, as in the container.
abbrev pub IsUnique {ℓ κ} : {K : Type ℓ} {V : Type κ} ⦃e : Eq K⦄ → List (K × V) → Type κ
IsUnique [] = Unit
IsUnique ((k, v) ∷ m) = (lookup k m ≡ none) × IsUnique m

module _ {ℓ κ} {K : Type ℓ} {V : Type κ} ⦃e : Eq K⦄ where
  pub erase-IsUnique : (k : K) (m : List (K × V)) → IsUnique m → IsUnique (erase k m)
  unfolding erase
  erase-IsUnique k [] u = tt
  erase-IsUnique k ((j, v) ∷ m) u = ground (arith, erase-IsUnique k m u.1, lookup-erase k j m)

  pub emplace-IsUnique : (k : K) (v : V) (m : List (K × V)) → IsUnique m → IsUnique (emplace k v m)
  unfolding emplace
  emplace-IsUnique k v m u = ground arith

  pub erase-absent : (k : K) (m : List (K × V)) → lookup k m ≡ none → erase k m ≡ m
  unfolding lookup erase
  erase-absent k [] h = refl
  erase-absent k ((j, v) ∷ m) h = ground (arith, erase-absent k m)

  middle_ne :
      (j k : K) (v : V) (xs ys : List (K × V))
      → lookup j (xs ++ (k, v) ∷ ys) ≡ none
      → (k == j) ≡ false
  unfolding lookup
  middle_ne j k v [] ys h = ground arith
  middle_ne j k v ((i, w) ∷ xs) ys h = ground (arith, middle_ne j k v xs ys)

  -- The erased entry goes from its place.
  pub erase-middle :
      (k : K) (v : V) (xs ys : List (K × V))
      → IsUnique (xs ++ (k, v) ∷ ys)
      → erase k (xs ++ (k, v) ∷ ys) ≡ xs ++ ys
  unfolding erase
  erase-middle k v [] ys u = rw (beq_refl k) (erase-absent k ys u.0)
  erase-middle k v ((j, w) ∷ xs) ys u =
      ground (
        arith,
        middle_ne j k v xs ys u.0,
        e.same_iff j k,
        e.same_iff k j,
        erase-middle k v xs ys u.1,
      )

  module _ {μ} (P : K × V → Type μ) where
    pub lookup-All : (k : K) (v : V) (m : List (K × V)) → All P m → lookup k m ≡ some v → P (k, v)
    unfolding lookup
    lookup-All k v [] all h = cc
    lookup-All k v ((j, w) ∷ m) all h = elim (Bool-cases (j == k)) [
      | inl hit ↦ let same : w ≡ v = ground (arith, hit) in rw (← eq_of_beq j k hit, ← same) all.0
      | inr miss ↦ lookup-All k v m all.1 (ground (arith, miss))
    ]

    pub erase-All : (k : K) (m : List (K × V)) → All P m → All P (erase k m)
    unfolding erase
    erase-All k [] all = tt
    erase-All k ((j, v) ∷ m) all = ground (arith, erase-All k m all.1)

    pub emplace-All :
        (k : K) (v : V) (m : List (K × V)) → P (k, v) → All P m → All P (emplace k v m)
    unfolding emplace
    emplace-All k v m h all = ground arith

module _ {ℓ κ} {K : Type ℓ} {V : Type κ} ⦃e : Eq K⦄ where
  -- An entry behind `erase` was there before.
  pub erase-some :
      (i k : K) (v : V) (m : List (K × V)) → lookup k (erase i m) ≡ some v → lookup k m ≡ some v
  erase-some i k v m h = elim (Bool-cases (i == k)) [
    | inl same ↦ cc (rw (lookup-erase i k m, same) at h)
    | inr other ↦ rw (lookup-erase i k m, other) at h
  ]

  -- An entry behind `emplace` was there before, or is the new one.
  pub emplace-some :
      (i k : K) (new v : V) (m : List (K × V))
      → lookup k (emplace i new m) ≡ some v
      → (lookup k m ≡ some v) ⊎ ((i ≡ k) × (v ≡ new))
  emplace-some i k new v m h = ground (arith, e.same_iff i k, lookup-emplace i k new m)
