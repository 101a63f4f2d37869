-- ===== src/Prelude/Map/Reorder.antt =====
-- `std::unordered_map` when its entries are walked in another order.
use mathlib.Core.Path.{subst}
use mathlib.Core.List.{Permᴰ}
use mathlib.Core.List.Permᴰ
use kuro_net.Prelude.{
  ◌≡◌, refl, sym, ◌∙◌, Option-cases, Bool-cases, inl, inr, List, ◌∷◌, arith, ◌==◌,
}
use kuro_net.Prelude.Tests.{Eq}
use kuro_net.Prelude.Map.{lookup, erase, emplace, IsUnique, erase-IsUnique, emplace-IsUnique}

module _ {ℓ κ} {K : Type ℓ} {V : Type κ} ⦃e : Eq K⦄ where
  -- What does not depend on the order: what stands under a key, and that keys are unique.
  abbrev pub IsSameMap : List (K × V) → List (K × V) → Type (ℓ ⊔ κ)
  IsSameMap m n = ((k : K) → lookup k m ≡ lookup k n) × IsUnique n

  swap_same :
      (a b : K × V) (l : List (K × V)) → IsUnique (a ∷ b ∷ l) → IsSameMap (a ∷ b ∷ l) (b ∷ a ∷ l)
  unfolding lookup
  swap_same (i, v) (j, x) l u = (
    λ k. ground (arith, e.same_iff i j, e.same_iff j k, e.same_iff i k),
    ground (arith, e.same_iff i j, e.same_iff j i),
  )

  cons_same :
      (a : K × V) (m n : List (K × V))
      → IsUnique (a ∷ m)
      → IsSameMap m n
      → IsSameMap (a ∷ m) (a ∷ n)
  unfolding lookup
  cons_same (i, v) m n u (found, unique) = (λ k. rw (found k) refl, (sym (found i) ∙ u.0, unique))

  pub reorder_lem : {m n : List (K × V)} → Permᴰ m n → IsUnique m → IsSameMap m n
  reorder_lem Permᴰ.nil u = (λ k. refl, tt)
  reorder_lem (Permᴰ.cons {a} {b} {l₁ = m} {l₂ = n} same d) u =
      subst (λ c. IsSameMap (a ∷ m) (c ∷ n)) same (cons_same a m n u (reorder_lem d u.1))
  reorder_lem (Permᴰ.swap {a} {b} {a' = a'} {b' = b'} {l = l} first second) u =
      subst (λ c. IsSameMap (a ∷ b ∷ l) (a' ∷ c ∷ l)) first
        (subst (λ c. IsSameMap (a ∷ b ∷ l) (c ∷ a ∷ l)) second (swap_same a b l u))
  reorder_lem (Permᴰ.trans d f) u =
      let (found, unique) = reorder_lem d u in
      let (found', unique') = reorder_lem f unique in (λ k. found k ∙ found' k, unique')

  cons_erase :
      (k : K) (a : K × V) (m n : List (K × V))
      → Permᴰ (erase k m) (erase k n)
      → Permᴰ (erase k (a ∷ m)) (erase k (a ∷ n))
  unfolding erase
  cons_erase k (i, v) m n d = elim (Bool-cases (i == k)) [
    | inl hit ↦ rw (erase, hit) d
    | inr miss ↦ rw (erase, miss) (Permᴰ.cons refl d)
  ]

  swap_erase :
      (k : K) (a b : K × V) (l : List (K × V)) → Permᴰ (erase k (a ∷ b ∷ l)) (erase k (b ∷ a ∷ l))
  unfolding erase
  swap_erase k (i, v) (j, x) l = elim (Bool-cases (i == k)) [
    | inl hit ↦ rw (erase, hit) (Permᴰ.refl (erase k ((j, x) ∷ l)))
    | inr miss ↦ elim (Bool-cases (j == k)) [
      | inl hit ↦ rw (erase, miss, hit) (Permᴰ.cons refl (Permᴰ.refl (erase k l)))
      | inr other ↦ rw (erase, miss, other) (Permᴰ.swap refl refl)
    ]
  ]

  pub erase-reorder : {m n : List (K × V)} (k : K) → Permᴰ m n → Permᴰ (erase k m) (erase k n)
  unfolding erase
  erase-reorder k Permᴰ.nil = Permᴰ.nil
  erase-reorder k (Permᴰ.cons {a} {b} {l₁ = m} {l₂ = n} same d) =
      subst (λ c. Permᴰ (erase k (a ∷ m)) (erase k (c ∷ n))) same
        (cons_erase k a m n (erase-reorder k d))
  erase-reorder k (Permᴰ.swap {a} {b} {a' = a'} {b' = b'} {l = l} first second) =
      subst (λ c. Permᴰ (erase k (a ∷ b ∷ l)) (erase k (a' ∷ c ∷ l))) first
        (subst (λ c. Permᴰ (erase k (a ∷ b ∷ l)) (erase k (c ∷ a ∷ l))) second (swap_erase k a b l))
  erase-reorder k (Permᴰ.trans d f) = Permᴰ.trans (erase-reorder k d) (erase-reorder k f)

  pub emplace-reorder :
      {m n : List (K × V)} (k : K) (v : V)
      → Permᴰ m n
      → lookup k m ≡ lookup k n
      → Permᴰ (emplace k v m) (emplace k v n)
  unfolding emplace
  emplace-reorder {m} {n} k v d found = elim (Option-cases (lookup k m)) [
    | inl absent ↦ rw (emplace, ← found, absent) (Permᴰ.cons refl d)
    | inr (old, there) ↦ rw (emplace, ← found, there) d
  ]

-- Another order of the entries of a map with unique keys.
pub record Reordered {ℓ κ} {K : Type ℓ} {V : Type κ} ⦃e : Eq K⦄ (m : List (K × V))
    : Type (ℓ ⊔ κ) where
  pub entries : List (K × V)
  pub perm : Permᴰ m entries
  pub unique : IsUnique m

module _ {ℓ κ} {K : Type ℓ} {V : Type κ} ⦃e : Eq K⦄ where
  pub lookup-Reordered :
      (k : K) (m : List (K × V)) (r : Reordered m) → lookup k r.entries ≡ lookup k m
  lookup-Reordered k m r = sym ((reorder_lem r.perm r.unique).0 k)

  abbrev pub erase-Reordered : (k : K) (m : List (K × V)) → Reordered m → Reordered (erase k m)
  erase-Reordered k m r = record {
    entries = erase k r.entries;
    perm = erase-reorder k r.perm;
    unique = erase-IsUnique k m r.unique;
  }

  abbrev pub emplace-Reordered :
      (k : K) (v : V) (m : List (K × V)) → Reordered m → Reordered (emplace k v m)
  emplace-Reordered k v m r = record {
    entries = emplace k v r.entries;
    perm = emplace-reorder k v r.perm ((reorder_lem r.perm r.unique).0 k);
    unique = emplace-IsUnique k v m r.unique;
  }
