-- ===== src/Base/BTreeMap/Entries.antt =====
-- Predicates on all entries of a map, and the order of its keys.
use mathlib.Core.Path.{◌≡◌}
use mathlib.Core.Bool.{Bool}
use mathlib.Core.Logic.{inl, inr}
use mathlib.Core.Option.{some}
use mathlib.Core.List.{[], ◌∷◌}
use cultnet_rs.Base.Tests.{Bool-cases}
use cultnet_rs.Base.Lists.{All}
use cultnet_rs.Base.Order.{Ord}
use cultnet_rs.Base.BTreeMap.{BTreeMap, insert, remove, retain, get}

module _ {ℓ κ μ} {K : Type ℓ} {V : Type κ} ⦃o : Ord K⦄ (P : K × V → Type μ) where
  pub All-insert : (k : K) (v : V) (m : BTreeMap K V) → All P m → P (k, v) → All P (insert k v m)
  unfolding insert
  All-insert k v [] h p = (p, tt)
  All-insert k v ((j, w) ∷ m) (hj, hm) p = elim (Bool-cases (o.lt k j)) [
    | inl before ↦ rw before (p, (hj, hm))
    | inr after ↦ rw after (elim (Bool-cases (o.eq j k)) [
      | inl same ↦ rw same (p, hm)
      | inr other ↦ rw other (hj, All-insert k v m hm p)
    ])
  ]

  pub All-remove : (k : K) (m : BTreeMap K V) → All P m → All P (remove k m)
  unfolding remove
  All-remove k [] h = h
  All-remove k ((j, w) ∷ m) (hj, hm) = elim (Bool-cases (o.eq j k)) [
    | inl same ↦ rw same (All-remove k m hm)
    | inr other ↦ rw other (hj, All-remove k m hm)
  ]

  pub All-get : (k : K) (m : BTreeMap K V) {v : V} → All P m → get k m ≡ some v → P (k, v)
  unfolding get
  All-get k [] h e = cc
  All-get k ((j, w) ∷ m) {v} h e = elim (Bool-cases (o.eq j k)) [
    | inl same ↦
        let ew : some w ≡ some v = rw same at e in
        let ev : w ≡ v = cc in rw (← (o.eq_iff j k).0 same, ← ev) h.0
    | inr other ↦ All-get k m h.1 (rw other at e)
  ]

module _ {ℓ κ μ} {K : Type ℓ} {V : Type κ} (P : K × V → Type μ) where
  pub All-retain : (p : V → Bool) (m : BTreeMap K V) → All P m → All P (retain p m)
  unfolding retain
  All-retain p [] h = h
  All-retain p ((k, v) ∷ m) (hk, hm) = elim (Bool-cases (p v)) [
    | inl kept ↦ rw kept (hk, All-retain p m hm)
    | inr dropped ↦ rw dropped (All-retain p m hm)
  ]

  pub All-weaken {ν} :
      (Q : K × V → Type ν) (m : BTreeMap K V)
      → ((k : K) (v : V) → P (k, v) → Q (k, v))
      → All P m
      → All Q m
  All-weaken Q [] f h = tt
  All-weaken Q ((k, v) ∷ m) f (hk, hm) = (f k v hk, All-weaken Q m f hm)
