-- ===== src/Base/Maps.antt =====
-- Hash maps and B-tree maps as association lists with one entry for a key. An iteration runs in
-- the order of first insertion, where the source's order is unspecified.
use mathlib.Core.Path.{◌≡◌, refl, subst}
use mathlib.Core.List.{List, [], ◌∷◌}
use mathlib.Core.Option.{Option, none, some}
use mathlib.Core.Logic.{inl, inr}
use native.Mathlib.Omega.{arith}
use queryfabric.Base.Tests.{Key, ◌==◌, if◌then◌else◌, Bool-cases, some_inj, ==_refl}
use queryfabric.Base.Lists.{All}

module _ {ℓ κ} {K : Type ℓ} ⦃e : Key K⦄ {V : Type κ} where
  abbrev pub lookup : K → List (K × V) → Option V
  lookup k [] = none
  lookup k ((j, v) ∷ m) = if j == k then some v else lookup k m

  -- An insertion replaces the value of a key that is there.
  abbrev pub insert : K → V → List (K × V) → List (K × V)
  insert k v [] = (k, v) ∷ []
  insert k v ((j, w) ∷ m) = if j == k then (k, v) ∷ m else (j, w) ∷ insert k v m

  abbrev pub remove : K → List (K × V) → List (K × V)
  remove k [] = []
  remove k ((j, w) ∷ m) = if j == k then remove k m else (j, w) ∷ remove k m

  pub lookup-insert :
      (k j : K) (v : V) (m : List (K × V))
      → lookup j (insert k v m) ≡ (if k == j then some v else lookup j m)
  lookup-insert k j v [] = refl
  lookup-insert k j v ((i, w) ∷ m) =
      ground (arith, e.same_iff k j, e.same_iff i k, e.same_iff i j, lookup-insert k j v m)

  pub lookup-remove :
      (k j : K) (m : List (K × V)) → lookup j (remove k m) ≡ (if k == j then none else lookup j m)
  lookup-remove k j [] = ground arith
  lookup-remove k j ((i, w) ∷ m) =
      ground (arith, e.same_iff k j, e.same_iff i k, e.same_iff i j, lookup-remove k j m)

  pub lookup-insert_self : (k : K) (v : V) (m : List (K × V)) → lookup k (insert k v m) ≡ some v
  lookup-insert_self k v m = rw (lookup-insert k k v m) (rw (==_refl k) refl)

  pub lookup-remove_self : (k : K) (m : List (K × V)) → lookup k (remove k m) ≡ none
  lookup-remove_self k m = rw (lookup-remove k k m) (rw (==_refl k) refl)

  -- A predicate on the values.
  abbrev pub Values {μ} : (V → Type μ) → List (K × V) → Type μ
  Values P m = All (λ (p : K × V). P p.1) m

  pub Values-insert {μ} :
      (P : V → Type μ) (k : K) (v : V) (m : List (K × V))
      → P v
      → Values P m
      → Values P (insert k v m)
  Values-insert P k v [] h all = (h, tt)
  Values-insert P k v ((j, w) ∷ m) h all = elim (Bool-cases (j == k)) [
    | inl same ↦ rw same (h, all.1)
    | inr other ↦ rw other (all.0, Values-insert P k v m h all.1)
  ]

  pub Values-remove {μ} :
      (P : V → Type μ) (k : K) (m : List (K × V)) → Values P m → Values P (remove k m)
  Values-remove P k [] all = tt
  Values-remove P k ((j, w) ∷ m) all = elim (Bool-cases (j == k)) [
    | inl same ↦ rw same (Values-remove P k m all.1)
    | inr other ↦ rw other (all.0, Values-remove P k m all.1)
  ]

  pub Values-lookup {μ} :
      (P : V → Type μ) (k : K) (m : List (K × V)) {v : V} → Values P m → lookup k m ≡ some v → P v
  Values-lookup P k [] all h = cc
  Values-lookup P k ((j, w) ∷ m) all h = elim (Bool-cases (j == k)) [
    | inl same ↦ subst P (some_inj (rw same at h)) all.0
    | inr other ↦ Values-lookup P k m all.1 (rw other at h)
  ]
