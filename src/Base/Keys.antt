-- ===== src/Base/Keys.antt =====
-- Maps whose keys are distinct, and what holds of all their entries.
use Prim.Native.Nat.{ℕ}
use mathlib.Core.Path.{◌≡◌, refl, subst}
use mathlib.Core.Logic.{◌≢◌, inl, inr}
use mathlib.Core.List.{[], ◌∷◌}
use mathlib.Core.Option.{none, some}
use native.Mathlib.Omega.{arith}
use nesso.Base.Tests.{◌==◌, Bool-cases}
use nesso.Base.Lists.{All, All-weaken}
use nesso.Base.Maps.{Map, lookup, insert, remove}

-- A key stands in a map once.
abbrev pub DistinctKeys {ℓ} : {V : Type ℓ} → Map V → Type ℓ
DistinctKeys [] = Unit
DistinctKeys (x ∷ xs) = All (λ y. y.0 ≢ x.0) xs × DistinctKeys xs

module _ {ℓ} {V : Type ℓ} where
  pub insert-All {κ} :
      (P : ℕ × V → Type κ) (k : ℕ) (v : V) (m : Map V) → P (k, v) → All P m → All P (insert k v m)
  unfolding insert
  insert-All P k v [] p h = (p, tt)
  insert-All P k v ((j, w) ∷ m) p h = elim (Bool-cases (j == k)) [
    | inl same ↦ rw same (p, h.1)
    | inr other ↦ rw other (h.0, insert-All P k v m p h.1)
  ]

  pub remove-All {κ} : (P : ℕ × V → Type κ) (k : ℕ) (m : Map V) → All P m → All P (remove k m)
  unfolding remove
  remove-All P k [] h = tt
  remove-All P k ((j, v) ∷ m) h = elim (Bool-cases (j == k)) [
    | inl same ↦ rw same (remove-All P k m h.1)
    | inr other ↦ rw other (h.0, remove-All P k m h.1)
  ]

  pub lookup-All {κ} :
      (P : ℕ × V → Type κ) (k : ℕ) (v : V) (m : Map V) → All P m → lookup k m ≡ some v → P (k, v)
  unfolding lookup
  lookup-All P k v [] h e = absurd (ground (arith, e))
  lookup-All P k v ((j, w) ∷ m) h e = elim (Bool-cases (j == k)) [
    | inl same ↦
        let found : some w ≡ some v = rw same at e in
        let here : (j, w) ≡ (k, v) = ground (arith, found) in subst P here h.0
    | inr other ↦ lookup-All P k v m h.1 (rw other at e)
  ]

  pub lookup_absent : (k : ℕ) (m : Map V) → All (λ e. e.0 ≢ k) m → lookup k m ≡ none
  unfolding lookup
  lookup_absent k [] h = refl
  lookup_absent k ((j, v) ∷ m) h = ground (arith, lookup_absent k m h.1)

  pub remove_absent : (k : ℕ) (m : Map V) → All (λ y. y.0 ≢ k) m → remove k m ≡ m
  unfolding remove
  remove_absent k [] h = refl
  remove_absent k ((j, v) ∷ m) h = ground (arith, remove_absent k m h.1)

  pub remove-absent : (id : ℕ) (m : Map V) → All (λ e. e.0 ≢ id) (remove id m)
  unfolding remove
  remove-absent id [] = tt
  remove-absent id ((j, v) ∷ m) = elim (Bool-cases (j == id)) [
    | inl same ↦ rw same (remove-absent id m)
    | inr other ↦ rw other ((λ e. ground arith), remove-absent id m)
  ]

  pub insert-DistinctKeys :
      (k : ℕ) (v : V) (m : Map V) → DistinctKeys m → DistinctKeys (insert k v m)
  unfolding insert
  insert-DistinctKeys k v [] d = (tt, tt)
  insert-DistinctKeys k v ((j, w) ∷ m) d = elim (Bool-cases (j == k)) [
    | inl same ↦ rw same (
      All-weaken (λ (y : ℕ × V). y.0 ≢ j) (λ (y : ℕ × V). y.0 ≢ k) (λ y ne. ground (arith, ne)) m
          d.0,
      d.1,
    )
    | inr other ↦ rw other (
      insert-All (λ (y : ℕ × V). y.0 ≢ j) k v m (λ e. ground arith) d.0,
      insert-DistinctKeys k v m d.1,
    )
  ]

  pub remove-DistinctKeys : (id : ℕ) (m : Map V) → DistinctKeys m → DistinctKeys (remove id m)
  unfolding remove
  remove-DistinctKeys id [] d = tt
  remove-DistinctKeys id ((j, v) ∷ m) d = elim (Bool-cases (j == id)) [
    | inl same ↦ rw same (remove-DistinctKeys id m d.1)
    | inr other ↦
        rw other (remove-All (λ (e : ℕ × V). e.0 ≢ j) id m d.0, remove-DistinctKeys id m d.1)
  ]
