-- ===== src/Base/Sorted.antt =====
-- What `sort` returns is sorted, for a total order, and holds what it was given.
use mathlib.Core.Path.{◌≡◌}
use mathlib.Core.Bool.{Bool, true, false}
use mathlib.Core.List.{List, [], ◌∷◌}
use nesso.Base.Tests.{Bool-cases}
use mathlib.Core.Logic.{inl, inr}
use nesso.Base.Lists.{All, All-weaken}
use nesso.Base.Sort.{insert_sorted, sort}

module _ {ℓ} {A : Type ℓ} (le : A → A → Bool) where
  abbrev pub IsSorted : List A → Type 0
  IsSorted [] = Unit {0}
  IsSorted (x ∷ xs) = All (λ y. le x y ≡ true) xs × IsSorted xs

  pub insert_sorted-All {κ} :
      (P : A → Type κ) (x : A) (l : List A) → P x → All P l → All P (insert_sorted le x l)
  unfolding insert_sorted
  insert_sorted-All P x [] p h = (p, tt)
  insert_sorted-All P x (y ∷ l) p h = elim (Bool-cases (le x y)) [
    | inl before ↦ rw before (p, h)
    | inr behind ↦ rw behind (h.0, insert_sorted-All P x l p h.1)
  ]

  pub sort-All {κ} : (P : A → Type κ) (l : List A) → All P l → All P (sort le l)
  unfolding sort
  sort-All P [] h = tt
  sort-All P (x ∷ l) h = insert_sorted-All P x (sort le l) h.0 (sort-All P l h.1)

  module _ (le_trans : (a b c : A) → le a b ≡ true → le b c ≡ true → le a c ≡ true)
      (le_total : (a b : A) → le a b ≡ false → le b a ≡ true) where
    insert_sorted-IsSorted : (x : A) (l : List A) → IsSorted l → IsSorted (insert_sorted le x l)
    unfolding insert_sorted
    insert_sorted-IsSorted x [] h = (tt, tt)
    insert_sorted-IsSorted x (y ∷ l) h = elim (Bool-cases (le x y)) [
      | inl before ↦ rw before (
        (
          before,
          All-weaken (λ z. le y z ≡ true) (λ z. le x z ≡ true) (λ z k. le_trans x y z before k) l
              h.0,
        ),
        h,
      )
      | inr behind ↦ rw behind (
        insert_sorted-All (λ z. le y z ≡ true) x l (le_total x y behind) h.0,
        insert_sorted-IsSorted x l h.1,
      )
    ]

    pub sort-IsSorted : (l : List A) → IsSorted (sort le l)
    unfolding sort
    sort-IsSorted [] = tt
    sort-IsSorted (x ∷ l) = insert_sorted-IsSorted x (sort le l) (sort-IsSorted l)
