-- ===== src/Engine/Recovery/Order.antt =====
-- storage/engine.rs, `recover`: the entries of the index, sorted by location. The index is a map
-- whose locations grow with the log, so that sorting it puts the task of the last record last.
use nesso.Base.{
  ℕ, ◌≡◌, ◌≢◌, refl, ap, sym, ◌∙◌, Bool, true, false, List, [], ◌∷◌, ◌++◌, All, All-weaken, ◌==◌,
  arith, Bool-cases, inl, inr, ==_iff,
}
use nesso.Base.Maps.{Map, insert, remove}
use nesso.Base.Sort.{insert_sorted, sort, loc_le}
use nesso.Base.Keys.{DistinctKeys, remove-All, remove_absent}
use nesso.Base.Sorted.{IsSorted, sort-All, sort-IsSorted}
use nesso.Engine.{Loc}
use nesso.Engine.Recovery.{by_location}

abbrev entry_le : ℕ × Loc → ℕ × Loc → Bool
entry_le a b = loc_le a.1 b.1

-- `a` stands before `b` in the log.
abbrev pub Before : Loc → Loc → Type 0
Before a b = loc_le b a ≡ false

Before-le : (a b : Loc) → Before a b → loc_le a b ≡ true
Before-le (s, o) (t, p) h = ground arith

le_trans : (a b c : Loc) → loc_le a b ≡ true → loc_le b c ≡ true → loc_le a c ≡ true
le_trans (s, o) (t, p) (u, q) h k = ground arith

le_total : (a b : Loc) → loc_le a b ≡ false → loc_le b a ≡ true
le_total (s, o) (t, p) h = ground arith

by_location-IsSorted : (m : List (ℕ × Loc)) → IsSorted entry_le (by_location m)
by_location-IsSorted =
    sort-IsSorted entry_le (λ a b c. le_trans a.1 b.1 c.1) (λ a b. le_total a.1 b.1)

-- What stands before all others goes to the front, what stands behind all others to the end.
insert_sorted_front :
    (x : ℕ × Loc) (l : List (ℕ × Loc))
    → All (λ y. entry_le x y ≡ true) l
    → insert_sorted entry_le x l ≡ x ∷ l
unfolding insert_sorted
insert_sorted_front x [] h = refl
insert_sorted_front x (y ∷ l) h = rw h.0

insert_sorted_back :
    (x : ℕ × Loc) (l : List (ℕ × Loc))
    → All (λ y. Before y.1 x.1) l
    → insert_sorted entry_le x l ≡ l ++ x ∷ []
unfolding insert_sorted
insert_sorted_back x [] h = refl
insert_sorted_back x (y ∷ l) h = rw h.0 (ap (◌∷◌ y) (insert_sorted_back x l h.1))

insert_sorted-snoc :
    (x z : ℕ × Loc) (l : List (ℕ × Loc))
    → Before x.1 z.1
    → insert_sorted entry_le x (l ++ z ∷ []) ≡ insert_sorted entry_le x l ++ z ∷ []
unfolding insert_sorted
insert_sorted-snoc x z [] h = rw (Before-le x.1 z.1 h)
insert_sorted-snoc x z (y ∷ l) h = elim (Bool-cases (entry_le x y)) [
  | inl before ↦ rw before
  | inr behind ↦ rw behind (ap (◌∷◌ y) (insert_sorted-snoc x z l h))
]

-- Sorting an entry in and taking one of another key out do not disturb one another.
remove-insert_sorted_ne :
    (k : ℕ) (x : ℕ × Loc) (l : List (ℕ × Loc))
    → IsSorted entry_le l
    → (x.0 == k) ≡ false
    → remove k (insert_sorted entry_le x l) ≡ insert_sorted entry_le x (remove k l)
unfolding insert_sorted remove
remove-insert_sorted_ne k (j, w) [] h ne = rw (insert_sorted, remove, ne)
remove-insert_sorted_ne k (j, w) ((i, v) ∷ l) h ne = elim (Bool-cases (loc_le w v)) [
  | inl before ↦
      let P = λ (y : ℕ × Loc). loc_le w y.1 ≡ true in
      let behind : All P l =
        All-weaken (λ (y : ℕ × Loc). loc_le v y.1 ≡ true) P (λ y e. le_trans w v y.1 before e) l
          h.0 in
      elim (Bool-cases (i == k)) [
        | inl same ↦
            rw (before, remove, ne, same)
              (sym (insert_sorted_front (j, w) (remove k l) (remove-All P k l behind)))
        | inr other ↦ rw (before, remove, ne, other, before)
      ]
  | inr behind ↦
      let ih = remove-insert_sorted_ne k (j, w) l h.1 ne in
      elim (Bool-cases (i == k)) [
        | inl same ↦ rw (behind, remove, same) ih
        | inr other ↦ rw (behind, remove, other, behind) (ap (◌∷◌ (i, v)) ih)
      ]
]

remove-insert_sorted_self :
    (k : ℕ) (w : Loc) (l : List (ℕ × Loc)) → remove k (insert_sorted entry_le (k, w) l) ≡ remove k l
unfolding insert_sorted remove
remove-insert_sorted_self k w [] = ground arith
remove-insert_sorted_self k w ((i, v) ∷ l) = ground (arith, remove-insert_sorted_self k w l)

-- An insertion whose place is behind all others moves the task to the end of the sorted entries.
pub by_location-insert :
    (k : ℕ) (v : Loc) (m : Map Loc)
    → DistinctKeys m
    → All (λ e. Before e.1 v) m
    → by_location (insert k v m) ≡ remove k (by_location m) ++ (k, v) ∷ []
unfolding insert sort
by_location-insert k v [] d h = unfold insert_sorted remove in refl
by_location-insert k v ((j, w) ∷ m) d h = elim (Bool-cases (j == k)) [
  | inl same ↦
      let e : j ≡ k = (==_iff j k).0 same in
      let absent : All (λ (y : ℕ × Loc). y.0 ≢ k) (by_location m) =
        sort-All entry_le (λ (y : ℕ × Loc). y.0 ≢ k) m (rw (← e) d.0) in
      rw same (
        insert_sorted_back (k, v) (by_location m)
          (sort-All entry_le (λ (y : ℕ × Loc). Before y.1 v) m h.1)
        ∙ ap (λ (l : List (ℕ × Loc)). l ++ (k, v) ∷ [])
            (sym (
              ap (λ (i : ℕ). remove k (insert_sorted entry_le (i, w) (by_location m))) e
              ∙ remove-insert_sorted_self k w (by_location m)
              ∙ remove_absent k (by_location m) absent)))
  | inr other ↦ rw other (
      ap (insert_sorted entry_le (j, w)) (by_location-insert k v m d.1 h.1)
      ∙ insert_sorted-snoc (j, w) (k, v) (remove k (by_location m)) h.0
      ∙ ap (λ (l : List (ℕ × Loc)). l ++ (k, v) ∷ [])
          (sym (remove-insert_sorted_ne k (j, w) (by_location m) (by_location-IsSorted m) other)))
]
