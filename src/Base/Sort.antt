-- ===== src/Base/Sort.antt =====
-- `sort_unstable` and `sort_by_key` on numbers and on locations.
use nesso.Base.Tests.{leb, ltb, ◌==◌, if◌then◌else◌}
use Prim.Native.Nat.{ℕ}
use mathlib.Core.List.{List, [], ◌∷◌}
use mathlib.Core.Bool.{Bool, ◌&&◌, ◌||◌}

module _ {ℓ} {A : Type ℓ} (le : A → A → Bool) where
  unfoldable pub insert_sorted : A → List A → List A
  insert_sorted a [] = a ∷ []
  insert_sorted a (x ∷ xs) = if le a x then a ∷ x ∷ xs else x ∷ insert_sorted a xs

  unfoldable pub sort : List A → List A
  sort [] = []
  sort (x ∷ xs) = insert_sorted x (sort xs)

-- The order of tuples `(segment_id, offset)`.
abbrev pub loc_le : ℕ × ℕ → ℕ × ℕ → Bool
loc_le (s, o) (t, p) = ltb s t || (s == t && leb o p)
