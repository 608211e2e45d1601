-- ===== src/Cache/Runs.antt =====
-- A cache for one payload.
use nesso.Base.{elem, ℕ, ◌≡◌, ◌⊎◌, refl, none, some, true, false, [], ◌∷◌, arith}
use nesso.Base.Maps.{lookup, contains}
use nesso.Cache.{PayloadCache, insert, store, evict, hygiene}
use nesso.Cache.Invariant.{IsValid, insert-IsValid}
use nesso.Cache.Contents.{lookup-insert_fresh}

abbrev one : PayloadCache
one = record {
  capacity = 1;
  entries = (1, 5 ∷ []) ∷ [];
  order = 1 ∷ [];
  hits = 0;
  misses = 0;
  evictions = 0;
}

one-IsValid : IsValid one
one-IsValid = record { queued = λ k h. unfold lookup in ground arith; bounded = omega arith }

evicted_oldest : lookup 1 (insert one 2 (6 ∷ [])).entries ≡ none
unfolding insert store evict hygiene lookup nesso.Base.Maps.insert nesso.Base.Maps.remove
evicted_oldest = refl

stored : lookup 2 (insert one 2 (6 ∷ [])).entries ≡ some (6 ∷ [])
unfolding insert store evict hygiene lookup nesso.Base.Maps.insert nesso.Base.Maps.remove
stored = refl

insert-IsValid_example : IsValid (insert one 2 (6 ∷ [])) × ((insert one 2 (6 ∷ [])).capacity ≡ 1)
insert-IsValid_example = insert-IsValid one 2 (6 ∷ []) one-IsValid

lookup-insert_fresh_example : lookup 2 (insert one 2 (6 ∷ [])).entries ≡ some (6 ∷ [])
lookup-insert_fresh_example = lookup-insert_fresh one 2 (6 ∷ []) one-IsValid (omega arith) refl
