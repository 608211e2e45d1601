-- ===== src/Cache/Contents.antt =====
-- What the cache answers: what was last stored for an id, or nothing.
use nesso.Base.{
  elem, ℕ, ◌≤◌, ◌<◌, ◌≡◌, ◌⊎◌, refl, ap, sym, ◌∙◌, true, false, some, List, [], ◌∷◌, ◌++◌, length,
  ltb, ◌==◌, arith, inl, inr, Bool-cases,
}
use nesso.Base.Maps.{
  contains, lookup, lookup-insert, lookup-remove, lookup-insert_self, length-insert, some_key,
}
use nesso.Cache.{PayloadCache, Payload, evict, store, insert}
use nesso.Cache.Invariant.{IsValid, hygiene-entries}

-- Eviction removes entries and changes none.
evict-lookup :
    (c : PayloadCache) (order : List ℕ) (k : ℕ) (p : Payload)
    → lookup k (evict c order).entries ≡ some p
    → lookup k c.entries ≡ some p
unfolding evict
evict-lookup c [] k p h = h
evict-lookup c (j ∷ order) k p h =
    ground (arith, evict-lookup c order k p, lookup-remove j k c.entries)

-- What is found under an id after an insertion is the payload inserted, if it is the id of the
-- insertion, or what was found under it before.
pub lookup-insert_sound :
    (c : PayloadCache) (id : ℕ) (p : Payload) (k : ℕ) (x : Payload)
    → lookup k (insert c id p).entries ≡ some x
    → ((k ≡ id) × (x ≡ p)) ⊎ (lookup k c.entries ≡ some x)
unfolding insert store
lookup-insert_sound c id p k x h = elim (Bool-cases (c.capacity == 0)) [
  | inl z ↦ inr (rw z at h)
  | inr more ↦
      let found = evict-lookup (store c id p) (store c id p).order k x (
        sym (ap (lookup k) (hygiene-entries (evict (store c id p) (store c id p).order)))
        ∙ rw more at h) in
      ground (arith, found, lookup-insert id k p c.entries)
]

-- Among the ids before `id` in the order one is stored, so eviction stops before it.
evict-keeps :
    (c : PayloadCache) (old rest : List ℕ) (id k : ℕ)
    → elem id old ≡ false
    → elem k old ≡ true
    → contains k c.entries ≡ true
    → lookup id (evict c (old ++ rest)).entries ≡ lookup id c.entries
unfolding evict
evict-keeps c [] rest id k fresh here h = cc
evict-keeps c (j ∷ old) rest id k fresh here h =
    elim (Bool-cases (ltb c.capacity (length c.entries))) [
      | inr fits ↦ rw fits
      | inl over ↦ elim (Bool-cases (contains j c.entries)) [
        | inl held ↦ ground (arith, lookup-remove j id c.entries)
        | inr gone ↦ rw (over, gone) (evict-keeps c old rest id k (ground arith) (ground arith) h)
      ]
    ]

evict_fits :
    (c : PayloadCache) (order : List ℕ)
    → length c.entries ≤ c.capacity
    → (evict c order).entries ≡ c.entries
unfolding evict
evict_fits c [] h = refl
evict_fits c (j ∷ order) h = ground arith

-- In a valid cache of a capacity above 0, a payload that is stored under an id that the order does
-- not hold is found: it is not itself evicted to make room.
pub lookup-insert_fresh :
    (c : PayloadCache) (id : ℕ) (p : Payload)
    → IsValid c
    → 0 < c.capacity
    → elem id c.order ≡ false
    → lookup id (insert c id p).entries ≡ some p
unfolding insert
lookup-insert_fresh c id p v room fresh =
    let some_room : (c.capacity == 0) ≡ false = ground arith in
    rw (some_room, hygiene-entries (evict s s.order)) (kept ∙ stored)
  where
    s : PayloadCache
    s = store c id p

    absent : contains id c.entries ≡ false
    absent = ground (arith, v.queued id)

    order : s.order ≡ c.order ++ id ∷ []
    order = unfold store in rw absent

    stored : lookup id s.entries ≡ some p
    stored = unfold store in lookup-insert_self id p c.entries

    kept : lookup id (evict s s.order).entries ≡ lookup id s.entries
    kept = elim (some_key c.entries) [
      | inl none_held ↦ ap (lookup id) (
          evict_fits s s.order
            (unfold store in ground (arith, length-insert id p c.entries, ap length none_held)))
      | inr (k, held) ↦
          ap (λ o. lookup id (evict s o).entries) order
          ∙ evict-keeps s c.order (id ∷ []) id k fresh (v.queued k held)
              (unfold store in ground (arith, lookup-insert id k p c.entries))
    ]
