-- ===== src/Cache/Invariant.antt =====
-- The cache never holds more than its capacity, and can evict whatever it holds.
use nesso.Base.{
  elem, elem-append, ℕ, ◌+◌, ◌≤◌, ◌≡◌, refl, ◌∙◌, true, List, [], ◌∷◌, length, ltb, ◌==◌, arith,
  inl, inr, Bool-cases, Option-cases,
}
use nesso.Base.Maps.{
  Map, contains, lookup, lookup-insert, lookup-remove, length-insert, length-remove-le,
  length-remove-lt, length-eq-zero,
}
use nesso.Cache.{
  PayloadCache, Payload, new, get, evict, retain_live, hygiene, store, insert, remove, clear,
}

-- Every stored id stands in the order, from where it can be evicted, and the bound holds.
pub record IsValid (c : PayloadCache) : Type 0 where
  pub queued : (k : ℕ) → contains k c.entries ≡ true → elem k c.order ≡ true
  pub bounded : length c.entries ≤ c.capacity

elem-retain_live :
    (k : ℕ) (m : Map Payload) (ks : List ℕ)
    → contains k m ≡ true
    → elem k ks ≡ true
    → elem k (retain_live m ks) ≡ true
unfolding retain_live
elem-retain_live k m [] h e = cc
elem-retain_live k m (j ∷ ks) h e = elim (Bool-cases (j == k)) [
  | inl s ↦ ground (arith, elem-retain_live k m ks h)
  | inr s ↦ ground (arith, elem-retain_live k m ks h)
]

evict-queued :
    (c : PayloadCache) (order : List ℕ) (k : ℕ)
    → ((j : ℕ) → contains j c.entries ≡ true → elem j order ≡ true)
    → contains k (evict c order).entries ≡ true
    → elem k (evict c order).order ≡ true
unfolding evict
evict-queued c [] k q h = q k h
evict-queued c (j ∷ order) k q h = elim (Bool-cases (ltb c.capacity (length c.entries))) [
  | inr fits ↦ rw fits (q k (rw fits at h))
  | inl over ↦ elim (Bool-cases (contains j c.entries)) [
    | inl held ↦ ground (arith, q k, lookup-remove j k c.entries)
    | inr gone ↦
        let q' : (i : ℕ) → contains i c.entries ≡ true → elem i order ≡ true =
          λ i e. ground (arith, q i e) in
        rw (over, gone) (evict-queued c order k q' (rw (over, gone) at h))
  ]
]

-- One entry too many is evicted, since its id stands in the order.
evict-bounded :
    (c : PayloadCache) (order : List ℕ)
    → ((j : ℕ) → contains j c.entries ≡ true → elem j order ≡ true)
    → length c.entries ≤ c.capacity + 1
    → length (evict c order).entries ≤ c.capacity
unfolding evict
evict-bounded c [] q h = omega (arith, length-eq-zero c.entries (λ k e. cc (q k e)))
evict-bounded c (j ∷ order) q h = elim (Bool-cases (ltb c.capacity (length c.entries))) [
  | inr fits ↦ ground arith
  | inl over ↦ elim (Bool-cases (contains j c.entries)) [
    | inl held ↦ ground (arith, length-remove-lt j c.entries)
    | inr gone ↦
        let q' : (i : ℕ) → contains i c.entries ≡ true → elem i order ≡ true =
          λ i e. ground (arith, q i e) in
        rw (over, gone) (evict-bounded c order q' h)
  ]
]

evict-capacity : (c : PayloadCache) (order : List ℕ) → (evict c order).capacity ≡ c.capacity
unfolding evict
evict-capacity c [] = refl
evict-capacity c (j ∷ order) = ground (arith, evict-capacity c order)

hygiene-queued :
    (c : PayloadCache)
    → ((j : ℕ) → contains j c.entries ≡ true → elem j c.order ≡ true)
    → (k : ℕ) → contains k (hygiene c).entries ≡ true
    → elem k (hygiene c).order ≡ true
unfolding hygiene
hygiene-queued c q k h = ground (arith, q k, elem-retain_live k c.entries c.order)

pub hygiene-entries : (c : PayloadCache) → (hygiene c).entries ≡ c.entries
unfolding hygiene
hygiene-entries c = ground arith

pub hygiene-capacity : (c : PayloadCache) → (hygiene c).capacity ≡ c.capacity
unfolding hygiene
hygiene-capacity c = ground arith

store-queued :
    (c : PayloadCache) (id : ℕ) (p : Payload) (k : ℕ)
    → ((j : ℕ) → contains j c.entries ≡ true → elem j c.order ≡ true)
    → contains k (store c id p).entries ≡ true
    → elem k (store c id p).order ≡ true
unfolding store
store-queued c id p k q h =
    ground (arith, q k, lookup-insert id k p c.entries, elem-append k c.order (id ∷ []))

store-bounded :
    (c : PayloadCache) (id : ℕ) (p : Payload)
    → length c.entries ≤ c.capacity
    → length (store c id p).entries ≤ c.capacity + 1
unfolding store
store-bounded c id p h = ground (arith, length-insert id p c.entries)

pub new-IsValid : (capacity : ℕ) → IsValid (new capacity)
unfolding new lookup
new-IsValid capacity = record { queued = λ k h. h; bounded = omega arith }

-- On a valid cache an insertion keeps the bound, whether it is an insertion of a new id, of a
-- stored one, or a refusal at capacity 0; and what is stored can still be evicted.
pub insert-IsValid :
    (c : PayloadCache) (id : ℕ) (p : Payload)
    → IsValid c
    → IsValid (insert c id p) × ((insert c id p).capacity ≡ c.capacity)
unfolding insert
insert-IsValid c id p v = elim (Bool-cases (c.capacity == 0)) [
  | inl zero ↦ rw zero (v, refl)
  | inr some_room ↦ rw some_room (
    record {
      queued = hygiene-queued (evict s s.order) (λ j. evict-queued s s.order j stored);
      bounded =
          rw
            (
              hygiene-entries (evict s s.order),
              hygiene-capacity (evict s s.order),
              evict-capacity s s.order,
            )
            (evict-bounded s s.order stored room);
    },
    hygiene-capacity (evict s s.order) ∙ evict-capacity s s.order ∙ capacity,
  )
]
  where
    s : PayloadCache
    s = store c id p

    capacity : s.capacity ≡ c.capacity
    capacity = unfold store in refl

    room : length s.entries ≤ s.capacity + 1
    room = omega (arith, store-bounded c id p v.bounded, capacity)

    stored : (j : ℕ) → contains j s.entries ≡ true → elem j s.order ≡ true
    stored j = store-queued c id p j v.queued

pub remove-IsValid : (c : PayloadCache) (id : ℕ) → IsValid c → IsValid (remove c id).1
unfolding remove
remove-IsValid c id v = record {
  queued = λ k h. ground (arith, v.queued k, lookup-remove id k c.entries);
  bounded = omega (arith, length-remove-le id c.entries, v.bounded);
}

pub get-IsValid : (c : PayloadCache) (id : ℕ) → IsValid c → IsValid (get c id).1
unfolding get
get-IsValid c id v = elim (Option-cases (lookup id c.entries)) [
  | inl miss ↦ rw (miss, get) (record { queued = v.queued; bounded = v.bounded })
  | inr (p, hit) ↦ rw (hit, get) (record { queued = v.queued; bounded = v.bounded })
]

pub clear-IsValid : (c : PayloadCache) → IsValid (clear c)
unfolding clear lookup
clear-IsValid c = record { queued = λ k h. h; bounded = omega arith }
