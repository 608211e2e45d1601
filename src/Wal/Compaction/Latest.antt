-- ===== src/Wal/Compaction/Latest.antt =====
-- storage/wal.rs, the scan of phase 1: what the two maps hold behind the records of the segments.
use nesso.Base.{
  ℕ, ◌≡◌, refl, Bool, true, false, not, ◌||◌, Option, none, some, List, [], ◌∷◌, ◌++◌, length, leb,
  ◌==◌, if◌then◌else◌, drop, All, arith, Bool-cases, inl, inr, ==_iff,
}
use nesso.Base.Maps.{lookup, contains, lookup-insert, lookup-insert_self, lookup-remove, Map}
use nesso.Cache.{Payload}
use nesso.Record.{Record, OpType}
use nesso.Wal.Compaction.{Survivors, absorb, absorb_op, absorb_all, or_insert, no_survivors}

-- The last record of a task.
abbrev pub last_of : ℕ → List (ℕ × Record) → Option Record
last_of id [] = none
last_of id ((_, r) ∷ rs) =
    let here = if r.id == id then some r else none in
    elim (last_of id rs) [ some x ↦ some x | none ↦ here ]

abbrev is_over : OpType → Bool
is_over OpType.acked = true
is_over OpType.dead_lettered = true
is_over _ = false

-- Nothing of a task that is over.
abbrev pub unless_over : Option Record → Option Record
unless_over none = none
unless_over (some r) = if is_over r.op_type then none else some r

abbrev or_else : Option Record → Option Record → Option Record → Option Record
or_else none old new = old
or_else (some _) old new = new

latest-absorb_op :
    (op : OpType) (s : Survivors) (r : Record) (id : ℕ)
    → lookup id (absorb_op op s r).latest_records
      ≡ (if r.id == id then (if is_over op then none else some r) else lookup id s.latest_records)
latest-absorb_op OpType.created s r id = lookup-insert r.id id r s.latest_records
latest-absorb_op OpType.leased s r id = lookup-insert r.id id r s.latest_records
latest-absorb_op OpType.nacked s r id = lookup-insert r.id id r s.latest_records
latest-absorb_op OpType.expired s r id = lookup-insert r.id id r s.latest_records
latest-absorb_op OpType.acked s r id = lookup-remove r.id id s.latest_records
latest-absorb_op OpType.dead_lettered s r id = lookup-remove r.id id s.latest_records

-- What the scan keeps of a task is its last record, or what was there if it has none, and nothing
-- of a task that is over.
latest-absorb_all :
    (rs : List (ℕ × Record)) (s : Survivors) (id : ℕ)
    → lookup id (absorb_all s rs).latest_records
      ≡ or_else (last_of id rs) (lookup id s.latest_records) (unless_over (last_of id rs))
unfolding absorb_all absorb
latest-absorb_all [] s id = refl
latest-absorb_all ((o, r) ∷ rs) s id =
    ground (arith, latest-absorb_all rs (absorb s r) id, latest-absorb_op r.op_type s r id)

-- Behind the records of the segments phase 1 holds of a task exactly its last record, and nothing
-- if that says that the task is over or if there is none.
pub latest_records-absorb_all :
    (rs : List (ℕ × Record)) (id : ℕ)
    → lookup id (absorb_all no_survivors rs).latest_records ≡ unless_over (last_of id rs)
unfolding lookup
latest_records-absorb_all rs id = ground (arith, latest-absorb_all rs no_survivors id)

abbrev passes : OpType → Bool
passes OpType.leased = true
passes OpType.nacked = true
passes OpType.expired = true
passes _ = false

-- A record that leaves the payload of task `id` where it is: of another task, or a lease or a
-- failure.
abbrev pub keeps_payload : ℕ → Record → Bool
keeps_payload id r = not (r.id == id) || passes r.op_type

or_insert-kept :
    (b : Bool) (i id : ℕ) (p' p : Payload) (m : Map Payload)
    → lookup id m ≡ some p
    → lookup id (if b then or_insert i p' m else m) ≡ some p
or_insert-kept false i id p' p m h = h
or_insert-kept true i id p' p m h = elim (Bool-cases (contains i m)) [
  | inl there ↦ rw there h
  | inr free ↦ elim (Bool-cases (i == id)) [
    | inl same ↦ absurd (ground (arith, (==_iff i id).0 same))
    | inr other ↦ ground (arith, lookup-insert i id p' m)
  ]
]

created-absorb_op :
    (op : OpType) (s : Survivors) (r : Record) (id : ℕ) (p : Payload)
    → (not (r.id == id) || passes op) ≡ true
    → lookup id s.created_payloads ≡ some p
    → lookup id (absorb_op op s r).created_payloads ≡ some p
created-absorb_op OpType.created s r id p k h =
    ground (arith, lookup-insert r.id id r.payload s.created_payloads)
created-absorb_op OpType.leased s r id p k h =
    or_insert-kept (leb 13 (length r.payload)) r.id id (drop 13 r.payload) p s.created_payloads h
created-absorb_op OpType.nacked s r id p k h =
    or_insert-kept (leb 1 (length r.payload)) r.id id (drop 1 r.payload) p s.created_payloads h
created-absorb_op OpType.expired s r id p k h =
    or_insert-kept (leb 1 (length r.payload)) r.id id (drop 1 r.payload) p s.created_payloads h
created-absorb_op OpType.acked s r id p k h =
    ground (arith, lookup-remove r.id id s.created_payloads)
created-absorb_op OpType.dead_lettered s r id p k h =
    ground (arith, lookup-remove r.id id s.created_payloads)

created-absorb_all :
    (rs : List (ℕ × Record)) (s : Survivors) (id : ℕ) (p : Payload)
    → All (λ e. keeps_payload id e.1 ≡ true) rs
    → lookup id s.created_payloads ≡ some p
    → lookup id (absorb_all s rs).created_payloads ≡ some p
unfolding absorb_all absorb
created-absorb_all [] s id p k h = h
created-absorb_all ((o, r) ∷ rs) s id p (k, ks) h =
    created-absorb_all rs (absorb s r) id p ks (created-absorb_op r.op_type s r id p k h)

pub absorb_all-append :
    (rs rs' : List (ℕ × Record)) (s : Survivors)
    → absorb_all s (rs ++ rs') ≡ absorb_all (absorb_all s rs) rs'
unfolding absorb_all
absorb_all-append [] rs' s = refl
absorb_all-append ((o, r) ∷ rs) rs' s = absorb_all-append rs rs' (absorb s r)

created-absorb :
    (op : OpType) (s : Survivors) (c : Record)
    → op ≡ OpType.created
    → lookup c.id (absorb_op op s c).created_payloads ≡ some c.payload
created-absorb OpType.created s c e = lookup-insert_self c.id c.payload s.created_payloads
created-absorb OpType.leased s c e = cc
created-absorb OpType.nacked s c e = cc
created-absorb OpType.expired s c e = cc
created-absorb OpType.acked s c e = cc
created-absorb OpType.dead_lettered s c e = cc

-- The payload with which a task was created is kept through all leases and failures behind it, and
-- through the records of other tasks, whatever stood before.
pub created_payloads-absorb_all :
    (before after : List (ℕ × Record)) (offset : ℕ) (c : Record)
    → c.op_type ≡ OpType.created
    → All (λ e. keeps_payload c.id e.1 ≡ true) after
    → lookup c.id (absorb_all no_survivors (before ++ (offset, c) ∷ after)).created_payloads
      ≡ some c.payload
unfolding absorb_all absorb
created_payloads-absorb_all before after offset c e k =
    rw (absorb_all-append before ((offset, c) ∷ after) no_survivors) (
      created-absorb_all after (absorb (absorb_all no_survivors before) c) c.id c.payload k
        (created-absorb c.op_type (absorb_all no_survivors before) c e))
