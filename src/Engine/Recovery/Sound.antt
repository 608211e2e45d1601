-- ===== src/Engine/Recovery/Sound.antt =====
-- storage/engine.rs, `recover`: an engine that agrees with a log that engines wrote is in order.
use nesso.Base.{
  ℕ, ◌<◌, ◌≡◌, ◌≢◌, refl, ap, sym, ◌∙◌, true, some, List, [], ◌∷◌, All, All-weaken, All-zip, get_or,
  arith, IsU8, IsU64, Option-cases, inl, inr,
}
use nesso.Base.Keys.{DistinctKeys, lookup-All}
use nesso.Base.Maps.{lookup}
use nesso.Queue.Order.{insert_task}
use nesso.Queue.Invariant.{IsValid as IsQueue}
use nesso.Record.{Record, OpType}
use nesso.Task.{LeaseInfo, TaskRef, max_retries}
use nesso.Engine.{EngineState, Loc}
use nesso.Engine.Tasks.{IsValid, IsReady, Distinct}
use nesso.Engine.Tasks.Lists.{All-insert_task, Distinct-insert_task}
use nesso.Engine.Recovery.Ids.{IdsBelow}
use nesso.Engine.Recovery.Log.{
  Latest, Fate, fate, fate_op, lease_in, is_live, ready_in, arrive, enlist, latest,
  latest_from-DistinctKeys, latest_from-All, lookup-entries,
}
use nesso.Engine.Recovery.Replay.{Agrees, IsLog}

-- The retries that a record tells of.
abbrev retries_of : OpType → Record → ℕ
retries_of OpType.created r = 0
retries_of OpType.leased r = get_or r.payload 12 0
retries_of OpType.nacked r = get_or r.payload 0 0
retries_of OpType.expired r = get_or r.payload 0 0
retries_of OpType.acked r = 0
retries_of OpType.dead_lettered r = 0

-- Engines write no other record: behind the last retry a task is dead-lettered.
abbrev pub IsSound : ℕ × ℕ × Record → Type 0
IsSound x = retries_of x.2.op_type x.2 < max_retries

ready-retries :
    (op : OpType) (now : ℕ) (r : Record) (n : ℕ)
    → retries_of op r < max_retries
    → fate_op op now r ≡ Fate.ready n
    → n < max_retries
ready-retries OpType.created now r n h e = ground (arith, e)
ready-retries OpType.leased now r n h e = ground (arith, e)
ready-retries OpType.nacked now r n h e = ground (arith, e)
ready-retries OpType.expired now r n h e = ground (arith, e)
ready-retries OpType.acked now r n h e = absurd (ground (arith, e))
ready-retries OpType.dead_lettered now r n h e = absurd (ground (arith, e))

-- Who holds a lease holds that of the record.
held-lease :
    (op : OpType) (now : ℕ) (r : Record) (lease : LeaseInfo)
    → retries_of op r < max_retries
    → lease_in (fate_op op now r) ≡ some lease
    → (lease.retries < max_retries) × (lease.priority ≡ r.priority)
held-lease OpType.created now r lease h e = absurd (ground (arith, e))
held-lease OpType.leased now r lease h e = ground (arith, e)
held-lease OpType.nacked now r lease h e = absurd (ground (arith, e))
held-lease OpType.expired now r lease h e = absurd (ground (arith, e))
held-lease OpType.acked now r lease h e = absurd (ground (arith, e))
held-lease OpType.dead_lettered now r lease h e = absurd (ground (arith, e))

enlist-All {κ} :
    (P : TaskRef → Type κ) (f : Fate) (id : ℕ) (r : Record) (ts : List TaskRef)
    → ((n : ℕ) → f ≡ Fate.ready n → P (record { id = id; priority = r.priority; retries = n }))
    → All P ts
    → All P (enlist id r f ts)
enlist-All P (Fate.ready n) id r ts h k = (h n refl, k)
enlist-All P (Fate.held lease) id r ts h k = k
enlist-All P Fate.over id r ts h k = k

-- What holds of a task that its record says is ready.
abbrev ReadyHas : (TaskRef → Type 0) → (now : ℕ) → ℕ × (Loc × Record) → Type 0
ReadyHas P now e =
    (n : ℕ)
    → fate now e.1.1 ≡ Fate.ready n
    → P (record { id = e.0; priority = e.1.1.priority; retries = n })

ready_in-All :
    (P : TaskRef → Type 0) (now : ℕ) (l : Latest) → All (ReadyHas P now) l → All P (ready_in now l)
unfolding ready_in
ready_in-All P now [] h = tt
ready_in-All P now ((id, (loc, r)) ∷ l) h =
    enlist-All P (fate now r) id r (ready_in now l) h.0 (ready_in-All P now l h.1)

arrive-All :
    (P : TaskRef → Type 0) (served ts : List TaskRef)
    → All P served
    → All P ts
    → All P (arrive served ts)
unfolding arrive
arrive-All P served [] h k = h
arrive-All P served (t ∷ ts) h k =
    arrive-All P (insert_task t served) ts (All-insert_task P t served k.0 h) k.1

enlist-Distinct :
    (f : Fate) (id : ℕ) (r : Record) (ts : List TaskRef)
    → All (λ t. t.id ≢ id) ts
    → Distinct ts
    → Distinct (enlist id r f ts)
enlist-Distinct (Fate.ready n) id r ts h d = (h, d)
enlist-Distinct (Fate.held lease) id r ts h d = d
enlist-Distinct Fate.over id r ts h d = d

ready_in-Distinct : (now : ℕ) (l : Latest) → DistinctKeys l → Distinct (ready_in now l)
unfolding ready_in
ready_in-Distinct now [] d = tt
ready_in-Distinct now ((id, (loc, r)) ∷ l) d =
    enlist-Distinct (fate now r) id r (ready_in now l)
      (ready_in-All (λ t. t.id ≢ id) now l
        (All-weaken (λ (e : ℕ × (Loc × Record)). e.0 ≢ id) _ (λ e ne n f. ne) l d.0))
      (ready_in-Distinct now l d.1)

-- Tasks that arrive, none of them there yet.
arrive-Distinct :
    (served ts : List TaskRef)
    → Distinct served
    → Distinct ts
    → All (λ t. All (λ u. u.id ≢ t.id) served) ts
    → Distinct (arrive served ts)
unfolding arrive
arrive-Distinct served [] d k h = d
arrive-Distinct served (t ∷ ts) d k h =
    arrive-Distinct (insert_task t served) ts (Distinct-insert_task t served h.0 d) k.1 (
      All-zip (λ (u : TaskRef). u.id ≢ t.id) (λ (u : TaskRef). All (λ v. v.id ≢ u.id) served) _
        (λ u ne apart.
          All-insert_task (λ (v : TaskRef). v.id ≢ u.id) t served (λ e. ne (sym e)) apart)
        ts k.0 h.1)

nothing_there : (ts : List TaskRef) → All (λ t. All (λ (u : TaskRef). u.id ≢ t.id) []) ts
nothing_there [] = tt
nothing_there (t ∷ ts) = (tt, nothing_there ts)

held-is_live : (f : Fate) (lease : LeaseInfo) → lease_in f ≡ some lease → is_live f ≡ true
held-is_live (Fate.ready n) lease e = refl
held-is_live (Fate.held x) lease e = refl
held-is_live Fate.over lease e = absurd (ground (arith, e))

-- What is known of each last record.
abbrev IsKnown : ℕ → ℕ × (Loc × Record) → Type 0
IsKnown next_id e =
    (e.0 < next_id) × IsU8 e.1.1.priority × (retries_of e.1.1.op_type e.1.1 < max_retries)

known :
    (n : ℕ) (log : List (ℕ × ℕ × Record))
    → IsLog log
    → IdsBelow n log
    → All IsSound log
    → All (IsKnown n) (latest log)
known n log h ids sound = latest_from-All (IsKnown n) [] log tt (
    All-zip (λ (x : ℕ × ℕ × Record). x.2.id < n)
      (λ (x : ℕ × ℕ × Record). IsU8 x.2.priority × (retries_of x.2.op_type x.2 < max_retries)) _
      (λ x i p. (i, p.0, p.1)) log ids
      (All-zip (λ (x : ℕ × ℕ × Record). IsU8 x.2.priority) IsSound _ (λ x p q. (p, q)) log
        h.priorities sound))

-- An engine with the tasks that a log tells of is in order, if the log is one that engines wrote
-- and its ids were given out.
pub Agrees-IsValid :
    (now : ℕ) (log : List (ℕ × ℕ × Record)) (s : EngineState)
    → Agrees now log s
    → IsQueue s.ready_queue
    → IsU64 s.next_id
    → IsLog log
    → IdsBelow s.next_id log
    → All IsSound log
    → IsValid s
Agrees-IsValid now log s a q fits h ids sound =
    let l = latest log in
    let keys = latest_from-DistinctKeys [] log tt in
    let facts = known s.next_id log h ids sound in
    record {
      queue = q;
      ids = fits;
      ready = rw a.ready (
          arrive-All (IsReady s.next_id s.leased s.data_index) [] (ready_in now l) tt (
            ready_in-All (IsReady s.next_id s.leased s.data_index) now l (
              All-zip (IsKnown s.next_id) (λ (e : ℕ × (Loc × Record)). lookup e.0 l ≡ some e.1) _
                (λ e k found n f. (
                  k.0,
                  ready-retries e.1.1.op_type now e.1.1 n k.2 f,
                  k.1,
                  a.leased e.0 ∙ rw found (ap lease_in f),
                  a.placed e.0 ∙ rw found (ap is_live f),
                ))
                l facts (lookup-entries l keys))));
      distinct = rw a.ready (
          arrive-Distinct [] (ready_in now l) tt (ready_in-Distinct now l keys)
            (nothing_there (ready_in now l)));
      leases = λ id lease f. elim (Option-cases (lookup id l)) [
        | inl absent ↦ absurd (ground (arith, f, (rw absent at (a.leased id))))
        | inr ((loc, r), found) ↦
            let e : lease_in (fate now r) ≡ some lease = sym (rw found at (a.leased id)) ∙ f in
            let (below, p, few) = lookup-All (IsKnown s.next_id) id (loc, r) l facts found in
            let (retries, priority) = held-lease r.op_type now r lease few e in
            (
              below,
              retries,
              rw priority p,
              a.placed id ∙ rw found (held-is_live (fate now r) lease e),
            )
      ];
    }
