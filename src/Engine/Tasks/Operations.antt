-- ===== src/Engine/Tasks/Operations.antt =====
-- What a locked section does to the tasks once the log has answered.
use nesso.Base.{
  All-weaken, ℕ, ◌+◌, ◌^◌, ◌<◌, ◌≡◌, ◌≢◌, ap, Option, none, some, ◌∷◌, All, IsU8, arith,
  Option-cases, inl, inr, All-zip, subst,
}
use nesso.Base.Maps.{lookup, insert, remove, lookup-insert, lookup-remove}
use nesso.Cache
use nesso.Cache.{Payload, PayloadCache}
use nesso.Disk.{Disk}
use nesso.Io.{Result, ok, err}
use nesso.Queue.{PriorityBucketQueue}
use nesso.Queue.Invariant.{
  to_list, push-IsValid as queue-push-IsValid, push-to_list, IsValid as IsQueue,
}
use nesso.Task.{TaskRef, LeaseInfo}
use nesso.Wal.{Wal}
use nesso.Engine.{
  Engine, EngineState, Loc, with_inner, notify, log_state, push_logged, push_indexed, lease_indexed,
  lease_located,
}
use nesso.Engine.Tasks.{IsValid, IsReady, Distinct}
use nesso.Engine.Tasks.Lists.{All-insert_task, Distinct-insert_task, All-ne_of_leased}

pub notify-inner : (e : Engine) → (notify e).inner ≡ e.inner
unfolding notify
notify-inner e = ground arith

-- There is room for one more task in the counters.
pub record HasRoom (s : EngineState) : Type 0 where
  pub id_room : s.next_id + 1 < 2 ^ 64
  pub len_room : s.ready_queue.len + 1 < 2 ^ 64

-- Only the log has changed.
pub log_state-IsValid :
    (e : Engine) (wal : Wal) (disk : Disk) → IsValid e.inner → IsValid (log_state e wal disk).inner
log_state-IsValid e wal disk v = record {
  queue = v.queue;
  ids = v.ids;
  ready = v.ready;
  distinct = v.distinct;
  leases = v.leases;
}

pub next_id-unleased : (s : EngineState) → IsValid s → lookup s.next_id s.leased ≡ none
next_id-unleased s v = elim (Option-cases (lookup s.next_id s.leased)) [
  | inl free ↦ free
  | inr (lease, e) ↦ absurd (omega (arith, v.leases s.next_id lease e))
]

-- `e` has its next id already behind `id`.
push_indexed-IsValid :
    (e : Engine) (s : EngineState) (payload : Payload) (priority : ℕ) (loc : Loc)
    → IsValid s
    → HasRoom s
    → IsU8 priority
    → e.inner.next_id ≡ s.next_id + 1
    → e.inner.ready_queue ≡ s.ready_queue
    → e.inner.leased ≡ s.leased
    → e.inner.data_index ≡ s.data_index
    → IsValid (push_indexed e s.next_id payload priority loc).inner
unfolding push_indexed
push_indexed-IsValid e s payload priority loc v room p en eq el ed =
    let t : TaskRef = record { id = s.next_id; priority = priority; retries = 0 } in
    let order = push-to_list s.ready_queue t v.queue p in
    let unleased : lookup s.next_id s.leased ≡ none = next_id-unleased s v in
    rw (en, eq, el, ed)
      (record {
        queue = queue-push-IsValid s.ready_queue t v.queue p room.len_room;
        ids = room.id_room;
        ready = rw order (
            All-insert_task (IsReady (s.next_id + 1) s.leased (insert s.next_id loc s.data_index)) t
              (to_list s.ready_queue)
              (ground (arith, unleased, lookup-insert s.next_id s.next_id loc s.data_index))
              (All-weaken (IsReady s.next_id s.leased s.data_index) _
                (λ u r. ground (arith, lookup-insert s.next_id u.id loc s.data_index))
                (to_list s.ready_queue) v.ready));
        distinct = rw order (
            Distinct-insert_task t (to_list s.ready_queue)
              (All-weaken (IsReady s.next_id s.leased s.data_index) _ (λ u r. omega arith)
                (to_list s.ready_queue) v.ready)
              v.distinct);
        leases = λ id lease f.
            ground (arith, v.leases id lease, lookup-insert s.next_id id loc s.data_index);
      })

pub push_logged-IsValid :
    (e : Engine) (s : EngineState) (payload : Payload) (priority : ℕ) (r : Result Loc × Wal × Disk)
    → IsValid s
    → HasRoom s
    → IsU8 priority
    → e.inner ≡ record s { next_id = s.next_id + 1 }
    → IsValid (push_logged e s.next_id payload priority r).1.inner
push_logged-IsValid e s payload priority (err k, wal, disk) v room p en = rw en (record {
  queue = v.queue;
  ids = room.id_room;
  ready =
      All-weaken (IsReady s.next_id s.leased s.data_index) _ (λ u r. ground arith)
        (to_list s.ready_queue) v.ready;
  distinct = v.distinct;
  leases = λ id lease f. ground (arith, v.leases id lease);
})
push_logged-IsValid e s payload priority (ok loc, wal, disk) v room p en =
    rw (notify-inner (push_indexed (log_state e wal disk) s.next_id payload priority loc)) (
      push_indexed-IsValid (log_state e wal disk) s payload priority loc v room p
        (ap (λ (i : EngineState). i.next_id) en) (ap (λ (i : EngineState). i.ready_queue) en)
        (ap (λ (i : EngineState). i.leased) en) (ap (λ (i : EngineState). i.data_index) en))

lease_located-IsValid :
    (e : Engine) (t : TaskRef) (loc : Option Loc) (c : Option Payload × PayloadCache)
    → IsValid e.inner
    → IsValid (lease_located e t loc c).1.inner
lease_located-IsValid e t none c v = v
lease_located-IsValid e t (some loc) c v = record {
  queue = v.queue;
  ids = v.ids;
  ready = v.ready;
  distinct = v.distinct;
  leases = v.leases;
}

-- Behind an append the task that was popped is leased, or its place in the log is missing.
pub lease_indexed-IsValid :
    (e : Engine) (s : EngineState) (t : TaskRef) (q : PriorityBucketQueue) (lease : LeaseInfo)
    (loc : Loc)
    → IsValid s
    → IsQueue q
    → to_list s.ready_queue ≡ t ∷ to_list q
    → lease.retries ≡ t.retries
    → lease.priority ≡ t.priority
    → e.inner.next_id ≡ s.next_id
    → e.inner.ready_queue ≡ q
    → e.inner.leased ≡ s.leased
    → e.inner.data_index ≡ s.data_index
    → IsValid (lease_indexed e t lease loc).1.inner
unfolding lease_indexed
lease_indexed-IsValid e s t q lease loc v vq order er ep en eq el ed =
    let ready : All (IsReady s.next_id s.leased s.data_index) (t ∷ to_list q) =
      subst (All (IsReady s.next_id s.leased s.data_index)) order v.ready in
    let distinct : Distinct (t ∷ to_list q) = subst Distinct order v.distinct in
    lease_located-IsValid
      (with_inner e (record (e.inner) {
        index = insert t.id loc e.inner.index;
        leased = insert t.id lease e.inner.leased;
      }))
      t (lookup t.id e.inner.data_index) (Cache.get e.inner.payload_cache t.id)
      (rw (en, eq, el, ed)
        (record {
          queue = vq;
          ids = v.ids;
          ready =
              All-zip (IsReady s.next_id s.leased s.data_index) (λ u. u.id ≢ t.id) _
                (λ u r apart. ground (arith, lookup-insert t.id u.id lease s.leased)) (to_list q)
                ready.1 distinct.0;
          distinct = distinct.1;
          leases =
              λ i l f. ground (arith, v.leases i l, lookup-insert t.id i lease s.leased, ready.0);
        }))

-- A lease ends, and its task is gone for good.
pub drop_lease-IsValid :
    (s s' : EngineState) (id : ℕ) (lease : LeaseInfo)
    → IsValid s
    → lookup id s.leased ≡ some lease
    → s'.next_id ≡ s.next_id
    → s'.ready_queue ≡ s.ready_queue
    → s'.leased ≡ remove id s.leased
    → s'.data_index ≡ remove id s.data_index
    → IsValid s'
drop_lease-IsValid s s' id lease v held en eq el ed =
    let others = All-ne_of_leased s.leased id lease (to_list s.ready_queue) held (
      All-weaken (IsReady s.next_id s.leased s.data_index) _ (λ t r. r.3) (to_list s.ready_queue)
        v.ready) in
    record {
      queue = rw eq v.queue;
      ids = rw en v.ids;
      ready =
          rw (eq, en, el, ed)
            (All-zip (IsReady s.next_id s.leased s.data_index) (λ t. t.id ≢ id) _
              (λ t r apart.
                ground (arith, lookup-remove id t.id s.leased, lookup-remove id t.id s.data_index))
              (to_list s.ready_queue) v.ready others);
      distinct = rw eq v.distinct;
      leases =
          rw (en, el, ed)
            (λ i l f.
              ground (
                arith,
                v.leases i l,
                lookup-remove id i s.leased,
                lookup-remove id i s.data_index,
              ));
    }
