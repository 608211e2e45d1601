-- ===== src/Engine/Tasks/Steps.antt =====
-- storage/engine.rs: the operations, one locked section each, keep the tasks in order.
use nesso.Base.{
  ℕ, ◌+◌, ◌^◌, ◌<◌, ◌≡◌, refl, ap, Option, none, some, List, [], ◌∷◌, All, IsU8, ◌==◌,
  if◌then◌else◌, arith, leb, Bool-cases, Option-cases, inl, inr, add_u8, add_u64, subst,
}
use nesso.Base.Maps.{lookup}
use nesso.Cache.{Payload}
use nesso.Disk.{Disk}
use nesso.Io.{Result, ok, err}
use nesso.Queue
use nesso.Queue.{PriorityBucketQueue}
use nesso.Queue.Invariant.{to_list, new-IsValid, IsValid as IsQueue}
use nesso.Queue.Refinement.{pop-Pops}
use nesso.Record.{OpType}
use nesso.Task.{TaskRef, LeaseInfo, max_retries}
use nesso.Wal.{Wal, AppendIo, append}
use nesso.Engine.{
  Engine, EngineState, Loc, Leased, with_inner, log_state, new_with_cache_capacity, push,
  lease_next, lease_task, lease_logged, lease_payload, ack, ack_logged, nack, process_task_failure,
}
use nesso.Engine.Tasks.{IsValid, IsReady, Distinct}
use nesso.Engine.Tasks.Operations.{
  HasRoom, push_logged-IsValid, lease_indexed-IsValid, log_state-IsValid, drop_lease-IsValid,
}
use nesso.Engine.Tasks.Failures.{failure_logged-IsValid, nack_notified-IsValid}

pub new_with_cache_capacity-IsValid : (wal : Wal) (n : ℕ) → IsValid (new_with_cache_capacity wal n)
unfolding new_with_cache_capacity Queue.new lookup
new_with_cache_capacity-IsValid wal n = record {
  queue = new-IsValid;
  ids = omega arith;
  ready = tt;
  distinct = tt;
  leases = λ id lease f. cc;
}

-- A task that was popped and is not leased is gone from the engine, which stays in order.
popped-IsValid :
    (s' s : EngineState) (t : TaskRef)
    → IsValid s
    → IsQueue s'.ready_queue
    → to_list s.ready_queue ≡ t ∷ to_list s'.ready_queue
    → s'.next_id ≡ s.next_id
    → s'.leased ≡ s.leased
    → s'.data_index ≡ s.data_index
    → IsValid s'
popped-IsValid s' s t v vq order en el ed =
    let ready = subst (All (IsReady s.next_id s.leased s.data_index)) order v.ready in
    let distinct = subst Distinct order v.distinct in
    record {
      queue = vq;
      ids = rw en v.ids;
      ready = rw (en, el, ed) ready.1;
      distinct = distinct.1;
      leases = rw (en, el, ed) v.leases;
    }

lease_logged-IsValid :
    (e : Engine) (s : EngineState) (t : TaskRef) (lease : LeaseInfo) (r : Result Loc × Wal × Disk)
    → IsValid s
    → IsQueue e.inner.ready_queue
    → to_list s.ready_queue ≡ t ∷ to_list e.inner.ready_queue
    → lease.retries ≡ t.retries
    → lease.priority ≡ t.priority
    → e.inner.next_id ≡ s.next_id
    → e.inner.leased ≡ s.leased
    → e.inner.data_index ≡ s.data_index
    → IsValid (lease_logged e t lease r).1.inner
lease_logged-IsValid e s t lease (err k, wal, disk) v vq order er ep en el ed =
    popped-IsValid (log_state e wal disk).inner s t v vq order en el ed
lease_logged-IsValid e s t lease (ok loc, wal, disk) v vq order er ep en el ed =
    lease_indexed-IsValid (log_state e wal disk) s t e.inner.ready_queue lease loc v vq order er ep
      en refl el ed

ack_logged-IsValid :
    (e : Engine) (id : ℕ) (lease : LeaseInfo) (r : Result Loc × Wal × Disk)
    → IsValid e.inner
    → lookup id e.inner.leased ≡ some lease
    → IsValid (ack_logged e id r).1.inner
ack_logged-IsValid e id lease (err k, wal, disk) v held = log_state-IsValid e wal disk v
ack_logged-IsValid e id lease (ok loc, wal, disk) v held =
    drop_lease-IsValid e.inner _ id lease v held refl refl refl refl

module _ (crc32 : List ℕ → ℕ) where
  pub push-IsValid :
      (e : Engine) (payload : Payload) (priority : ℕ) (io : AppendIo)
      → IsValid e.inner
      → HasRoom e.inner
      → IsU8 priority
      → IsValid (push crc32 e payload priority io).1.inner
  unfolding push
  push-IsValid e payload priority io v room p =
      push_logged-IsValid (with_inner e (record (e.inner) { next_id = add_u64 e.inner.next_id 1 }))
        e.inner payload priority
        (append crc32 e.inner.wal e.disk io (record {
          id = e.inner.next_id;
          op_type = OpType.created;
          priority = priority;
          payload = payload;
        }))
        v room p (ap (λ (n : ℕ). record (e.inner) { next_id = n }) (omega (arith, room.id_room)))

  lease_task-IsValid :
      (e : Engine) (s : EngineState) (t : TaskRef) (consumer_id expire_timestamp : ℕ)
      (io : AppendIo)
      → IsValid s
      → IsQueue e.inner.ready_queue
      → to_list s.ready_queue ≡ t ∷ to_list e.inner.ready_queue
      → e.inner.next_id ≡ s.next_id
      → e.inner.leased ≡ s.leased
      → e.inner.data_index ≡ s.data_index
      → IsValid (lease_task crc32 e t consumer_id expire_timestamp io).1.inner
  unfolding lease_task
  lease_task-IsValid e s t consumer_id expire_timestamp io v vq order en el ed =
      lease_logged-IsValid e s t
        (record {
          consumer_id = consumer_id;
          expire_timestamp = expire_timestamp;
          retries = t.retries;
          priority = t.priority;
        })
        (append crc32 e.inner.wal e.disk io (record {
          id = t.id;
          op_type = OpType.leased;
          priority = t.priority;
          payload = lease_payload consumer_id expire_timestamp t.retries;
        }))
        v vq order refl refl en el ed

  pub lease_next-IsValid :
      (e : Engine) (consumer_id lease_ttl_secs now : ℕ) (io : AppendIo)
      → IsValid e.inner
      → (r : Result (Option Leased) × Engine) × (lease_next crc32 e consumer_id lease_ttl_secs now
            io
          ≡ some r)
        × IsValid r.1.inner
  unfolding lease_next
  lease_next-IsValid e consumer_id ttl now io v = elim (pop-Pops e.inner.ready_queue v.queue) [
    | inl (empty, popped) ↦ ((ok none, e), rw popped, v)
    | inr (t, q, order, popped, vq, _) ↦ (
      lease_task crc32 (with_inner e (record (e.inner) { ready_queue = q })) t consumer_id
          (add_u64 now ttl) io,
      rw popped,
      lease_task-IsValid (with_inner e (record (e.inner) { ready_queue = q })) e.inner t consumer_id
          (add_u64 now ttl) io v vq order refl refl refl,
    )
  ]

  pub ack-IsValid :
      (e : Engine) (id consumer_id : ℕ) (io : AppendIo)
      → IsValid e.inner
      → IsValid (ack crc32 e id consumer_id io).1.inner
  unfolding ack
  ack-IsValid e id consumer_id io v = elim (Option-cases (lookup id e.inner.leased)) [
    | inl free ↦ rw (ack, free) v
    | inr (lease, held) ↦ elim (Bool-cases (lease.consumer_id == consumer_id)) [
      | inl mine ↦
          rw (ack, held, mine)
            (ack_logged-IsValid e id lease
              (append crc32 e.inner.wal e.disk io (record {
                id = id;
                op_type = OpType.acked;
                priority = lease.priority;
                payload = [];
              }))
              v held)
      | inr other ↦ rw (ack, held, other) v
    ]
  ]

  pub process_task_failure-IsValid :
      (e : Engine) (id : ℕ) (lease : LeaseInfo) (op : OpType) (io : AppendIo)
      → IsValid e.inner
      → lookup id e.inner.leased ≡ some lease
      → e.inner.ready_queue.len + 1 < 2 ^ 64
      → IsValid (process_task_failure crc32 e id lease.priority lease.retries op io).1.inner
  unfolding process_task_failure
  process_task_failure-IsValid e id lease op io v held room =
      let n = add_u8 lease.retries 1 in
      failure_logged-IsValid e id n lease
        (append crc32 e.inner.wal e.disk io (record {
          id = id;
          op_type = if leb max_retries n then OpType.dead_lettered else op;
          priority = lease.priority;
          payload = n ∷ [];
        }))
        v held room

  pub nack-IsValid :
      (e : Engine) (id consumer_id : ℕ) (io : AppendIo)
      → IsValid e.inner
      → e.inner.ready_queue.len + 1 < 2 ^ 64
      → IsValid (nack crc32 e id consumer_id io).1.inner
  unfolding nack
  nack-IsValid e id consumer_id io v room = elim (Option-cases (lookup id e.inner.leased)) [
    | inl free ↦ rw (nack, free) v
    | inr (lease, held) ↦ elim (Bool-cases (lease.consumer_id == consumer_id)) [
      | inl mine ↦
          rw (nack, held, mine)
            (nack_notified-IsValid
              (process_task_failure crc32 e id lease.priority lease.retries OpType.nacked io)
              (process_task_failure-IsValid e id lease OpType.nacked io v held room))
      | inr other ↦ rw (nack, held, other) v
    ]
  ]
