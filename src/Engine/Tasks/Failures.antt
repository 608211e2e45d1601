-- ===== src/Engine/Tasks/Failures.antt =====
-- storage/engine.rs, `process_task_failure` and its callers: a lease that fails.
use nesso.Base.{
  All-weaken, ℕ, ◌+◌, ◌^◌, ◌<◌, ◌≡◌, ◌≢◌, refl, Bool, true, false, some, All, arith, leb,
  Bool-cases, inl, inr, All-zip,
}
use nesso.Base.Maps.{lookup, remove, lookup-remove}
use nesso.Disk.{Disk}
use nesso.Io.{Result, ok, err}
use nesso.Queue
use nesso.Queue.Invariant.{to_list, push-IsValid as queue-push-IsValid, push-to_list}
use nesso.Task.{TaskRef, LeaseInfo, max_retries}
use nesso.Wal.{Wal}
use nesso.Engine.{
  Engine, EngineState, Loc, log_state, nack_notified, failure_logged, failure_indexed,
}
use nesso.Engine.Tasks.{IsValid, IsReady, IsLeased}
use nesso.Engine.Tasks.Lists.{All-insert_task, Distinct-insert_task, All-ne_of_leased}
use nesso.Engine.Tasks.Operations.{drop_lease-IsValid, log_state-IsValid, notify-inner}

-- A lease ends, and its task is ready again.
return_lease-IsValid :
    (s s' : EngineState) (id n : ℕ) (lease : LeaseInfo)
    → IsValid s
    → lookup id s.leased ≡ some lease
    → s.ready_queue.len + 1 < 2 ^ 64
    → n < max_retries
    → s'.next_id ≡ s.next_id
    → s'.ready_queue
      ≡ Queue.push s.ready_queue (record { id = id; priority = lease.priority; retries = n })
    → s'.leased ≡ remove id s.leased
    → s'.data_index ≡ s.data_index
    → IsValid s'
return_lease-IsValid s s' id n lease v held room few en eq el ed =
    let t : TaskRef = record { id = id; priority = lease.priority; retries = n } in
    let known : IsLeased s.next_id s.data_index id lease = v.leases id lease held in
    let order = push-to_list s.ready_queue t v.queue known.2 in
    let others : All (λ u. u.id ≢ id) (to_list s.ready_queue) =
      All-ne_of_leased s.leased id lease (to_list s.ready_queue) held (
        All-weaken (IsReady s.next_id s.leased s.data_index) _ (λ u r. r.3) (to_list s.ready_queue)
          v.ready) in
    record {
      queue = rw eq (queue-push-IsValid s.ready_queue t v.queue known.2 room);
      ids = rw en v.ids;
      ready =
          rw (en, eq, el, ed, order)
            (All-insert_task (IsReady s.next_id (remove id s.leased) s.data_index) t
              (to_list s.ready_queue) (ground (arith, known, lookup-remove id id s.leased))
              (All-zip (IsReady s.next_id s.leased s.data_index) (λ u. u.id ≢ id) _
                (λ u r apart. ground (arith, lookup-remove id u.id s.leased))
                (to_list s.ready_queue) v.ready others));
      distinct = rw (eq, order) (Distinct-insert_task t (to_list s.ready_queue) others v.distinct);
      leases = rw (en, el, ed) (λ i l f. ground (arith, v.leases i l, lookup-remove id i s.leased));
    }

failure_indexed-IsValid :
    (e : Engine) (id : ℕ) (lease : LeaseInfo) (loc : Loc)
    → IsValid e.inner
    → lookup id e.inner.leased ≡ some lease
    → e.inner.ready_queue.len + 1 < 2 ^ 64
    → (n : ℕ) → IsValid (failure_indexed e id lease.priority n loc).1.inner
unfolding failure_indexed
failure_indexed-IsValid e id lease loc v held room n = elim (Bool-cases (leb max_retries n)) [
  | inl dead ↦ rw dead (drop_lease-IsValid e.inner _ id lease v held refl refl refl refl)
  | inr alive ↦
      rw alive
        (return_lease-IsValid e.inner _ id n lease v held room (ground arith) refl refl refl refl)
]

pub failure_logged-IsValid :
    (e : Engine) (id n : ℕ) (lease : LeaseInfo) (r : Result Loc × Wal × Disk)
    → IsValid e.inner
    → lookup id e.inner.leased ≡ some lease
    → e.inner.ready_queue.len + 1 < 2 ^ 64
    → IsValid (failure_logged e id lease.priority n r).1.inner
failure_logged-IsValid e id n lease (err k, wal, disk) v held room = log_state-IsValid e wal disk v
failure_logged-IsValid e id n lease (ok loc, wal, disk) v held room =
    failure_indexed-IsValid (log_state e wal disk) id lease loc (log_state-IsValid e wal disk v)
      held room n

pub nack_notified-IsValid :
    (r : Result Bool × Engine) → IsValid r.1.inner → IsValid (nack_notified r).1.inner
nack_notified-IsValid (err k, e) v = v
nack_notified-IsValid (ok true, e) v = rw (notify-inner e) v
nack_notified-IsValid (ok false, e) v = v
