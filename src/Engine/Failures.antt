-- ===== src/Engine/Failures.antt =====
-- storage/engine.rs, `nack` and `process_task_failure`: retries, and the end of the retries.
use nesso.Base.{
  ℕ, ◌+◌, ◌≤◌, ◌<◌, ◌≡◌, Bool, true, false, none, List, [], ◌∷◌, IsU8, if◌then◌else◌, arith, leb,
  Bool-cases, inl, inr, add_u8,
}
use nesso.Base.Maps.{Map, lookup, lookup-remove}
use nesso.Disk.{Disk}
use nesso.Io.{Result, ok}
use nesso.Queue.{PriorityBucketQueue}
use nesso.Queue.Order.{insert_task}
use nesso.Queue.Invariant.{to_list, push-to_list, IsValid as IsQueue}
use nesso.Record.{OpType, Record}
use nesso.Task.{max_retries}
use nesso.Wal.{Wal, AppendIo, append}
use nesso.Engine.{Engine, Loc, log_state, process_task_failure, failure_indexed}
use nesso.Engine.Answers.{IsGone}

-- The record that a failure writes, `new_retries` its payload.
abbrev pub failure_record : ℕ → ℕ → ℕ → OpType → Record
failure_record id priority new_retries op = record {
  id = id;
  op_type = if leb max_retries new_retries then OpType.dead_lettered else op;
  priority = priority;
  payload = new_retries ∷ [];
}

-- What a failure leaves once its record is written: the lease is over, and the task is ready
-- again or gone, `q` and `data_index` being what was there before.
pub data Fails (q : PriorityBucketQueue) (data_index : Map Loc) (id priority new_retries : ℕ)
    (r : Result Bool × Engine) : Type 0 where
  again :
      new_retries < max_retries
      → r.0 ≡ ok true
      → lookup id r.1.inner.leased ≡ none
      → to_list r.1.inner.ready_queue
        ≡ insert_task (record { id = id; priority = priority; retries = new_retries }) (to_list q)
      → r.1.inner.data_index ≡ data_index
      → Fails q data_index id priority new_retries r
  dead :
      max_retries ≤ new_retries
      → r.0 ≡ ok false
      → r.1.inner.ready_queue ≡ q
      → IsGone r.1.inner id
      → Fails q data_index id priority new_retries r

failure_indexed-Fails :
    (e : Engine) (id priority n : ℕ) (loc : Loc)
    → IsQueue e.inner.ready_queue
    → IsU8 priority
    → Fails e.inner.ready_queue e.inner.data_index id priority n
        (failure_indexed e id priority n loc)
unfolding failure_indexed
failure_indexed-Fails e id priority n loc v p = elim (Bool-cases (leb max_retries n)) [
  | inl over ↦ Fails.dead (ground arith) (rw over) (rw over) (
      rw over (record {
        unleased = ground (arith, lookup-remove id id e.inner.leased);
        unplaced = ground (arith, lookup-remove id id e.inner.data_index);
      }))
  | inr alive ↦
      Fails.again (ground arith) (rw alive)
        (rw alive (ground (arith, lookup-remove id id e.inner.leased)))
        (rw alive (
          push-to_list e.inner.ready_queue (record { id = id; priority = priority; retries = n }) v
            p))
        (rw alive)
]

module _ (crc32 : List ℕ → ℕ) where
  -- On a valid ready queue, a failure of a task of a u8 priority and of fewer retries than the
  -- limit, leased or not, whose record is written ends the lease. Below the limit of retries the
  -- task is ready again, behind the others of its priority, with one retry more; at the limit it is
  -- gone.
  pub process_task_failure-Fails :
      (e : Engine) (id priority retries : ℕ) (op : OpType) (io : AppendIo) (loc : Loc) (wal : Wal)
      (disk : Disk)
      → IsQueue e.inner.ready_queue
      → IsU8 priority
      → retries < max_retries
      → append crc32 e.inner.wal e.disk io (failure_record id priority (retries + 1) op)
        ≡ (ok loc, wal, disk)
      → Fails e.inner.ready_queue e.inner.data_index id priority
          (retries + 1)
          (process_task_failure crc32 e id priority retries op io)
  unfolding process_task_failure
  process_task_failure-Fails e id priority retries op io loc wal disk v p few logged =
      let n : add_u8 retries 1 ≡ retries + 1 = omega arith in
      rw (process_task_failure, n, logged)
        (failure_indexed-Fails (log_state e wal disk) id priority (retries + 1) loc v p)
