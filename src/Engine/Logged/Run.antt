-- ===== src/Engine/Logged/Run.antt =====
-- storage/engine.rs: operations whose records are written, one behind the other.
use nesso.Base.{
  ℕ, ◌+◌, ◌^◌, ◌<◌, ◌≡◌, Option, some, List, [], ◌∷◌, ◌++◌, IsU8, IsU32, add_u64, length,
}
use nesso.Base.Maps.{lookup}
use nesso.Cache.{Payload}
use nesso.Io.{Result, ok}
use nesso.Queue
use nesso.Queue.{PriorityBucketQueue}
use nesso.Record.{Record, OpType, encode}
use nesso.Task.{TaskRef, LeaseInfo}
use nesso.Wal.{AppendIo, append}
use nesso.Wal.Scan.Laws.{Fits}
use nesso.Engine.{Engine, Leased, Loc, push, lease_next, ack, nack, process_task_failure}
use nesso.Engine.Tasks.Operations.{HasRoom}
use nesso.Engine.Answers.{ack_record}
use nesso.Engine.Failures.{failure_record}
use nesso.Engine.Leases.{lease_record}
use nesso.Engine.Logged.Steps.{created_record}

module _ (crc32 : List ℕ → ℕ) (since : ℕ) where
  -- The record fits, sizes and ids do not overflow, and the record is written at the place; `e'`
  -- has the log and the directory behind that.
  pub record Writes (e : Engine) (io : AppendIo) (r : Record) (x : ℕ × ℕ × Record) (e' : Engine)
      : Type 0 where
    pub loc : Loc
    pub entry : x ≡ (loc.0, loc.1, r)
    pub fits : Fits r
    pub size_room : e.inner.wal.current_size + length (encode crc32 r) < 2 ^ 64
    pub id_room : e.inner.wal.active_segment_id + 1 < 2 ^ 64
    pub logged : append crc32 e.inner.wal e.disk io r ≡ (ok loc, e'.inner.wal, e'.disk)

  -- One operation that writes a record. The clock stands so that a lease ends after `since`. A
  -- lease fails on a round of the expiration thread while it is still held, as all of them do if
  -- nothing comes in between the two sections of the round. Compaction is none of the steps.
  pub data Step : Engine → ℕ × ℕ × Record → Engine → Type 0 where
    pushes :
        (e : Engine) (payload : Payload) (priority : ℕ) (io : AppendIo) (x : ℕ × ℕ × Record)
        (e' : Engine)
        → HasRoom e.inner
        → IsU8 priority
        → Writes e io (created_record e.inner.next_id priority payload) x e'
        → (push crc32 e payload priority io).1 ≡ e'
        → Step e x e'
    pops :
        (e : Engine) (consumer_id lease_ttl_secs now : ℕ) (io : AppendIo) (x : ℕ × ℕ × Record)
        (e' : Engine) (t : TaskRef) (q : PriorityBucketQueue) (answer : Result (Option Leased))
        → IsU32 consumer_id
        → since < now + lease_ttl_secs
        → now + lease_ttl_secs < 2 ^ 64
        → Queue.pop e.inner.ready_queue ≡ some (some t, q)
        → Writes e io (lease_record t consumer_id (add_u64 now lease_ttl_secs)) x e'
        → lease_next crc32 e consumer_id lease_ttl_secs now io ≡ some (answer, e')
        → Step e x e'
    acks :
        (e : Engine) (id : ℕ) (io : AppendIo) (lease : LeaseInfo) (x : ℕ × ℕ × Record) (e' : Engine)
        → lookup id e.inner.leased ≡ some lease
        → Writes e io (ack_record id lease) x e'
        → (ack crc32 e id lease.consumer_id io).1 ≡ e'
        → Step e x e'
    nacks :
        (e : Engine) (id : ℕ) (io : AppendIo) (lease : LeaseInfo) (x : ℕ × ℕ × Record) (e' : Engine)
        → HasRoom e.inner
        → lookup id e.inner.leased ≡ some lease
        → Writes e io (failure_record id lease.priority (lease.retries + 1) OpType.nacked) x e'
        → (nack crc32 e id lease.consumer_id io).1 ≡ e'
        → Step e x e'
    expires :
        (e : Engine) (id : ℕ) (io : AppendIo) (lease : LeaseInfo) (x : ℕ × ℕ × Record) (e' : Engine)
        → HasRoom e.inner
        → lookup id e.inner.leased ≡ some lease
        → Writes e io (failure_record id lease.priority (lease.retries + 1) OpType.expired) x e'
        → (process_task_failure crc32 e id lease.priority lease.retries OpType.expired io).1 ≡ e'
        → Step e x e'

  -- Operations one behind the other, with the records that they write.
  pub data Run : Engine → List (ℕ × ℕ × Record) → Engine → Type 0 where
    start : (e : Engine) → Run e [] e
    next :
        (e e' e'' : Engine) (xs : List (ℕ × ℕ × Record)) (x : ℕ × ℕ × Record)
        → Run e xs e'
        → Step e' x e''
        → Run e (xs ++ x ∷ []) e''
