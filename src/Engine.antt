-- ===== src/Engine.antt =====
-- storage/engine.rs: the queue engine. A method that holds the lock on `inner` is one step here.
pub mod Fallback
pub mod Expiration
pub mod Recovery
pub mod Compact
pub mod Tasks
pub mod Answers
pub mod Failures
pub mod Leases
pub mod Nacks
pub mod Payloads
pub mod Caches
pub mod Worker
pub mod Logged
mod Runs
use nesso.Base.{
  ℕ, ◌+◌, Bool, true, false, not, Option, none, some, List, [], ◌∷◌, ◌++◌, ltb, leb, ◌==◌, length,
  if◌then◌else◌, add_u8, add_u64,
}
use nesso.Base.Bytes.{to_be_bytes}
use nesso.Base.Maps.{Map, lookup, insert, remove}
use nesso.Cache.{PayloadCache, Payload}
use nesso.Cache
use nesso.Disk.{Disk}
use nesso.Io.{ErrorKind, Result, ok, err}
use nesso.Queue.{PriorityBucketQueue}
use nesso.Queue
use nesso.Record.{Record, OpType}
use nesso.Task.{TaskRef, LeaseInfo, max_retries}
use nesso.Wal.{Wal, AppendIo, append}
use nesso.Wal.Reader.{WalReader, new_reader}

-- Where a record stands: `(segment_id, offset)`.
abbrev pub Loc : Type 0
Loc = ℕ × ℕ

-- `on_task_ready` is whether a callback is set.
pub record EngineState : Type 0 where
  pub wal : Wal
  pub next_id : ℕ
  pub index : Map Loc
  pub data_index : Map Loc
  pub ready_queue : PriorityBucketQueue
  pub leased : Map LeaseInfo
  pub payload_cache : PayloadCache
  pub on_task_ready : Bool

-- The engine with the directory it works on; `notified` counts the calls of the callback.
pub record Engine : Type 0 where
  pub inner : EngineState
  pub reader : WalReader
  pub disk : Disk
  pub notified : ℕ

unfoldable pub new_with_cache_capacity : Wal → ℕ → EngineState
new_with_cache_capacity wal cache_capacity = record {
  wal = wal;
  next_id = 1;
  index = [];
  data_index = [];
  ready_queue = Queue.new;
  leased = [];
  payload_cache = Cache.new cache_capacity;
  on_task_ready = false;
}

unfoldable pub new_state : Wal → EngineState
new_state wal = new_with_cache_capacity wal Cache.default_payload_cache_capacity

unfoldable pub set_on_task_ready : Engine → Engine
set_on_task_ready e = record e { inner = record (e.inner) { on_task_ready = true } }

-- `if let Some(cb) = cb { cb(); }`
unfoldable pub notify : Engine → Engine
notify e = if e.inner.on_task_ready then record e { notified = e.notified + 1 } else e

unfoldable pub status : Engine → ℕ × ℕ
status e = (Queue.len e.inner.ready_queue, length e.inner.leased)

abbrev pub log_state : Engine → Wal → Disk → Engine
log_state e wal disk = record e { inner = record (e.inner) { wal = wal }; disk = disk }

abbrev pub with_inner : Engine → EngineState → Engine
with_inner e s = record e { inner = s }

-- The payload of a lease record: consumer, expiry and retries, 13 bytes.
unfoldable pub lease_payload : ℕ → ℕ → ℕ → List ℕ
lease_payload consumer_id expire_timestamp retries =
    to_be_bytes 4 consumer_id ++ (to_be_bytes 8 expire_timestamp ++ retries ∷ [])

-- What `pop_and_lease` carries out of its locked section.
pub record Leased : Type 0 where
  pub task : TaskRef
  pub data_loc : Loc
  pub cached : Option Payload

-- The rest of `push` once the record stands at `loc`.
unfoldable pub push_indexed : Engine → ℕ → Payload → ℕ → Loc → Engine
push_indexed e id payload priority loc =
    let s = e.inner in
    with_inner e (record s {
      index = insert id loc s.index;
      data_index = insert id loc s.data_index;
      payload_cache = Cache.insert s.payload_cache id payload;
      ready_queue = Queue.push s.ready_queue (record { id = id; priority = priority; retries = 0 });
    })

abbrev pub push_logged : Engine → ℕ → Payload → ℕ → Result Loc × Wal × Disk → Result ℕ × Engine
push_logged e id payload priority (err k, wal, disk) = (err k, log_state e wal disk)
push_logged e id payload priority (ok loc, wal, disk) =
    (ok id, notify (push_indexed (log_state e wal disk) id payload priority loc))

abbrev pub lease_located :
    Engine → TaskRef → Option Loc → Option Payload × PayloadCache → Result (Option Leased) × Engine
lease_located e task none (_, cache) = (err ErrorKind.not_found, e)
lease_located e task (some loc) (cached, cache) = (
  ok (some (record { task = task; data_loc = loc; cached = cached })),
  with_inner e (record (e.inner) { payload_cache = cache }),
)

-- Behind the append of the lease record.
unfoldable pub lease_indexed : Engine → TaskRef → LeaseInfo → Loc → Result (Option Leased) × Engine
lease_indexed e task lease loc =
    let s = e.inner in
    let e' =
      with_inner e
        (record s { index = insert task.id loc s.index; leased = insert task.id lease s.leased }) in
    lease_located e' task (lookup task.id s.data_index) (Cache.get s.payload_cache task.id)

abbrev pub lease_logged :
    Engine → TaskRef → LeaseInfo → Result Loc × Wal × Disk → Result (Option Leased) × Engine
lease_logged e task lease (err k, wal, disk) = (err k, log_state e wal disk)
lease_logged e task lease (ok loc, wal, disk) = lease_indexed (log_state e wal disk) task lease loc

abbrev pub ack_logged : Engine → ℕ → Result Loc × Wal × Disk → Result (Unit {0}) × Engine
ack_logged e id (err k, wal, disk) = (err k, log_state e wal disk)
ack_logged e id (ok loc, wal, disk) =
    let s = e.inner in
    (
      ok tt,
      with_inner (log_state e wal disk) (record s {
        wal = wal;
        index = insert id loc s.index;
        leased = remove id s.leased;
        data_index = remove id s.data_index;
        payload_cache = (Cache.remove s.payload_cache id).1;
      }),
    )

abbrev pub nack_notified : Result Bool × Engine → Result (Unit {0}) × Engine
nack_notified (err k, e) = (err k, e)
nack_notified (ok re_enqueued, e) = (ok tt, if re_enqueued then notify e else e)

-- The end of `process_task_failure`: dead-lettered for good, or ready again.
unfoldable pub failure_indexed : Engine → ℕ → ℕ → ℕ → Loc → Result Bool × Engine
failure_indexed e id priority new_retries loc =
    let s = e.inner in
    let s' : EngineState = record s {
      index = insert id loc s.index;
      leased = remove id s.leased;
    } in
    if leb max_retries new_retries
    then (
      ok false,
      with_inner e (record s' {
        data_index = remove id s.data_index;
        payload_cache = (Cache.remove s.payload_cache id).1;
      }),
    )
    else (
      ok true,
      with_inner e (record s' {
        ready_queue =
            Queue.push s.ready_queue
              (record { id = id; priority = priority; retries = new_retries });
      }),
    )

abbrev pub failure_logged : Engine → ℕ → ℕ → ℕ → Result Loc × Wal × Disk → Result Bool × Engine
failure_logged e id priority new_retries (err k, wal, disk) = (err k, log_state e wal disk)
failure_logged e id priority new_retries (ok loc, wal, disk) =
    failure_indexed (log_state e wal disk) id priority new_retries loc

module _ (crc32 : List ℕ → ℕ) where
  unfoldable pub push : Engine → Payload → ℕ → AppendIo → Result ℕ × Engine
  push e payload priority io =
      let id = e.inner.next_id in
      let e' = with_inner e (record (e.inner) { next_id = add_u64 id 1 }) in
      push_logged e' id payload priority (
        append crc32 e.inner.wal e.disk io
          (record { id = id; op_type = OpType.created; priority = priority; payload = payload }))

  -- The task that was popped gets its lease.
  unfoldable pub lease_task : Engine → TaskRef → ℕ → ℕ → AppendIo → Result (Option Leased) × Engine
  lease_task e task consumer_id expire_timestamp io =
      lease_logged e task
        (record {
          consumer_id = consumer_id;
          expire_timestamp = expire_timestamp;
          retries = task.retries;
          priority = task.priority;
        })
        (append crc32 e.inner.wal e.disk io (record {
          id = task.id;
          op_type = OpType.leased;
          priority = task.priority;
          payload = lease_payload consumer_id expire_timestamp task.retries;
        }))

  abbrev pub lease_popped :
      Engine
      → ℕ
      → ℕ
      → AppendIo
      → Option (Option TaskRef × PriorityBucketQueue)
      → Option (Result (Option Leased) × Engine)
  lease_popped e consumer_id expire_timestamp io none = none
  lease_popped e consumer_id expire_timestamp io (some (none, q)) = some (ok none, e)
  lease_popped e consumer_id expire_timestamp io (some (some task, q)) = some (
      lease_task (with_inner e (record (e.inner) { ready_queue = q })) task consumer_id
        expire_timestamp io)

  -- The locked section of `pop_and_lease`; `none` is a panic of the ready queue.
  unfoldable pub lease_next :
      Engine → ℕ → ℕ → (now : ℕ) → AppendIo → Option (Result (Option Leased) × Engine)
  lease_next e consumer_id lease_ttl_secs now io =
      lease_popped e consumer_id (add_u64 now lease_ttl_secs) io (Queue.pop e.inner.ready_queue)

  unfoldable pub ack : Engine → ℕ → ℕ → AppendIo → Result (Unit {0}) × Engine
  ack e id consumer_id io = elim (lookup id e.inner.leased) [
    | none ↦ (err ErrorKind.not_found, e)
    | some lease ↦
        if not (lease.consumer_id == consumer_id)
        then (err ErrorKind.permission_denied, e)
        else ack_logged e id (
            append crc32 e.inner.wal e.disk io
              (record { id = id; op_type = OpType.acked; priority = lease.priority; payload = [] }))
  ]

  unfoldable pub process_task_failure :
      Engine → ℕ → ℕ → ℕ → OpType → AppendIo → Result Bool × Engine
  process_task_failure e id priority current_retries failure_type io =
      let new_retries = add_u8 current_retries 1 in
      failure_logged e id priority new_retries (
        append crc32 e.inner.wal e.disk io (record {
          id = id;
          op_type = if leb max_retries new_retries then OpType.dead_lettered else failure_type;
          priority = priority;
          payload = new_retries ∷ [];
        }))

  unfoldable pub nack : Engine → ℕ → ℕ → AppendIo → Result (Unit {0}) × Engine
  nack e id consumer_id io = elim (lookup id e.inner.leased) [
    | none ↦ (err ErrorKind.not_found, e)
    | some lease ↦
        if not (lease.consumer_id == consumer_id)
        then (err ErrorKind.permission_denied, e)
        else nack_notified (process_task_failure e id lease.priority lease.retries OpType.nacked io)
  ]
