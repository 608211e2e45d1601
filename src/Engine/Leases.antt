-- ===== src/Engine/Leases.antt =====
-- storage/engine.rs, `push` and the locked section of `pop_and_lease`, against the order of the
-- tasks.
use nesso.Base.{
  ℕ, ◌+◌, ◌^◌, ◌<◌, ◌≡◌, refl, sym, ◌∙◌, true, false, Option, none, some, List, ◌∷◌, IsU8, arith,
  inl, inr, add_u64, subst, All, Option-cases,
}
use nesso.Base.Maps.{lookup, insert, contains, lookup-insert_self}
use nesso.Cache
use nesso.Cache.{Payload, PayloadCache}
use nesso.Disk.{Disk}
use nesso.Io.{ErrorKind, Result, ok, err}
use nesso.Queue.Order.{insert_task}
use nesso.Queue.Invariant.{to_list, push-to_list, IsValid as IsQueue}
use nesso.Queue.Refinement.{pop-Pops}
use nesso.Record.{OpType, Record}
use nesso.Task.{TaskRef, LeaseInfo}
use nesso.Wal.{Wal, AppendIo, append}
use nesso.Engine.{
  Engine, EngineState, Loc, Leased, with_inner, log_state, push, push_indexed, lease_next,
  lease_task, lease_indexed, lease_payload,
}
use nesso.Engine.Tasks.{IsValid, IsReady, Distinct, holds}
use nesso.Engine.Tasks.Lists.{holds_fresh}
use nesso.Engine.Tasks.Operations.{notify-inner}

-- The lease that a task gets, and the record that says so.
abbrev pub lease_of : TaskRef → ℕ → ℕ → LeaseInfo
lease_of t consumer_id expire_timestamp = record {
  consumer_id = consumer_id;
  expire_timestamp = expire_timestamp;
  retries = t.retries;
  priority = t.priority;
}

abbrev pub lease_record : TaskRef → ℕ → ℕ → Record
lease_record t consumer_id expire_timestamp = record {
  id = t.id;
  op_type = OpType.leased;
  priority = t.priority;
  payload = lease_payload consumer_id expire_timestamp t.retries;
}

-- What a pop that found `t` leaves: `ts` are ready, and `t` is leased to the consumer.
pub record Serves (t : TaskRef) (ts : List TaskRef) (lease : LeaseInfo)
    (r : Option (Result (Option Leased) × Engine)) : Type 0 where
  pub task : Leased
  pub engine : Engine
  pub answer : r ≡ some (ok (some task), engine)
  pub served : task.task ≡ t
  pub ready : to_list engine.inner.ready_queue ≡ ts
  pub leased : lookup t.id engine.inner.leased ≡ some lease

lease_indexed-Serves :
    (e : Engine) (t : TaskRef) (lease : LeaseInfo) (loc : Loc)
    → contains t.id e.inner.data_index ≡ true
    → Serves t (to_list e.inner.ready_queue) lease (some (lease_indexed e t lease loc))
unfolding lease_indexed
lease_indexed-Serves e t lease loc known = elim (Option-cases (lookup t.id e.inner.data_index)) [
  | inl missing ↦ absurd (ground arith)
  | inr (data_loc, e') ↦
      let (cached, cache) = Cache.get e.inner.payload_cache t.id in
      let s' : EngineState = record (e.inner) {
        index = insert t.id loc e.inner.index;
        leased = insert t.id lease e.inner.leased;
        payload_cache = cache;
      } in
      record {
        task = record { task = t; data_loc = data_loc; cached = cached };
        engine = with_inner e s';
        answer = rw e';
        served = refl;
        ready = refl;
        leased = lookup-insert_self t.id lease e.inner.leased;
      }
]

cons_parts : (t t' : TaskRef) (ts ts' : List TaskRef) → t ∷ ts ≡ t' ∷ ts' → (t ≡ t') × (ts ≡ ts')
cons_parts t t' ts ts' e = (cc, cc)

-- A task of the log that is neither ready nor leased: no pop, ack or nack reaches it.
pub record IsStranded (id : ℕ) (s : EngineState) : Type 0 where
  pub placed : contains id s.data_index ≡ true
  pub unready : holds id (to_list s.ready_queue) ≡ false
  pub unleased : lookup id s.leased ≡ none

-- What a push leaves: its task is ready, behind those of its priority, and has its place.
pub record Pushes (e : Engine) (payload : Payload) (priority : ℕ) (loc : Loc)
    (r : Result ℕ × Engine) : Type 0 where
  pub answer : r.0 ≡ ok e.inner.next_id
  pub next_id : r.1.inner.next_id ≡ e.inner.next_id + 1
  pub ready :
      to_list r.1.inner.ready_queue
      ≡ insert_task
          (record { id = e.inner.next_id; priority = priority; retries = 0 })
          (to_list e.inner.ready_queue)
  pub placed : lookup e.inner.next_id r.1.inner.data_index ≡ some loc
  pub leased : r.1.inner.leased ≡ e.inner.leased
  pub cached : r.1.inner.payload_cache ≡ Cache.insert e.inner.payload_cache e.inner.next_id payload

module _ (crc32 : List ℕ → ℕ) where
  lease_task-Serves :
      (e : Engine) (t : TaskRef) (consumer_id expire_timestamp : ℕ) (io : AppendIo) (loc : Loc)
      (wal : Wal) (disk : Disk)
      → contains t.id e.inner.data_index ≡ true
      → append crc32 e.inner.wal e.disk io (lease_record t consumer_id expire_timestamp)
        ≡ (ok loc, wal, disk)
      → Serves t
          (to_list e.inner.ready_queue)
          (lease_of t consumer_id expire_timestamp)
          (some (lease_task crc32 e t consumer_id expire_timestamp io))
  unfolding lease_task
  lease_task-Serves e t c expire io loc wal disk known logged =
      rw (lease_task, logged)
        (lease_indexed-Serves (log_state e wal disk) t (lease_of t c expire) loc known)

  -- On an engine in order with a ready task, the task that a pop leases is the first in the order:
  -- the highest priority, and the oldest within it. It leaves the ready queue, and is leased to the
  -- consumer until the time to live is over, if its record is written.
  pub lease_next-Serves :
      (e : Engine) (consumer_id lease_ttl_secs now : ℕ) (io : AppendIo) (t : TaskRef)
      (ts : List TaskRef) (loc : Loc) (wal : Wal) (disk : Disk)
      → IsValid e.inner
      → to_list e.inner.ready_queue ≡ t ∷ ts
      → append crc32 e.inner.wal e.disk io (lease_record t consumer_id (add_u64 now lease_ttl_secs))
        ≡ (ok loc, wal, disk)
      → Serves t ts
          (lease_of t consumer_id (add_u64 now lease_ttl_secs))
          (lease_next crc32 e consumer_id lease_ttl_secs now io)
  unfolding lease_next
  lease_next-Serves e c ttl now io t ts loc wal disk v order logged =
      elim (pop-Pops e.inner.ready_queue v.queue) [
        | inl (empty, _) ↦ absurd (ground (arith, order, empty))
        | inr (t', q, order', popped, vq, _) ↦
            let (same, rest) = cons_parts t t' ts (to_list q) (sym order ∙ order') in
            let ready =
              subst (All (IsReady e.inner.next_id e.inner.leased e.inner.data_index)) order
                v.ready in
            rw (lease_next, popped, ← same, rest)
              (lease_task-Serves (with_inner e (record (e.inner) { ready_queue = q })) t c
                (add_u64 now ttl) io loc wal disk ready.0.4 logged)
      ]

  -- On an engine in order with a ready task, if the record of its lease is not written the pop
  -- answers the error, and the task it took from
  -- the ready queue is stranded.
  pub lease_next-strands :
      (e : Engine) (consumer_id lease_ttl_secs now : ℕ) (io : AppendIo) (t : TaskRef)
      (ts : List TaskRef) (k : ErrorKind) (wal : Wal) (disk : Disk)
      → IsValid e.inner
      → to_list e.inner.ready_queue ≡ t ∷ ts
      → append crc32 e.inner.wal e.disk io (lease_record t consumer_id (add_u64 now lease_ttl_secs))
        ≡ (err k, wal, disk)
      → (e' : Engine) × (lease_next crc32 e consumer_id lease_ttl_secs now io ≡ some (err k, e'))
        × IsStranded t.id e'.inner
  unfolding lease_next lease_task
  lease_next-strands e c ttl now io t ts k wal disk v order logged =
      elim (pop-Pops e.inner.ready_queue v.queue) [
        | inl (empty, _) ↦ absurd (ground (arith, order, empty))
        | inr (t', q, order', popped, vq, _) ↦
            let (same, rest) = cons_parts t t' ts (to_list q) (sym order ∙ order') in
            let ready =
              subst (All (IsReady e.inner.next_id e.inner.leased e.inner.data_index)) order
                v.ready in
            let distinct = subst Distinct order v.distinct in
            let e' = log_state (with_inner e (record (e.inner) { ready_queue = q })) wal disk in
            (
              e',
              rw (lease_next, popped, ← same, lease_task, logged),
              record {
                placed = ready.0.4;
                unready = rw (← rest) (holds_fresh t.id ts distinct.0);
                unleased = ready.0.3;
              },
            )
      ]

  -- A push of a u8 priority on a valid ready queue, with room for the next id, whose record is
  -- written answers the next id. Its task is ready, behind the others of its
  -- priority, has its place in the log, and its payload is given to the cache.
  pub push-Pushes :
      (e : Engine) (payload : Payload) (priority : ℕ) (io : AppendIo) (loc : Loc) (wal : Wal)
      (disk : Disk)
      → IsQueue e.inner.ready_queue
      → IsU8 priority
      → e.inner.next_id + 1 < 2 ^ 64
      → append crc32 e.inner.wal e.disk io (record {
        id = e.inner.next_id;
        op_type = OpType.created;
        priority = priority;
        payload = payload;
      })
        ≡ (ok loc, wal, disk)
      → Pushes e payload priority loc (push crc32 e payload priority io)
  unfolding push push_indexed
  push-Pushes e payload priority io loc wal disk v p room logged =
      let id = e.inner.next_id in
      let e' = with_inner e (record (e.inner) { next_id = add_u64 id 1 }) in
      let e'' = push_indexed (log_state e' wal disk) id payload priority loc in
      rw (push, logged)
        (record {
          answer = refl;
          next_id = rw (notify-inner e'') (omega arith);
          ready = rw (notify-inner e'') (
              push-to_list e.inner.ready_queue
                (record { id = id; priority = priority; retries = 0 }) v p);
          placed = rw (notify-inner e'') (lookup-insert_self id loc e.inner.data_index);
          leased = rw (notify-inner e'');
          cached = rw (notify-inner e'');
        })
