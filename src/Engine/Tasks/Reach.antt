-- ===== src/Engine/Tasks/Reach.antt =====
-- storage/engine.rs: any sequence of operations on the engine.
use nesso.Base.{
  ℕ, ◌+◌, ◌^◌, ◌<◌, ◌≡◌, refl, Bool, true, false, sym, ◌∙◌, ◌==◌, Option, some, none, List, IsU8,
  subst, length, Bool-cases, Option-cases, inl, inr, add_u64,
}
use mathlib.Core.Option.{some-injective}
use nesso.Base.Keys.{DistinctKeys, insert-DistinctKeys, remove-DistinctKeys}
use nesso.Base.Maps.{lookup}
use nesso.Cache.{Payload, PayloadCache}
use nesso.Disk.{Disk}
use nesso.Io.{Result, ok, err}
use nesso.Queue
use nesso.Queue.{PriorityBucketQueue}
use nesso.Record.{OpType}
use nesso.Task.{TaskRef, LeaseInfo}
use nesso.Wal.{Wal, AppendIo, append}
use nesso.Engine.{
  Engine, Leased, Loc, push, push_logged, push_indexed, with_inner, lease_next, lease_popped,
  lease_task, lease_logged, lease_indexed, lease_located, ack, ack_logged, nack, nack_notified,
  process_task_failure,
}
use nesso.Engine.Expiration.{expired_tasks, expiration_round}
use nesso.Engine.Leases.{lease_of, lease_record}
use nesso.Engine.Tasks.{IsValid}
use nesso.Engine.Tasks.Operations.{HasRoom, notify-inner}
use nesso.Engine.Tasks.Rounds.{
  IsInOrder, process_task_failure-FailsOne, FailsOne-DistinctKeys, expiration_round-IsInOrder,
}
use nesso.Engine.Tasks.Steps.{push-IsValid, lease_next-IsValid, ack-IsValid, nack-IsValid}

-- A push leaves the leases alone.
push_logged-leased :
    (e : Engine) (id : ℕ) (payload : Payload) (priority : ℕ) (r : Result Loc × Wal × Disk)
    → (push_logged e id payload priority r).1.inner.leased ≡ e.inner.leased
unfolding push_indexed
push_logged-leased e id payload priority (err k, wal, disk) = refl
push_logged-leased e id payload priority (ok loc, wal, disk) = rw notify-inner refl

lease_located-leased :
    (e : Engine) (task : TaskRef) (found : Option Loc) (r : Option Payload × PayloadCache)
    → (lease_located e task found r).1.inner.leased ≡ e.inner.leased
lease_located-leased e task none r = refl
lease_located-leased e task (some loc) r = refl

lease_logged-DistinctKeys :
    (e : Engine) (task : TaskRef) (lease : LeaseInfo) (r : Result Loc × Wal × Disk)
    → DistinctKeys e.inner.leased
    → DistinctKeys (lease_logged e task lease r).1.inner.leased
unfolding lease_indexed
lease_logged-DistinctKeys e task lease (err k, wal, disk) d = d
lease_logged-DistinctKeys e task lease (ok loc, wal, disk) d =
    rw lease_located-leased (insert-DistinctKeys task.id lease e.inner.leased d)

ack_logged-DistinctKeys :
    (e : Engine) (id : ℕ) (r : Result Loc × Wal × Disk)
    → DistinctKeys e.inner.leased
    → DistinctKeys (ack_logged e id r).1.inner.leased
ack_logged-DistinctKeys e id (err k, wal, disk) d = d
ack_logged-DistinctKeys e id (ok loc, wal, disk) d = remove-DistinctKeys id e.inner.leased d

nack_notified-DistinctKeys :
    (r : Result Bool × Engine)
    → DistinctKeys r.1.inner.leased
    → DistinctKeys (nack_notified r).1.inner.leased
nack_notified-DistinctKeys (err k, e) d = d
nack_notified-DistinctKeys (ok true, e) d = rw notify-inner d
nack_notified-DistinctKeys (ok false, e) d = d

module _ (crc32 : List ℕ → ℕ) where
  pub push-leased :
      (e : Engine) (payload : Payload) (priority : ℕ) (io : AppendIo)
      → (push crc32 e payload priority io).1.inner.leased ≡ e.inner.leased
  unfolding push
  push-leased e payload priority io =
      push_logged-leased (with_inner e (record (e.inner) { next_id = add_u64 e.inner.next_id 1 }))
        e.inner.next_id payload priority
        (append crc32 e.inner.wal e.disk io (record {
          id = e.inner.next_id;
          op_type = OpType.created;
          priority = priority;
          payload = payload;
        }))

  lease_popped-DistinctKeys :
      (e : Engine) (c expire : ℕ) (io : AppendIo)
      (popped : Option (Option TaskRef × PriorityBucketQueue)) (r : Result (Option Leased) × Engine)
      → lease_popped crc32 e c expire io popped ≡ some r
      → DistinctKeys e.inner.leased
      → DistinctKeys r.1.inner.leased
  unfolding lease_task
  lease_popped-DistinctKeys e c expire io none r served d = absurd cc
  lease_popped-DistinctKeys e c expire io (some (none, q)) r served d =
      subst (λ (x : Result (Option Leased) × Engine). DistinctKeys x.1.inner.leased)
        (some-injective (ok none, e) r served) d
  lease_popped-DistinctKeys e c expire io (some (some t, q)) r served d =
      let e' = with_inner e (record (e.inner) { ready_queue = q }) in
      subst (λ (x : Result (Option Leased) × Engine). DistinctKeys x.1.inner.leased)
        (some-injective (lease_task crc32 e' t c expire io) r served)
        (lease_logged-DistinctKeys e' t (lease_of t c expire)
          (append crc32 e.inner.wal e.disk io (lease_record t c expire)) d)

  pub lease_next-DistinctKeys :
      (e : Engine) (c ttl now : ℕ) (io : AppendIo) (r : Result (Option Leased) × Engine)
      → lease_next crc32 e c ttl now io ≡ some r
      → DistinctKeys e.inner.leased
      → DistinctKeys r.1.inner.leased
  unfolding lease_next
  lease_next-DistinctKeys e c ttl now io r served d =
      lease_popped-DistinctKeys e c (add_u64 now ttl) io (Queue.pop e.inner.ready_queue) r served d

  pub ack-DistinctKeys :
      (e : Engine) (id consumer_id : ℕ) (io : AppendIo)
      → DistinctKeys e.inner.leased
      → DistinctKeys (ack crc32 e id consumer_id io).1.inner.leased
  unfolding ack
  ack-DistinctKeys e id c io d = elim (Option-cases (lookup id e.inner.leased)) [
    | inl free ↦ rw (ack, free) d
    | inr (lease, held) ↦ elim (Bool-cases (lease.consumer_id == c)) [
      | inl mine ↦ rw (ack, held, mine) (ack_logged-DistinctKeys e id _ d)
      | inr other ↦ rw (ack, held, other) d
    ]
  ]

  pub nack-DistinctKeys :
      (e : Engine) (id consumer_id : ℕ) (io : AppendIo)
      → DistinctKeys e.inner.leased
      → DistinctKeys (nack crc32 e id consumer_id io).1.inner.leased
  unfolding nack
  nack-DistinctKeys e id c io d = elim (Option-cases (lookup id e.inner.leased)) [
    | inl free ↦ rw (nack, free) d
    | inr (lease, held) ↦ elim (Bool-cases (lease.consumer_id == c)) [
      | inl mine ↦
          let r = process_task_failure crc32 e id lease.priority lease.retries OpType.nacked io in
          rw (nack, held, mine)
            (nack_notified-DistinctKeys r (
              FailsOne-DistinctKeys id e.inner r.1.inner
                (process_task_failure-FailsOne crc32 e id lease.priority lease.retries OpType.nacked
                  io)
                d))
      | inr other ↦ rw (nack, held, other) d
    ]
  ]

  -- One operation on the engine, or one round of the expiration thread with nothing in between its
  -- two locked sections. The counters have room for what comes in, and a priority is a `u8`.
  pub data Step : Engine → Engine → Type 0 where
    pushes :
        (e : Engine) (payload : Payload) (priority : ℕ) (io : AppendIo)
        → HasRoom e.inner
        → IsU8 priority
        → Step e (push crc32 e payload priority io).1
    pops :
        (e : Engine) (consumer_id lease_ttl_secs now : ℕ) (io : AppendIo)
        (r : Result (Option Leased) × Engine)
        → lease_next crc32 e consumer_id lease_ttl_secs now io ≡ some r
        → Step e r.1
    acks :
        (e : Engine) (id consumer_id : ℕ) (io : AppendIo) → Step e (ack crc32 e id consumer_id io).1
    nacks :
        (e : Engine) (id consumer_id : ℕ) (io : AppendIo)
        → HasRoom e.inner
        → Step e (nack crc32 e id consumer_id io).1
    expires :
        (e : Engine) (now : ℕ) (io : ℕ → AppendIo)
        → e.inner.ready_queue.len + length (expired_tasks now e.inner.leased) < 2 ^ 64
        → Step e (expiration_round crc32 (λ x. x) e now io)

  pub data Reach : Engine → Engine → Type 0 where
    start : (e : Engine) → Reach e e
    next : (e e' e'' : Engine) → Reach e e' → Step e' e'' → Reach e e''

  Step-IsInOrder : (e e' : Engine) → Step e e' → IsInOrder e.inner → IsInOrder e'.inner
  Step-IsInOrder e _ (pushes _ payload priority io room p) v = record {
    valid = push-IsValid crc32 e payload priority io v.valid room p;
    once = rw (push-leased e payload priority io) v.once;
  }
  Step-IsInOrder e _ (pops _ c ttl now io r served) v =
      let (r', served', v') = lease_next-IsValid crc32 e c ttl now io v.valid in
      record {
        valid =
            subst (λ (x : Result (Option Leased) × Engine). IsValid x.1.inner)
              (some-injective r' r (sym served' ∙ served)) v';
        once = lease_next-DistinctKeys e c ttl now io r served v.once;
      }
  Step-IsInOrder e _ (acks _ id c io) v = record {
    valid = ack-IsValid crc32 e id c io v.valid;
    once = ack-DistinctKeys e id c io v.once;
  }
  Step-IsInOrder e _ (nacks _ id c io room) v = record {
    valid = nack-IsValid crc32 e id c io v.valid room.len_room;
    once = nack-DistinctKeys e id c io v.once;
  }
  Step-IsInOrder e _ (expires _ now io room) v = expiration_round-IsInOrder crc32 e now io v room

  -- Whatever pushes, pops, acks, nacks and rounds of the expiration thread run, nothing coming in
  -- between the two locked sections of a round, and whatever their appends answer, tasks that were
  -- in order stay so: a task that is ready is not leased and stands in the queue once, its retries
  -- are below the limit, every lease and every ready task has its place in the log, and a task has
  -- one lease at most.
  pub Reach-IsInOrder : (e e' : Engine) → Reach e e' → IsInOrder e.inner → IsInOrder e'.inner
  Reach-IsInOrder e _ (start _) v = v
  Reach-IsInOrder e e' (next _ m _ before step) v =
      Step-IsInOrder m e' step (Reach-IsInOrder e m before v)
