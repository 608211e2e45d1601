-- ===== src/Engine/Logged/Agreement.antt =====
-- storage/engine.rs: an engine stays in agreement with its log.
use nesso.Base.{
  ℕ, ◌+◌, ◌^◌, ◌<◌, ◌≡◌, refl, ap, sym, ◌∙◌, subst, Option, some, List, ◌∷◌, IsU8, IsU32, arith,
  add_u8, add_u64, inl, inr, ==_refl, true, false, Bool,
}
use mathlib.Core.Option.{some-injective}
use nesso.Base.Maps.{lookup}
use nesso.Cache.{Payload}
use nesso.Disk.{Disk}
use nesso.Io.{Result, ok, err}
use nesso.Queue
use nesso.Queue.{PriorityBucketQueue}
use nesso.Queue.Invariant.{to_list}
use nesso.Queue.Refinement.{pop-Pops}
use nesso.Record.{Record, OpType}
use nesso.Task.{TaskRef, LeaseInfo}
use nesso.Wal.{Wal, AppendIo, append}
use nesso.Engine.{
  Engine, EngineState, Leased, Loc, with_inner, log_state, push, lease_next, ack, nack,
  process_task_failure, nack_notified, lease_indexed, lease_task,
}
use nesso.Engine.Tasks.{IsValid}
use nesso.Engine.Tasks.Operations.{notify-inner}
use nesso.Engine.Tasks.Steps.{
  push-IsValid, lease_next-IsValid, ack-IsValid, nack-IsValid, process_task_failure-IsValid,
}
use nesso.Engine.Answers.{ack_record}
use nesso.Engine.Failures.{failure_record}
use nesso.Engine.Leases.{lease_record, lease_of}
use nesso.Engine.Logged.Moves.{Moves}
use nesso.Engine.Logged.Steps.{created_record, push-Moves, lease-Moves, ack-Moves}
use nesso.Engine.Logged.Failing.{failure-Moves, is_failure}
use nesso.Engine.Logged.Run.{Step}

module _ (crc32 : List ℕ → ℕ) (since : ℕ) where
  push_step :
      (e : Engine) (payload : Payload) (priority : ℕ) (io : AppendIo) (loc : Loc) (wal : Wal)
      (disk : Disk)
      → IsValid e.inner
      → e.inner.next_id + 1 < 2 ^ 64
      → IsU8 priority
      → append crc32 e.inner.wal e.disk io (created_record e.inner.next_id priority payload)
        ≡ (ok loc, wal, disk)
      → Moves since
          (created_record e.inner.next_id priority payload)
          e.inner
          (push crc32 e payload priority io).1.inner
  unfolding push
  push_step e payload priority io loc wal disk v room p logged =
      rw (push, logged, notify-inner)
        (push-Moves since
          (log_state (with_inner e (record (e.inner) { next_id = add_u64 e.inner.next_id 1 })) wal
            disk)
          e.inner payload priority loc v p refl refl refl (omega (arith, room)))

  ack_step :
      (e : Engine) (id : ℕ) (lease : LeaseInfo) (io : AppendIo) (loc : Loc) (wal : Wal)
      (disk : Disk)
      → IsValid e.inner
      → lookup id e.inner.leased ≡ some lease
      → append crc32 e.inner.wal e.disk io (ack_record id lease) ≡ (ok loc, wal, disk)
      → Moves since (ack_record id lease) e.inner (ack crc32 e id lease.consumer_id io).1.inner
  unfolding ack
  ack_step e id lease io loc wal disk v held logged =
      rw (ack, held, ==_refl lease.consumer_id, logged)
        (ack-Moves since e.inner _ id lease v held refl refl refl refl)

  failure_step :
      (e : Engine) (id : ℕ) (lease : LeaseInfo) (op : OpType) (io : AppendIo) (loc : Loc)
      (wal : Wal) (disk : Disk)
      → IsValid e.inner
      → lookup id e.inner.leased ≡ some lease
      → is_failure op ≡ true
      → append crc32 e.inner.wal e.disk io (failure_record id lease.priority (lease.retries + 1) op)
        ≡ (ok loc, wal, disk)
      → Moves since
          (failure_record id lease.priority (lease.retries + 1) op)
          e.inner
          (process_task_failure crc32 e id lease.priority lease.retries op io).1.inner
  unfolding process_task_failure
  failure_step e id lease op io loc wal disk v held failed logged =
      let (_, few, p, _) = v.leases id lease held in
      let n : add_u8 lease.retries 1 ≡ lease.retries + 1 = omega arith in
      rw (process_task_failure, n, logged)
        (failure-Moves since (log_state e wal disk) e.inner id (lease.retries + 1) lease op loc v
          held failed p refl refl refl refl)

  nack_notified-inner : (r : Result Bool × Engine) → (nack_notified r).1.inner ≡ r.1.inner
  nack_notified-inner (err k, e) = refl
  nack_notified-inner (ok true, e) = notify-inner e
  nack_notified-inner (ok false, e) = refl

  pub nack_step :
      (e : Engine) (id : ℕ) (lease : LeaseInfo) (io : AppendIo)
      → lookup id e.inner.leased ≡ some lease
      → (nack crc32 e id lease.consumer_id io).1.inner
        ≡ (process_task_failure crc32 e id lease.priority lease.retries OpType.nacked io).1.inner
  unfolding nack
  nack_step e id lease io held =
      rw (nack, held, ==_refl lease.consumer_id)
        (nack_notified-inner
          (process_task_failure crc32 e id lease.priority lease.retries OpType.nacked io))

  pub popped_order :
      (e : Engine) (t : TaskRef) (q : PriorityBucketQueue)
      → IsValid e.inner
      → Queue.pop e.inner.ready_queue ≡ some (some t, q)
      → to_list e.inner.ready_queue ≡ t ∷ to_list q
  popped_order e t q v popped = elim (pop-Pops e.inner.ready_queue v.queue) [
    | inl (empty, nothing) ↦ absurd (ground (arith, popped, nothing))
    | inr (t', q', order, popped', vq, _) ↦
        let same : some (some t', q') ≡ some (some t, q) = sym popped' ∙ popped in
        let et : t' ≡ t = ground (arith, same) in
        let eq : q' ≡ q = ground (arith, same) in
        order
        ∙ ap (λ (x : TaskRef). x ∷ to_list q') et
        ∙ ap (λ (p : PriorityBucketQueue). t ∷ to_list p) eq
  ]

  pop_step :
      (e : Engine) (consumer_id ttl now : ℕ) (io : AppendIo) (t : TaskRef) (q : PriorityBucketQueue)
      (loc : Loc) (wal : Wal) (disk : Disk) (answer : Result (Option Leased)) (e' : Engine)
      → IsValid e.inner
      → IsU32 consumer_id
      → since < now + ttl
      → now + ttl < 2 ^ 64
      → Queue.pop e.inner.ready_queue ≡ some (some t, q)
      → append crc32 e.inner.wal e.disk io (lease_record t consumer_id (add_u64 now ttl))
        ≡ (ok loc, wal, disk)
      → lease_next crc32 e consumer_id ttl now io ≡ some (answer, e')
      → Moves since (lease_record t consumer_id (add_u64 now ttl)) e.inner e'.inner
  unfolding lease_next lease_task
  pop_step e c ttl now io t q loc wal disk answer e' v hc pos room popped logged served =
      let e1 = with_inner e (record (e.inner) { ready_queue = q }) in
      let x = add_u64 now ttl in
      let m =
        lease-Moves since (log_state e1 wal disk) e.inner t c x loc v hc (omega arith) (omega arith)
          (popped_order e t q v popped) refl refl refl in
      let done : some (lease_indexed (log_state e1 wal disk) t (lease_of t c x) loc)
          ≡ some (answer, e') =
        rw (lease_next, popped, logged) at served in
      subst
        (λ (r : Result (Option Leased) × Engine).
          Moves since (lease_record t c x) e.inner r.1.inner)
        (some-injective _ _ done) m

  -- A step does to the tasks what its record says.
  pub Step-Moves :
      (e : Engine) (x : ℕ × ℕ × Record) (e' : Engine)
      → Step crc32 since e x e'
      → IsValid e.inner
      → Moves since x.2 e.inner e'.inner
  Step-Moves e x e' (Step.pushes _ payload priority io _ _ room p w done) v =
      rw (ap (λ (y : ℕ × ℕ × Record). y.2) w.entry) (
        subst
          (λ (e'' : Engine).
            Moves since (created_record e.inner.next_id priority payload) e.inner e''.inner)
          done
          (push_step e payload priority io w.loc e'.inner.wal e'.disk v room.id_room p w.logged))
  Step-Moves e x e' (Step.pops _ c ttl now io _ _ t q answer hc pos room popped w served) v =
      rw (ap (λ (y : ℕ × ℕ × Record). y.2) w.entry) (
        pop_step e c ttl now io t q w.loc e'.inner.wal e'.disk answer e' v hc pos room popped
          w.logged served)
  Step-Moves e x e' (Step.acks _ id io lease _ _ held w done) v =
      rw (ap (λ (y : ℕ × ℕ × Record). y.2) w.entry) (
        subst (λ (e'' : Engine). Moves since (ack_record id lease) e.inner e''.inner) done
          (ack_step e id lease io w.loc e'.inner.wal e'.disk v held w.logged))
  Step-Moves e x e' (Step.nacks _ id io lease _ _ room held w done) v =
      let r = failure_record id lease.priority (lease.retries + 1) OpType.nacked in
      rw (ap (λ (y : ℕ × ℕ × Record). y.2) w.entry) (
        subst (λ (s : EngineState). Moves since r e.inner s)
          (sym (nack_step e id lease io held) ∙ ap (λ (e'' : Engine). e''.inner) done)
          (failure_step e id lease OpType.nacked io w.loc e'.inner.wal e'.disk v held refl
            w.logged))
  Step-Moves e x e' (Step.expires _ id io lease _ _ room held w done) v =
      let r = failure_record id lease.priority (lease.retries + 1) OpType.expired in
      rw (ap (λ (y : ℕ × ℕ × Record). y.2) w.entry) (
        subst (λ (e'' : Engine). Moves since r e.inner e''.inner) done
          (failure_step e id lease OpType.expired io w.loc e'.inner.wal e'.disk v held refl
            w.logged))

  pub Step-IsValid :
      (e : Engine) (x : ℕ × ℕ × Record) (e' : Engine)
      → Step crc32 since e x e'
      → IsValid e.inner
      → IsValid e'.inner
  Step-IsValid e x e' (Step.pushes _ payload priority io _ _ room p w done) v =
      subst (λ (e'' : Engine). IsValid e''.inner) done
        (push-IsValid crc32 e payload priority io v room p)
  Step-IsValid e x e' (Step.pops _ c ttl now io _ _ t q answer hc pos room popped w served) v =
      let (r, served', v') = lease_next-IsValid crc32 e c ttl now io v in
      subst (λ (r : Result (Option Leased) × Engine). IsValid r.1.inner)
        (some-injective r (answer, e') (sym served' ∙ served)) v'
  Step-IsValid e x e' (Step.acks _ id io lease _ _ held w done) v =
      subst (λ (e'' : Engine). IsValid e''.inner) done
        (ack-IsValid crc32 e id lease.consumer_id io v)
  Step-IsValid e x e' (Step.nacks _ id io lease _ _ room held w done) v =
      subst (λ (e'' : Engine). IsValid e''.inner) done
        (nack-IsValid crc32 e id lease.consumer_id io v room.len_room)
  Step-IsValid e x e' (Step.expires _ id io lease _ _ room held w done) v =
      subst (λ (e'' : Engine). IsValid e''.inner) done
        (process_task_failure-IsValid crc32 e id lease OpType.expired io v held room.len_room)
