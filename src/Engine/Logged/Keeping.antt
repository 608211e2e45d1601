-- ===== src/Engine/Logged/Keeping.antt =====
-- storage/engine.rs: every operation keeps a creation in the log for each task that is not over.
use nesso.Base.{
  ℕ, ◌+◌, ◌^◌, ◌<◌, ◌≡◌, refl, ap, sym, ◌∙◌, subst, Option, none, some, List, [], ◌∷◌, ◌++◌,
  append_assoc, append-nil, leb, arith, Bool-cases, inl, inr, ==_refl, add_u8, add_u64,
}
use mathlib.Core.Option.{some-injective}
use nesso.Base.Maps.{lookup, insert}
use nesso.Cache
use nesso.Cache.{Payload, PayloadCache}
use nesso.Disk.{Disk}
use nesso.Io.{Result, ok}
use nesso.Queue
use nesso.Queue.{PriorityBucketQueue}
use nesso.Record.{Record, OpType}
use nesso.Task.{TaskRef, LeaseInfo, max_retries}
use nesso.Wal.{Wal, AppendIo, append}
use nesso.Engine.{
  Engine, EngineState, Leased, Loc, with_inner, log_state, push, lease_next, ack,
  process_task_failure, lease_indexed, lease_task, failure_indexed, lease_located,
}
use nesso.Engine.Tasks.{IsValid}
use nesso.Engine.Tasks.Operations.{notify-inner}
use nesso.Engine.Leases.{lease_record, lease_of}
use nesso.Engine.Logged.Steps.{created_record}
use nesso.Engine.Answers.{ack_record}
use nesso.Engine.Failures.{failure_record}
use nesso.Engine.Logged.Agreement.{nack_step, Step-IsValid}
use nesso.Engine.Logged.Payload.{
  Keeps, Shrinks, Shrinks-Keeps, forgotten-Shrinks, get-entries, push-Keeps,
}
use nesso.Engine.Logged.Run.{Step, Run}

failure_indexed-Shrinks :
    (e : Engine) (id priority n : ℕ) (loc : Loc)
    → Shrinks e.inner (failure_indexed e id priority n loc).1.inner
unfolding failure_indexed
failure_indexed-Shrinks e id priority n loc = elim (Bool-cases (leb max_retries n)) [
  | inl over ↦ rw (failure_indexed, over) (forgotten-Shrinks e.inner _ id refl refl refl)
  | inr again ↦
      rw (failure_indexed, again)
        (record { places = λ j at h. h; payloads = λ j p h. h; ids = omega arith })
]

lease_located-Shrinks :
    (e : Engine) (task : TaskRef) (found : Option Loc) (r : Option Payload × PayloadCache)
    → r.1.entries ≡ e.inner.payload_cache.entries
    → Shrinks e.inner (lease_located e task found r).1.inner
lease_located-Shrinks e task none r same = record {
  places = λ j at h. h;
  payloads = λ j p h. h;
  ids = omega arith;
}
lease_located-Shrinks e task (some loc) (cached, cache) same = record {
  places = λ j at h. h;
  payloads = λ j p h. subst (λ m. lookup j m ≡ some p) same h;
  ids = omega arith;
}

module _ (crc32 : List ℕ → ℕ) (since : ℕ) where
  pub failed-Shrinks :
      (e : Engine) (id : ℕ) (lease : LeaseInfo) (op : OpType) (io : AppendIo) (loc : Loc)
      (wal : Wal) (disk : Disk)
      → IsValid e.inner
      → lookup id e.inner.leased ≡ some lease
      → append crc32 e.inner.wal e.disk io (failure_record id lease.priority (lease.retries + 1) op)
        ≡ (ok loc, wal, disk)
      → Shrinks e.inner (process_task_failure crc32 e id lease.priority lease.retries op io).1.inner
  unfolding process_task_failure
  failed-Shrinks e id lease op io loc wal disk v held logged =
      let (_, few, _, _) = v.leases id lease held in
      let n : add_u8 lease.retries 1 ≡ lease.retries + 1 = omega arith in
      let h =
        failure_indexed-Shrinks (log_state e wal disk) id lease.priority (lease.retries + 1) loc in
      rw (process_task_failure, n, logged)
        (record { places = h.places; payloads = h.payloads; ids = h.ids })

  pub leased-Shrinks :
      (e : Engine) (consumer_id ttl now : ℕ) (io : AppendIo) (t : TaskRef) (q : PriorityBucketQueue)
      (loc : Loc) (wal : Wal) (disk : Disk) (answer : Result (Option Leased)) (e' : Engine)
      → Queue.pop e.inner.ready_queue ≡ some (some t, q)
      → append crc32 e.inner.wal e.disk io (lease_record t consumer_id (add_u64 now ttl))
        ≡ (ok loc, wal, disk)
      → lease_next crc32 e consumer_id ttl now io ≡ some (answer, e')
      → Shrinks e.inner e'.inner
  unfolding lease_next lease_task lease_indexed
  leased-Shrinks e c ttl now io t q loc wal disk answer e' popped logged served =
      let e1 = log_state (with_inner e (record (e.inner) { ready_queue = q })) wal disk in
      let done : some (lease_indexed e1 t (lease_of t c (add_u64 now ttl)) loc)
          ≡ some (answer, e') =
        rw (lease_next, popped, logged) at served in
      let e2 = with_inner e1 (record (e1.inner) {
        index = insert t.id loc e1.inner.index;
        leased = insert t.id (lease_of t c (add_u64 now ttl)) e1.inner.leased;
      }) in
      let h =
        lease_located-Shrinks e2 t (lookup t.id e.inner.data_index)
          (Cache.get e.inner.payload_cache t.id) (get-entries e.inner.payload_cache t.id) in
      subst (λ (r : Result (Option Leased) × Engine). Shrinks e.inner r.1.inner)
        (some-injective _ _ done) (record { places = h.places; payloads = h.payloads; ids = h.ids })

  pub acked-Shrinks :
      (e : Engine) (id : ℕ) (lease : LeaseInfo) (io : AppendIo) (loc : Loc) (wal : Wal)
      (disk : Disk)
      → lookup id e.inner.leased ≡ some lease
      → append crc32 e.inner.wal e.disk io (ack_record id lease) ≡ (ok loc, wal, disk)
      → Shrinks e.inner (ack crc32 e id lease.consumer_id io).1.inner
  unfolding ack
  acked-Shrinks e id lease io loc wal disk held logged =
      rw (ack, held, ==_refl lease.consumer_id, logged)
        (forgotten-Shrinks e.inner _ id refl refl refl)

  pushed-Keeps :
      (log : List (ℕ × ℕ × Record)) (e : Engine) (payload : Payload) (priority : ℕ) (io : AppendIo)
      (loc : Loc) (wal : Wal) (disk : Disk)
      → e.inner.next_id + 1 < 2 ^ 64
      → append crc32 e.inner.wal e.disk io (created_record e.inner.next_id priority payload)
        ≡ (ok loc, wal, disk)
      → Keeps log e.inner
      → Keeps
          (log ++ (loc.0, loc.1, created_record e.inner.next_id priority payload) ∷ [])
          (push crc32 e payload priority io).1.inner
  unfolding push
  pushed-Keeps log e payload priority io loc wal disk room logged k =
      rw (push, logged, notify-inner)
        (push-Keeps log
          (log_state (with_inner e (record (e.inner) { next_id = add_u64 e.inner.next_id 1 })) wal
            disk)
          e.inner payload priority loc (omega (arith, room)) refl refl k)

  Step-Keeps :
      (log : List (ℕ × ℕ × Record)) (e : Engine) (x : ℕ × ℕ × Record) (e' : Engine)
      → Step crc32 since e x e'
      → IsValid e.inner
      → Keeps log e.inner
      → Keeps (log ++ x ∷ []) e'.inner
  Step-Keeps log e x e' (Step.pushes _ payload priority io _ _ room p w done) v k = rw w.entry (
      subst
        (λ (e'' : Engine).
          Keeps (log ++ (w.loc.0, w.loc.1, created_record e.inner.next_id priority payload) ∷ [])
            e''.inner)
        done
        (pushed-Keeps log e payload priority io w.loc e'.inner.wal e'.disk room.id_room w.logged k))
  Step-Keeps log e x e' (Step.pops _ c ttl now io _ _ t q answer hc pos room popped w served) v k =
      Shrinks-Keeps log x e.inner e'.inner
        (leased-Shrinks e c ttl now io t q w.loc e'.inner.wal e'.disk answer e' popped w.logged
          served)
        k
  Step-Keeps log e x e' (Step.acks _ id io lease _ _ held w done) v k =
      Shrinks-Keeps log x e.inner e'.inner
        (subst (λ (e'' : Engine). Shrinks e.inner e''.inner) done
          (acked-Shrinks e id lease io w.loc e'.inner.wal e'.disk held w.logged))
        k
  Step-Keeps log e x e' (Step.nacks _ id io lease _ _ room held w done) v k =
      Shrinks-Keeps log x e.inner e'.inner
        (subst (λ (s : EngineState). Shrinks e.inner s)
          (sym (nack_step crc32 since e id lease io held) ∙ ap (λ (e'' : Engine). e''.inner) done)
          (failed-Shrinks e id lease OpType.nacked io w.loc e'.inner.wal e'.disk v held w.logged))
        k
  Step-Keeps log e x e' (Step.expires _ id io lease _ _ room held w done) v k =
      Shrinks-Keeps log x e.inner e'.inner
        (subst (λ (e'' : Engine). Shrinks e.inner e''.inner) done
          (failed-Shrinks e id lease OpType.expired io w.loc e'.inner.wal e'.disk v held w.logged))
        k

  -- Whatever operations write their records one behind the other, the engine keeps a creation in
  -- the log for each task that is not over.
  pub Run-Keeps :
      (e e' : Engine) (log xs : List (ℕ × ℕ × Record))
      → Run crc32 since e xs e'
      → IsValid e.inner
      → Keeps log e.inner
      → IsValid e'.inner × Keeps (log ++ xs) e'.inner
  Run-Keeps e _ log _ (Run.start _) v k = (v, rw (append-nil log) k)
  Run-Keeps e e' log _ (Run.next _ m _ xs x before step) v k =
      let (vm, km) = Run-Keeps e m log xs before v k in
      (
        Step-IsValid crc32 since m x e' step vm,
        subst (λ (l : List (ℕ × ℕ × Record)). Keeps l e'.inner) (append_assoc log xs (x ∷ []))
            (Step-Keeps (log ++ xs) m x e' step vm km),
      )
