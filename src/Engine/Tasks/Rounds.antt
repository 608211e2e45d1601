-- ===== src/Engine/Tasks/Rounds.antt =====
-- storage/engine.rs: a round of the expiration thread keeps the tasks in order, and every operation
-- keeps one lease for each task.
use nesso.Base.{
  ℕ, ◌+◌, ◌^◌, ◌≤◌, ◌<◌, ◌≡◌, ◌≢◌, refl, ◌⊎◌, some, List, [], ◌∷◌, All, length, leb, if◌then◌else◌,
  arith, Bool-cases, inl, inr, add_u8,
}
use nesso.Base.Keys.{DistinctKeys, remove-DistinctKeys}
use nesso.Base.Maps.{Map, lookup, remove, lookup-remove}
use nesso.Disk.{Disk}
use nesso.Io.{Result, ok, err}
use nesso.Queue
use nesso.Record.{OpType}
use nesso.Task.{LeaseInfo, max_retries}
use nesso.Wal.{Wal, AppendIo, append}
use nesso.Engine.{Engine, EngineState, Loc, process_task_failure, failure_logged, failure_indexed}
use nesso.Engine.Expiration.{
  ExpiredTask, expired_tasks, fail_expired, process_expired, expiration_round, count_re_enqueued,
}
use nesso.Engine.Expiration.Rounds.{count_re_enqueued-inner, notify_times-inner}
use nesso.Engine.Tasks.{IsValid}
use nesso.Engine.Tasks.Steps.{process_task_failure-IsValid}

-- What the failure of a task does to the leases and to the size of the queue.
pub record FailsOne (id : ℕ) (s s' : EngineState) : Type 0 where
  pub leases : (s'.leased ≡ s.leased) ⊎ (s'.leased ≡ remove id s.leased)
  pub room : s'.ready_queue.len ≤ s.ready_queue.len + 1

failure_logged-FailsOne :
    (e : Engine) (id priority n : ℕ) (r : Result Loc × Wal × Disk)
    → FailsOne id e.inner (failure_logged e id priority n r).1.inner
unfolding failure_indexed Queue.push
failure_logged-FailsOne e id priority n (err k, wal, disk) = record {
  leases = inl refl;
  room = omega arith;
}
failure_logged-FailsOne e id priority n (ok loc, wal, disk) =
    elim (Bool-cases (leb max_retries n)) [
      | inl over ↦ rw (failure_indexed, over) (record { leases = inr refl; room = omega arith })
      | inr few ↦ rw (failure_indexed, few) (record { leases = inr refl; room = ground arith })
    ]

-- The collected tasks are leased, each once, with the priority and the retries collected.
abbrev pub Holds : Map LeaseInfo → List ExpiredTask → Type 0
Holds leased [] = Unit {0}
Holds leased ((id, priority, retries) ∷ tasks) =
    ((lease : LeaseInfo) × (lookup id leased ≡ some lease)
      × (lease.priority ≡ priority)
      × (lease.retries ≡ retries))
    × All (λ (t : ExpiredTask). t.0 ≢ id) tasks
    × Holds leased tasks

Holds-remove :
    (id : ℕ) (leased : Map LeaseInfo) (tasks : List ExpiredTask)
    → All (λ (t : ExpiredTask). t.0 ≢ id) tasks
    → Holds leased tasks
    → Holds (remove id leased) tasks
Holds-remove id leased [] apart h = tt
Holds-remove id leased ((j, priority, retries) ∷ tasks) apart ((lease, held, p, n), once, h) = (
  (lease, ground (arith, apart.0, lookup-remove id j leased, held), p, n),
  once,
  Holds-remove id leased tasks apart.1 h,
)

Holds-cons :
    (id : ℕ) (l : LeaseInfo) (leased : Map LeaseInfo) (tasks : List ExpiredTask)
    → All (λ (t : ExpiredTask). t.0 ≢ id) tasks
    → Holds leased tasks
    → Holds ((id, l) ∷ leased) tasks
unfolding lookup
Holds-cons id l leased [] apart h = tt
Holds-cons id l leased ((j, priority, retries) ∷ tasks) apart ((lease, held, p, n), once, h) =
    ((lease, ground (arith, apart.0, held), p, n), once, Holds-cons id l leased tasks apart.1 h)

expired_tasks-All :
    (now id : ℕ) (leased : Map LeaseInfo)
    → All (λ (e : ℕ × LeaseInfo). e.0 ≢ id) leased
    → All (λ (t : ExpiredTask). t.0 ≢ id) (expired_tasks now leased)
unfolding expired_tasks
expired_tasks-All now id [] h = tt
expired_tasks-All now id ((j, lease) ∷ leased) h =
    let rest = expired_tasks-All now id leased h.1 in
    elim (Bool-cases (leb lease.expire_timestamp now)) [
      | inl over ↦ rw over (h.0, rest)
      | inr time ↦ rw time rest
    ]

pub expired_tasks-Holds :
    (now : ℕ) (leased : Map LeaseInfo)
    → DistinctKeys leased
    → Holds leased (expired_tasks now leased)
unfolding expired_tasks lookup
expired_tasks-Holds now [] d = tt
expired_tasks-Holds now ((id, lease) ∷ leased) d =
    let apart = expired_tasks-All now id leased d.0 in
    let rest =
      Holds-cons id lease leased (expired_tasks now leased) apart
        (expired_tasks-Holds now leased d.1) in
    elim (Bool-cases (leb lease.expire_timestamp now)) [
      | inl over ↦ rw over ((lease, ground arith, refl, refl), apart, rest)
      | inr time ↦ rw time rest
    ]

pub FailsOne-Holds :
    (id : ℕ) (s s' : EngineState) (tasks : List ExpiredTask)
    → FailsOne id s s'
    → All (λ (t : ExpiredTask). t.0 ≢ id) tasks
    → Holds s.leased tasks
    → Holds s'.leased tasks
FailsOne-Holds id s s' tasks f apart h = elim f.leases [
  | inl same ↦ rw same h
  | inr gone ↦ rw gone (Holds-remove id s.leased tasks apart h)
]

pub FailsOne-DistinctKeys :
    (id : ℕ) (s s' : EngineState)
    → FailsOne id s s'
    → DistinctKeys s.leased
    → DistinctKeys s'.leased
FailsOne-DistinctKeys id s s' f d = elim f.leases [
  | inl same ↦ rw same d
  | inr gone ↦ rw gone (remove-DistinctKeys id s.leased d)
]

-- The tasks are in order, and each has one lease at most.
pub record IsInOrder (s : EngineState) : Type 0 where
  pub valid : IsValid s
  pub once : DistinctKeys s.leased

module _ (crc32 : List ℕ → ℕ) where
  pub process_task_failure-FailsOne :
      (e : Engine) (id priority retries : ℕ) (op : OpType) (io : AppendIo)
      → FailsOne id e.inner (process_task_failure crc32 e id priority retries op io).1.inner
  unfolding process_task_failure
  process_task_failure-FailsOne e id priority retries op io =
      let n = add_u8 retries 1 in
      failure_logged-FailsOne e id priority n (
        append crc32 e.inner.wal e.disk io (record {
          id = id;
          op_type = if leb max_retries n then OpType.dead_lettered else op;
          priority = priority;
          payload = n ∷ [];
        }))

  fail_expired-IsInOrder :
      (tasks : List ExpiredTask) (e : Engine) (io : ℕ → AppendIo)
      → IsInOrder e.inner
      → Holds e.inner.leased tasks
      → e.inner.ready_queue.len + length tasks < 2 ^ 64
      → IsInOrder (fail_expired crc32 e tasks io).1.inner
  unfolding fail_expired
  fail_expired-IsInOrder [] e io v h room = v
  fail_expired-IsInOrder ((id, priority, retries) ∷ tasks) e io v ((lease, held, p, n), apart, h)
        room =
      let r = process_task_failure crc32 e id priority retries OpType.expired (io 0) in
      let f : FailsOne id e.inner (count_re_enqueued r).1.inner =
        rw (count_re_enqueued-inner crc32 r)
          (process_task_failure-FailsOne e id priority retries OpType.expired (io 0)) in
      let failed : IsValid (count_re_enqueued r).1.inner = rw (count_re_enqueued-inner crc32 r) (
        rw (p, n) at
          (process_task_failure-IsValid crc32 e id lease OpType.expired (io 0) v.valid held
            (omega (arith, room)))) in
      fail_expired-IsInOrder tasks (count_re_enqueued r).1 (λ k. io (k + 1))
        (record { valid = failed; once = FailsOne-DistinctKeys id e.inner _ f v.once })
        (FailsOne-Holds id e.inner _ tasks f apart h) (omega (arith, room, f.room))

  -- A whole round, with nothing in between its two locked sections, whatever its appends answer.
  pub expiration_round-IsInOrder :
      (e : Engine) (now : ℕ) (io : ℕ → AppendIo)
      → IsInOrder e.inner
      → e.inner.ready_queue.len + length (expired_tasks now e.inner.leased) < 2 ^ 64
      → IsInOrder (expiration_round crc32 (λ x. x) e now io).inner
  unfolding expiration_round process_expired
  expiration_round-IsInOrder e now io v room =
      let tasks = expired_tasks now e.inner.leased in
      let r = fail_expired crc32 e tasks io in
      rw (notify_times-inner crc32 r.0 r.1)
        (fail_expired-IsInOrder tasks e io v (expired_tasks-Holds now e.inner.leased v.once) room)
