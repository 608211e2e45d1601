-- ===== src/Engine/Nacks.antt =====
-- storage/engine.rs, `nack`: its answers, branch by branch.
use nesso.Base.{
  ℕ, ◌+◌, ◌≡◌, ◌≢◌, ◌<◌, ◌≤◌, refl, ◌∙◌, Bool, true, false, none, some, List, leb, ◌==◌, arith,
  Bool-cases, Option-cases, inl, inr, ==_iff, add_u8,
}
use nesso.Base.Maps.{lookup}
use nesso.Disk.{Disk}
use nesso.Io.{ErrorKind, Result, ok, err}
use nesso.Queue.Invariant.{to_list}
use nesso.Queue.Order.{insert_task}
use nesso.Record.{OpType, Record}
use nesso.Task.{LeaseInfo, max_retries}
use nesso.Wal.{Wal, AppendIo, append}
use nesso.Engine.{
  Engine, Loc, log_state, notify, nack, nack_notified, process_task_failure, failure_indexed,
}
use nesso.Engine.Answers.{IsGone}
use nesso.Engine.Failures.{Fails, failure_record, process_task_failure-Fails}
use nesso.Engine.Tasks.{IsValid}

-- How often the callback was called, once more if there is one.
abbrev pub called : Bool → ℕ → ℕ
called true n = n + 1
called false n = n

-- What a nack leaves whose record is written: below the limit of retries the task is ready again,
-- with one retry more, and the callback is called once; at the limit the task is gone.
pub data Nacked (e : Engine) (id : ℕ) (lease : LeaseInfo) (r : Result (Unit {0}) × Engine)
    : Type 0 where
  again :
      lease.retries + 1 < max_retries
      → r.0 ≡ ok tt
      → lookup id r.1.inner.leased ≡ none
      → to_list r.1.inner.ready_queue
        ≡ insert_task
            (record { id = id; priority = lease.priority; retries = lease.retries + 1 })
            (to_list e.inner.ready_queue)
      → r.1.inner.data_index ≡ e.inner.data_index
      → r.1.notified ≡ called e.inner.on_task_ready e.notified
      → Nacked e id lease r
  dead :
      max_retries ≤ lease.retries + 1
      → r.0 ≡ ok tt
      → r.1.inner.ready_queue ≡ e.inner.ready_queue
      → IsGone r.1.inner id
      → r.1.notified ≡ e.notified
      → Nacked e id lease r

notify-called :
    (e : Engine)
    → ((notify e).inner ≡ e.inner) × ((notify e).notified ≡ called e.inner.on_task_ready e.notified)
unfolding notify
notify-called e = elim (Bool-cases e.inner.on_task_ready) [
  | inl set ↦ (rw (notify, set) refl, rw (notify, set) refl)
  | inr unset ↦ (rw (notify, unset) refl, rw (notify, unset) refl)
]

nack_notified-Nacked :
    (e : Engine) (id : ℕ) (lease : LeaseInfo) (r : Result Bool × Engine)
    → Fails e.inner.ready_queue e.inner.data_index id lease.priority (lease.retries + 1) r
    → r.1.notified ≡ e.notified
    → r.1.inner.on_task_ready ≡ e.inner.on_task_ready
    → Nacked e id lease (nack_notified r)
nack_notified-Nacked e id lease (err k, e') (Fails.again few back free order placed) n t = absurd cc
nack_notified-Nacked e id lease (ok false, e') (Fails.again few back free order placed) n t =
    absurd cc
nack_notified-Nacked e id lease (ok true, e') (Fails.again few back free order placed) n t =
    let (inner, calls) = notify-called e' in
    Nacked.again few refl (rw inner free) (rw inner order) (rw inner placed)
      (calls ∙ rw (t, n) refl)
nack_notified-Nacked e id lease (err k, e') (Fails.dead many over queue gone) n t = absurd cc
nack_notified-Nacked e id lease (ok true, e') (Fails.dead many over queue gone) n t = absurd cc
nack_notified-Nacked e id lease (ok false, e') (Fails.dead many over queue gone) n t =
    Nacked.dead many refl queue gone n

failure_indexed-rest :
    (e : Engine) (id priority n : ℕ) (loc : Loc)
    → ((failure_indexed e id priority n loc).1.notified ≡ e.notified)
      × ((failure_indexed e id priority n loc).1.inner.on_task_ready ≡ e.inner.on_task_ready)
unfolding failure_indexed
failure_indexed-rest e id priority n loc = elim (Bool-cases (leb max_retries n)) [
  | inl over ↦ (rw (failure_indexed, over) refl, rw (failure_indexed, over) refl)
  | inr few ↦ (rw (failure_indexed, few) refl, rw (failure_indexed, few) refl)
]

module _ (crc32 : List ℕ → ℕ) where
  -- The record that a nack writes.
  abbrev nack_record : ℕ → LeaseInfo → Record
  nack_record id lease = failure_record id lease.priority (lease.retries + 1) OpType.nacked

  -- A nack of a task without a lease, or under another consumer's lease, is refused and changes
  -- nothing. One of the holder writes its record, and answers the error if that is not written,
  -- with nothing but the log changed. Else the lease is over.
  pub data NackAnswers (e : Engine) (id consumer_id : ℕ) (io : AppendIo) : Type 0 where
    unknown :
        lookup id e.inner.leased ≡ none
        → nack crc32 e id consumer_id io ≡ (err ErrorKind.not_found, e)
        → NackAnswers e id consumer_id io
    denied :
        (lease : LeaseInfo)
        → lookup id e.inner.leased ≡ some lease
        → lease.consumer_id ≢ consumer_id
        → nack crc32 e id consumer_id io ≡ (err ErrorKind.permission_denied, e)
        → NackAnswers e id consumer_id io
    unlogged :
        (lease : LeaseInfo) (k : ErrorKind) (wal : Wal) (disk : Disk)
        → lookup id e.inner.leased ≡ some lease
        → lease.consumer_id ≡ consumer_id
        → append crc32 e.inner.wal e.disk io (nack_record id lease) ≡ (err k, wal, disk)
        → nack crc32 e id consumer_id io ≡ (err k, log_state e wal disk)
        → NackAnswers e id consumer_id io
    nacked :
        (lease : LeaseInfo) (loc : Loc) (wal : Wal) (disk : Disk)
        → lookup id e.inner.leased ≡ some lease
        → lease.consumer_id ≡ consumer_id
        → append crc32 e.inner.wal e.disk io (nack_record id lease) ≡ (ok loc, wal, disk)
        → Nacked e id lease (nack crc32 e id consumer_id io)
        → NackAnswers e id consumer_id io

  nack_held :
      (e : Engine) (id consumer_id : ℕ) (io : AppendIo) (lease : LeaseInfo)
      (r : Result Loc × Wal × Disk)
      → IsValid e.inner
      → lookup id e.inner.leased ≡ some lease
      → lease.consumer_id ≡ consumer_id
      → append crc32 e.inner.wal e.disk io (nack_record id lease) ≡ r
      → nack crc32 e id consumer_id io
        ≡ nack_notified
            (process_task_failure crc32 e id lease.priority lease.retries OpType.nacked io)
      → NackAnswers e id consumer_id io
  unfolding process_task_failure
  nack_held e id c io lease (err k, wal, disk) v held mine logged answer =
      let (_, few, _, _) = v.leases id lease held in
      let n : add_u8 lease.retries 1 ≡ lease.retries + 1 = omega arith in
      NackAnswers.unlogged lease k wal disk held mine logged
        (answer ∙ rw (process_task_failure, n, logged) refl)
  nack_held e id c io lease (ok loc, wal, disk) v held mine logged answer =
      let (_, few, p, _) = v.leases id lease held in
      let n : add_u8 lease.retries 1 ≡ lease.retries + 1 = omega arith in
      let fails =
        process_task_failure-Fails crc32 e id lease.priority lease.retries OpType.nacked io loc wal
          disk v.queue p few logged in
      let (notified, ready) =
        failure_indexed-rest (log_state e wal disk) id lease.priority (lease.retries + 1) loc in
      NackAnswers.nacked lease loc wal disk held mine logged (
        rw answer (
          nack_notified-Nacked e id lease
            (process_task_failure crc32 e id lease.priority lease.retries OpType.nacked io) fails
            (rw (process_task_failure, n, logged) notified)
            (rw (process_task_failure, n, logged) ready)))

  -- On an engine in order every nack is answered in one of these four ways.
  pub nack-answers :
      (e : Engine) (id consumer_id : ℕ) (io : AppendIo)
      → IsValid e.inner
      → NackAnswers e id consumer_id io
  unfolding nack
  nack-answers e id c io v = elim (Option-cases (lookup id e.inner.leased)) [
    | inl free ↦ NackAnswers.unknown free (rw (nack, free))
    | inr (lease, held) ↦ elim (Bool-cases (lease.consumer_id == c)) [
      | inl mine ↦
          nack_held e id c io lease (append crc32 e.inner.wal e.disk io (nack_record id lease)) v
            held ((==_iff lease.consumer_id c).0 mine) refl (rw (nack, held, mine))
      | inr other ↦
          NackAnswers.denied lease held (λ same. ground (arith, ==_iff lease.consumer_id c))
            (rw (nack, held, other))
    ]
  ]
