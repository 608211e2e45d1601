-- ===== src/Engine/Expiration/Rounds.antt =====
-- storage/engine.rs: what a round of the expiration thread leaves of the leases.
use nesso.Base.{
  ℕ, zero, suc, ◌≤◌, ◌≡◌, refl, ap, ◌∙◌, Bool, true, false, ◌||◌, some, none, List, [], ◌∷◌, leb,
  ◌==◌, if◌then◌else◌, arith, Bool-cases, inl, inr, add_u8,
}
use nesso.Base.Maps.{Map, lookup, remove, lookup-remove}
use nesso.Disk.{Disk}
use nesso.Io.{Result, ok, err}
use nesso.Record.{Record, OpType}
use nesso.Task.{LeaseInfo}
use nesso.Wal.{Wal, WriteOutcome, append, write_record, rotate, all_written}
use nesso.Engine.{
  Engine, EngineState, Loc, log_state, notify, process_task_failure, failure_indexed,
}
use nesso.Engine.Failures.{failure_record}
use nesso.Engine.Expiration.{
  ExpiredTask, expired_tasks, fail_expired, notify_times, process_expired, expiration_round,
  count_re_enqueued,
}
use nesso.Engine.Tasks.Operations.{notify-inner}

abbrev elem : ℕ → List ExpiredTask → Bool
elem i [] = false
elem i ((id, _, _) ∷ tasks) = id == i || elem i tasks

-- The first lease of a task decides whether it is among the expired.
expired_tasks-elem :
    (now : ℕ) (leased : Map LeaseInfo) (i : ℕ) (lease : LeaseInfo)
    → lookup i leased ≡ some lease
    → lease.expire_timestamp ≤ now
    → elem i (expired_tasks now leased) ≡ true
unfolding expired_tasks lookup
expired_tasks-elem now [] i lease e h = cc
expired_tasks-elem now ((j, l) ∷ leased) i lease e h = elim (Bool-cases (j == i)) [
  | inl same ↦ let found : some l ≡ some lease = rw same at e in ground (arith, found)
  | inr other ↦
      let behind : lookup i leased ≡ some lease = rw other at e in
      ground (arith, expired_tasks-elem now leased i lease behind h)
]

failure_indexed-leased :
    (e : Engine) (id priority n : ℕ) (loc : Loc)
    → (failure_indexed e id priority n loc).1.inner.leased ≡ remove id e.inner.leased
unfolding failure_indexed
failure_indexed-leased e id priority n loc = ground arith

rotate-ok :
    (w : Wal) (d : Disk) → (w' : Wal) × (d' : Disk) × (rotate w d all_written ≡ (ok tt, w', d'))
unfolding rotate
rotate-ok w d = (_, _, refl)

module _ (crc32 : List ℕ → ℕ) where
  write_record-ok :
      (w : Wal) (d : Disk) (r : Record)
      → (loc : Loc) × (w' : Wal) × (d' : Disk) × (write_record crc32 w d WriteOutcome.written r
          ≡ (ok loc, w', d'))
  unfolding write_record
  write_record-ok w d r = (_, _, _, refl)

  -- An append whose system calls succeed does not fail, on any log.
  append-ok :
      (w : Wal) (d : Disk) (r : Record)
      → (loc : Loc) × (w' : Wal) × (d' : Disk) × (append crc32 w d all_written r ≡ (ok loc, w', d'))
  unfolding append
  append-ok w d r = elim (Bool-cases (leb w.max_segment_size w.current_size)) [
    | inl full ↦
        let (w', d', rotated) = rotate-ok w d in
        let (loc, w'', d'', written) = write_record-ok w' d' r in
        (loc, w'', d'', rw (append, full, rotated) written)
    | inr space ↦
        let (loc, w', d', written) = write_record-ok w d r in
        (loc, w', d', rw (append, space) written)
  ]

  process_task_failure-leased :
      (e : Engine) (id priority retries : ℕ) (op : OpType)
      → (process_task_failure crc32 e id priority retries op all_written).1.inner.leased
        ≡ remove id e.inner.leased
  unfolding process_task_failure
  process_task_failure-leased e id priority retries op =
      let n = add_u8 retries 1 in
      let (loc, wal, disk, logged) =
        append-ok e.inner.wal e.disk (failure_record id priority n op) in
      rw (process_task_failure, logged)
        (failure_indexed-leased (log_state e wal disk) id priority n loc)

  pub count_re_enqueued-inner :
      (r : Result Bool × Engine) → (count_re_enqueued r).1.inner ≡ r.1.inner
  count_re_enqueued-inner (ok true, e) = refl
  count_re_enqueued-inner (ok false, e) = refl
  count_re_enqueued-inner (err k, e) = refl

  fail_expired-leased :
      (tasks : List ExpiredTask) (e : Engine) (i : ℕ)
      → lookup i (fail_expired crc32 e tasks (λ _. all_written)).1.inner.leased
        ≡ (if elem i tasks then none else lookup i e.inner.leased)
  unfolding fail_expired
  fail_expired-leased [] e i = refl
  fail_expired-leased ((id, priority, retries) ∷ tasks) e i =
      let r = process_task_failure crc32 e id priority retries OpType.expired all_written in
      let e' = (count_re_enqueued r).1 in
      let leased : lookup i e'.inner.leased ≡ lookup i (remove id e.inner.leased) =
        ap (λ (s : EngineState). lookup i s.leased) (count_re_enqueued-inner r)
        ∙ ap (lookup i) (process_task_failure-leased e id priority retries OpType.expired) in
      ground (arith, fail_expired-leased tasks e' i, leased, lookup-remove id i e.inner.leased)

  pub notify_times-inner : (n : ℕ) (e : Engine) → (notify_times crc32 n e).inner ≡ e.inner
  unfolding notify_times
  notify_times-inner zero e = refl
  notify_times-inner (suc n) e = notify_times-inner n (notify e) ∙ notify-inner e

  -- After a round whose appends succeed, with nothing in between its two locked sections, no task
  -- is leased whose lease had expired.
  pub expiration_round-ends :
      (e : Engine) (now i : ℕ) (lease : LeaseInfo)
      → lookup i e.inner.leased ≡ some lease
      → lease.expire_timestamp ≤ now
      → lookup i (expiration_round crc32 (λ x. x) e now (λ _. all_written)).inner.leased ≡ none
  unfolding expiration_round process_expired
  expiration_round-ends e now i lease held over =
      let tasks = expired_tasks now e.inner.leased in
      let r = fail_expired crc32 e tasks (λ _. all_written) in
      ap (λ (s : EngineState). lookup i s.leased) (notify_times-inner r.0 r.1)
      ∙ fail_expired-leased tasks e i
      ∙ rw (expired_tasks-elem now e.inner.leased i lease held over)
