-- ===== src/Engine/Logged/Rounds.antt =====
-- storage/engine.rs, `start_expiration_thread`: a whole round whose records are written is a run of
-- failures of leases that are still held.
use nesso.Base.{ℕ, ◌+◌, ◌≡◌, refl, ◌∙◌, subst, Bool, arith, List, [], ◌∷◌, zero, suc, true, false}
use nesso.Base.Keys.{DistinctKeys}
use nesso.Io.{Result, ok, err}
use nesso.Record.{Record, OpType}
use nesso.Wal.{AppendIo}
use nesso.Engine.{Engine, notify, process_task_failure}
use nesso.Engine.Expiration.{
  ExpiredTask, count_re_enqueued, fail_expired, notify_times, expired_tasks, expiration_round,
  process_expired,
}
use nesso.Engine.Expiration.Rounds.{notify_times-inner}
use nesso.Engine.Failures.{failure_record}
use nesso.Engine.Tasks.Operations.{HasRoom}
use nesso.Engine.Tasks.Reach.{
  push-leased, lease_next-DistinctKeys, ack-DistinctKeys, nack-DistinctKeys,
}
use nesso.Engine.Tasks.Rounds.{
  Holds, expired_tasks-Holds, FailsOne-Holds, FailsOne-DistinctKeys, process_task_failure-FailsOne,
}
use nesso.Engine.Logged.Run.{Writes, Step, Run}

count_re_enqueued-engine : (r : Result Bool × Engine) → (count_re_enqueued r).1 ≡ r.1
count_re_enqueued-engine (ok true, e) = refl
count_re_enqueued-engine (ok false, e) = refl
count_re_enqueued-engine (err k, e) = refl

notify-disk : (e : Engine) → (notify e).disk ≡ e.disk
unfolding notify
notify-disk e = ground arith

module _ (crc32 : List ℕ → ℕ) (since : ℕ) where
  -- The tasks fail one behind the other, and the record of each is written.
  pub data FailsAll
      : Engine → List ExpiredTask → (ℕ → AppendIo) → List (ℕ × ℕ × Record) → Type 0 where
    none_left : (e : Engine) (io : ℕ → AppendIo) → FailsAll e [] io []
    fails :
        (e : Engine) (id priority retries : ℕ) (tasks : List ExpiredTask) (io : ℕ → AppendIo)
        (x : ℕ × ℕ × Record) (xs : List (ℕ × ℕ × Record)) (e' : Engine)
        → HasRoom e.inner
        → Writes crc32 since e (io 0) (failure_record id priority (retries + 1) OpType.expired) x e'
        → (process_task_failure crc32 e id priority retries OpType.expired (io 0)).1 ≡ e'
        → FailsAll e' tasks (λ k. io (k + 1)) xs
        → FailsAll e ((id, priority, retries) ∷ tasks) io (x ∷ xs)

  notify_times-disk : (n : ℕ) (e : Engine) → (notify_times crc32 n e).disk ≡ e.disk
  unfolding notify_times
  notify_times-disk zero e = refl
  notify_times-disk (suc n) e = notify_times-disk n (notify e) ∙ notify-disk e

  Run-cons :
      (e m e' : Engine) (x : ℕ × ℕ × Record) (xs : List (ℕ × ℕ × Record))
      → Step crc32 since e x m
      → Run crc32 since m xs e'
      → Run crc32 since e (x ∷ xs) e'
  Run-cons e m _ x _ step (Run.start _) = Run.next e e m [] x (Run.start e) step
  Run-cons e m e' x _ step (Run.next _ n _ xs y before last) =
      Run.next e n e' (x ∷ xs) y (Run-cons e m n x xs step before) last

  fail_expired-Run :
      (e : Engine) (tasks : List ExpiredTask) (io : ℕ → AppendIo) (xs : List (ℕ × ℕ × Record))
      → FailsAll e tasks io xs
      → Holds e.inner.leased tasks
      → Run crc32 since e xs (fail_expired crc32 e tasks io).1
  unfolding fail_expired
  fail_expired-Run e _ _ _ (FailsAll.none_left _ io) h = Run.start e
  fail_expired-Run e _ io _ (FailsAll.fails _ id priority retries tasks _ x xs e' room w done rest)
        ((lease, held, p, n), apart, h) =
      let r = process_task_failure crc32 e id priority retries OpType.expired (io 0) in
      let same : (count_re_enqueued r).1 ≡ e' = count_re_enqueued-engine r ∙ done in
      let step : Step crc32 since e x e' =
        Step.expires e id (io 0) lease x e' room held (rw (p, n) w) (rw (p, n) done) in
      let later : Holds e'.inner.leased tasks =
        subst (λ (m : Engine). Holds m.inner.leased tasks) done
          (FailsOne-Holds id e.inner r.1.inner tasks
            (process_task_failure-FailsOne crc32 e id priority retries OpType.expired (io 0)) apart
            h) in
      rw same
        (Run-cons e e' _ x xs step (fail_expired-Run e' tasks (λ k. io (k + 1)) xs rest later))

  -- A round that nothing interrupts is a run, up to the calls of the callback.
  pub expiration_round-Run :
      (e : Engine) (now : ℕ) (io : ℕ → AppendIo) (xs : List (ℕ × ℕ × Record))
      → DistinctKeys e.inner.leased
      → FailsAll e (expired_tasks now e.inner.leased) io xs
      → (e' : Engine) × Run crc32 since e xs e'
        × ((expiration_round crc32 (λ x. x) e now io).inner ≡ e'.inner)
        × ((expiration_round crc32 (λ x. x) e now io).disk ≡ e'.disk)
  unfolding expiration_round process_expired
  expiration_round-Run e now io xs d written =
      let tasks = expired_tasks now e.inner.leased in
      let r = fail_expired crc32 e tasks io in
      (
        r.1,
        fail_expired-Run e tasks io xs written (expired_tasks-Holds now e.inner.leased d),
        notify_times-inner crc32 r.0 r.1,
        notify_times-disk r.0 r.1,
      )

  Step-DistinctKeys :
      (e : Engine) (x : ℕ × ℕ × Record) (e' : Engine)
      → Step crc32 since e x e'
      → DistinctKeys e.inner.leased
      → DistinctKeys e'.inner.leased
  Step-DistinctKeys e x e' (Step.pushes _ payload priority io _ _ room p w done) d =
      subst (λ (m : Engine). DistinctKeys m.inner.leased) done
        (rw (push-leased crc32 e payload priority io) d)
  Step-DistinctKeys e x e' (Step.pops _ c ttl now io _ _ t q answer hc pos room popped w served) d =
      lease_next-DistinctKeys crc32 e c ttl now io (answer, e') served d
  Step-DistinctKeys e x e' (Step.acks _ id io lease _ _ held w done) d =
      subst (λ (m : Engine). DistinctKeys m.inner.leased) done
        (ack-DistinctKeys crc32 e id lease.consumer_id io d)
  Step-DistinctKeys e x e' (Step.nacks _ id io lease _ _ room held w done) d =
      subst (λ (m : Engine). DistinctKeys m.inner.leased) done
        (nack-DistinctKeys crc32 e id lease.consumer_id io d)
  Step-DistinctKeys e x e' (Step.expires _ id io lease _ _ room held w done) d =
      subst (λ (m : Engine). DistinctKeys m.inner.leased) done
        (FailsOne-DistinctKeys id e.inner _
          (process_task_failure-FailsOne crc32 e id lease.priority lease.retries OpType.expired io)
          d)

  pub Run-DistinctKeys :
      (e e' : Engine) (xs : List (ℕ × ℕ × Record))
      → Run crc32 since e xs e'
      → DistinctKeys e.inner.leased
      → DistinctKeys e'.inner.leased
  Run-DistinctKeys e _ _ (Run.start _) d = d
  Run-DistinctKeys e e' _ (Run.next _ m _ xs x before step) d =
      Step-DistinctKeys m x e' step (Run-DistinctKeys e m xs before d)
