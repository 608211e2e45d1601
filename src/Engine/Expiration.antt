-- ===== src/Engine/Expiration.antt =====
-- storage/engine.rs, `start_expiration_thread`: one round of the thread. It collects the expired
-- leases under the lock, gives the lock back, and takes it again to fail the collected tasks.
pub mod Rounds
use nesso.Base.{ℕ, ◌+◌, zero, suc, Bool, true, List, [], ◌∷◌, leb, if◌then◌else◌}
use nesso.Base.Maps.{Map}
use nesso.Io.{Result, ok}
use nesso.Record.{OpType}
use nesso.Task.{LeaseInfo}
use nesso.Wal.{AppendIo}
use nesso.Engine.{Engine, process_task_failure, notify}

-- `(id, priority, retries)`
abbrev pub ExpiredTask : Type 0
ExpiredTask = ℕ × ℕ × ℕ

unfoldable pub expired_tasks : (now : ℕ) → Map LeaseInfo → List ExpiredTask
expired_tasks now [] = []
expired_tasks now ((id, lease) ∷ leased) =
    if leb lease.expire_timestamp now
    then (id, lease.priority, lease.retries) ∷ expired_tasks now leased
    else expired_tasks now leased

abbrev pub count_re_enqueued : Result Bool × Engine → ℕ × Engine
count_re_enqueued (ok true, e) = (1, e)
count_re_enqueued (_, e) = (0, e)

module _ (crc32 : List ℕ → ℕ) where
  -- `for (id, priority, retries) in expired_tasks`: an append that fails is passed over. The
  -- answers of the environment depend on the round.
  unfoldable pub fail_expired : Engine → List ExpiredTask → (ℕ → AppendIo) → ℕ × Engine
  fail_expired e [] io = (0, e)
  fail_expired e ((id, priority, retries) ∷ tasks) io =
      let (n, e') =
        count_re_enqueued
          (process_task_failure crc32 e id priority retries OpType.expired (io 0)) in
      let (m, e'') = fail_expired e' tasks (λ k. io (k + 1)) in (n + m, e'')

  -- `for _ in 0..re_enqueued_count { cb(); }`
  unfoldable pub notify_times : ℕ → Engine → Engine
  notify_times zero e = e
  notify_times (suc n) e = notify_times n (notify e)

  unfoldable pub process_expired : Engine → List ExpiredTask → (ℕ → AppendIo) → Engine
  process_expired e tasks io = let (n, e') = fail_expired e tasks io in notify_times n e'

  -- The round with `others` for what happens between its two locked sections.
  unfoldable pub expiration_round :
      (others : Engine → Engine) → Engine → (now : ℕ) → (ℕ → AppendIo) → Engine
  expiration_round others e now io =
      process_expired (others e) (expired_tasks now e.inner.leased) io
