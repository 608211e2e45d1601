-- ===== src/Engine/Worker.antt =====
-- storage/engine.rs, `ExpirationWorker` and the thread of `start_expiration_thread`, a locked
-- section at a time, with any number of threads that call `stop`, and others that work on the
-- engine.
pub mod Stopping
mod Runs
use nesso.Base.{ℕ, zero, suc, Bool, true, false, ◌||◌, ◌≡◌, List, [], ◌∷◌, ◌==◌, if◌then◌else◌}
use nesso.Wal.{AppendIo}
use nesso.Engine.{Engine}
use nesso.Engine.Expiration.{ExpiredTask, expired_tasks, process_expired}

-- Where the thread stands: at the test of its loop, in front of the lock of the guard, in
-- `wait_timeout`, in front of its two sections on the engine, or at its end.
pub data Thread : Type 0 where
  at_loop at_lock waiting collecting finished : Thread
  failing : (tasks : List ExpiredTask) → Thread

-- Where a call of `stop` stands. It returns with or without having joined the thread.
pub data Stopper : Type 0 where
  idle flagged signalled joining : Stopper
  returned : (joined : Bool) → Stopper

-- `handle` tells whether there is a handle to take.
pub record System : Type 0 where
  pub shutdown_flag : Bool
  pub guard : Bool
  pub handle : Bool
  pub thread : Thread
  pub stoppers : ℕ → Stopper
  pub engine : Engine

-- `ExpirationWorker::new`, with the thread started.
abbrev pub start : Engine → System
start e = record {
  shutdown_flag = false;
  guard = false;
  handle = true;
  thread = Thread.at_loop;
  stoppers = λ i. Stopper.idle;
  engine = e;
}

-- `while !shutdown_flag.load(…)`, by what the load reads.
unfoldable pub loop_turn : (loaded : Bool) → Thread
loop_turn loaded = if loaded then Thread.finished else Thread.at_lock

-- `if *guard || shutdown_flag.load(…) { break; }` in front of the wait.
unfoldable pub lock_turn : (guard loaded : Bool) → Thread
lock_turn guard loaded = if guard || loaded then Thread.finished else Thread.waiting

-- `if *g || shutdown_flag.load(…) { break; }` behind the wait.
unfoldable pub wake_turn : (guard loaded : Bool) → Thread
wake_turn guard loaded = if guard || loaded then Thread.finished else Thread.collecting

-- `if !expired_tasks.is_empty()`
unfoldable pub collected : List ExpiredTask → Thread
collected [] = Thread.at_loop
collected (t ∷ tasks) = Thread.failing (t ∷ tasks)

-- A relaxed load may miss that the flag was set.
abbrev pub Loads : System → Bool → Type 0
Loads s b = b ≡ true → s.shutdown_flag ≡ true

abbrev pub move : (ℕ → Stopper) → ℕ → Stopper → ℕ → Stopper
move stoppers i p j = if i == j then p else stoppers j

module _ (crc32 : List ℕ → ℕ) where
  -- A step of the thread. The wait ends on a notification, on its timeout, or on nothing at all.
  pub data ThreadStep (s : System) : System → Type 0 where
    loops :
        (loaded : Bool)
        → s.thread ≡ Thread.at_loop
        → Loads s loaded
        → ThreadStep s (record s { thread = loop_turn loaded })
    locks :
        (loaded : Bool)
        → s.thread ≡ Thread.at_lock
        → Loads s loaded
        → ThreadStep s (record s { thread = lock_turn s.guard loaded })
    wakes :
        (loaded : Bool)
        → s.thread ≡ Thread.waiting
        → Loads s loaded
        → ThreadStep s (record s { thread = wake_turn s.guard loaded })
    collects :
        (now : ℕ)
        → s.thread ≡ Thread.collecting
        → ThreadStep s (record s { thread = collected (expired_tasks now s.engine.inner.leased) })
    fails :
        (tasks : List ExpiredTask) (io : ℕ → AppendIo)
        → s.thread ≡ Thread.failing tasks
        → ThreadStep s
            (record s { thread = Thread.at_loop; engine = process_expired crc32 s.engine tasks io })

  -- A step of a call of `stop`, or of an operation of another thread on the engine.
  pub data OtherStep (s : System) : System → Type 0 where
    stores :
        (i : ℕ)
        → s.stoppers i ≡ Stopper.idle
        → OtherStep s
            (record s { shutdown_flag = true; stoppers = move s.stoppers i Stopper.flagged })
    signals :
        (i : ℕ)
        → s.stoppers i ≡ Stopper.flagged
        → OtherStep s (record s { guard = true; stoppers = move s.stoppers i Stopper.signalled })
    takes :
        (i : ℕ)
        → s.stoppers i ≡ Stopper.signalled
        → OtherStep s (record s {
          handle = false;
          stoppers =
              move s.stoppers i (if s.handle then Stopper.joining else Stopper.returned false);
        })
    joins :
        (i : ℕ)
        → s.stoppers i ≡ Stopper.joining
        → s.thread ≡ Thread.finished
        → OtherStep s (record s { stoppers = move s.stoppers i (Stopper.returned true) })
    operates : (e : Engine) → OtherStep s (record s { engine = e })

  -- Steps one behind the other, with the number of those that are the thread's.
  pub data Run (s : System) : ℕ → System → Type 0 where
    none_yet : Run s zero s
    then_thread : (n : ℕ) (t u : System) → Run s n t → ThreadStep t u → Run s (suc n) u
    then_other : (n : ℕ) (t u : System) → Run s n t → OtherStep t u → Run s n u
