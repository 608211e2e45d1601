-- ===== src/GroupCommit.antt =====
-- storage/group_commit.rs: one fsync for a batch of threads, one batch at a time.
pub mod Threads
mod Runs
use nesso.Base.{
  ℕ, ◌+◌, ◌-◌, ◌≤◌, Bool, true, false, not, ◌&&◌, ◌||◌, Option, none, some, leb, ◌==◌,
  if◌then◌else◌, add_u64,
}
use Prim.Native.Nat.{min}
use nesso.Io.{ErrorKind, Outcome}

pub data SyncMode : Type 0 where
  standard full_hardware : SyncMode

-- On Unix, by what `fsync` and `File::sync_data` answer.
unfoldable pub perform_sync : SyncMode → (fsync sync_data : Outcome) → Outcome
perform_sync SyncMode.standard fsync sync_data = fsync
perform_sync SyncMode.full_hardware fsync sync_data = sync_data

-- Durations and instants in nanoseconds.
pub record GroupCommitConfig : Type 0 where
  pub batch_window : ℕ
  pub max_batch_size : ℕ
  pub idle_commit_threshold : ℕ
  pub sync_mode : SyncMode

unfoldable pub default_config : GroupCommitConfig
default_config = record {
  batch_window = 2000000;
  max_batch_size = 64;
  idle_commit_threshold = 0;
  sync_mode = SyncMode.standard;
}

pub record GroupCommitState : Type 0 where
  pub collecting_batch_id : ℕ
  pub last_synced_batch_id : ℕ
  pub waiters_in_collecting : ℕ
  pub fsync_in_progress : Bool
  pub batch_start_time : Option ℕ
  pub last_arrival_time : Option ℕ
  pub last_error : Option ErrorKind
  pub force_flush : Bool

unfoldable pub new : GroupCommitState
new = record {
  collecting_batch_id = 1;
  last_synced_batch_id = 0;
  waiters_in_collecting = 0;
  fsync_in_progress = false;
  batch_start_time = none;
  last_arrival_time = none;
  last_error = none;
  force_flush = false;
}

-- The start of `sync`: the thread joins the collecting batch, whose id it keeps.
unfoldable pub join : GroupCommitState → (now : ℕ) → GroupCommitState
join s now = record s {
  waiters_in_collecting = add_u64 s.waiters_in_collecting 1;
  batch_start_time = elim s.batch_start_time [ none ↦ some now | some t ↦ some t ];
  last_arrival_time = some now;
}

-- What a thread does on one turn of the loop of `sync`.
pub data Turn : Type 0 where
  returns : Outcome → Turn
  commits : GroupCommitState → Turn
  waits_for : ℕ → Turn
  waits : Turn

-- `t.map_or(Duration::ZERO, |t| now.duration_since(t))`
abbrev pub elapsed : Option ℕ → ℕ → ℕ
elapsed none now = 0
elapsed (some t) now = now - t

abbrev pub close_batch : GroupCommitState → GroupCommitState
close_batch s = record s {
  fsync_in_progress = true;
  collecting_batch_id = add_u64 s.collecting_batch_id 1;
  waiters_in_collecting = 0;
  batch_start_time = none;
  last_arrival_time = none;
}

-- `batch_full || timeout_expired || idle_expired || state.force_flush`
unfoldable pub is_due : GroupCommitConfig → GroupCommitState → ℕ → Bool
is_due c s now =
    leb c.max_batch_size s.waiters_in_collecting
    || leb c.batch_window (elapsed s.batch_start_time now)
    || leb c.idle_commit_threshold (elapsed s.last_arrival_time now)
    || s.force_flush

-- The remaining interval; `saturating_sub` is subtraction here.
unfoldable pub wait_dur : GroupCommitConfig → GroupCommitState → ℕ → ℕ
wait_dur c s now =
    min (c.idle_commit_threshold - elapsed s.last_arrival_time now)
      (c.batch_window - elapsed s.batch_start_time now)

unfoldable pub turn : GroupCommitConfig → GroupCommitState → (my_batch now : ℕ) → Turn
turn c s my_batch now =
    if leb my_batch s.last_synced_batch_id
    then Turn.returns s.last_error
    else if not s.fsync_in_progress && my_batch == add_u64 s.last_synced_batch_id 1
    then (if is_due c s now
        then Turn.commits (close_batch s)
        else Turn.waits_for (wait_dur c s now))
    else Turn.waits

-- Behind `perform_sync`, with the lock again.
unfoldable pub synced : GroupCommitState → (my_batch : ℕ) → Outcome → GroupCommitState
synced s my_batch res = record s {
  fsync_in_progress = false;
  last_synced_batch_id = my_batch;
  last_error = res;
}

unfoldable pub synced_batches : GroupCommitState → ℕ
synced_batches s = s.last_synced_batch_id

-- The first part of `force_flush_and_wait`; a `sync` follows.
unfoldable pub set_force_flush : GroupCommitState → GroupCommitState
set_force_flush s = record s { force_flush = true }
