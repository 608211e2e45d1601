-- ===== src/GroupCommit/Threads/Progress.antt =====
-- No thread waits for ever: its batch is synced, or is being synced, or can be.
use nesso.Base.{ℕ, ◌+◌, ◌≡◌, true, some}
use nesso.Io.{Outcome}
use nesso.GroupCommit.{GroupCommitConfig, GroupCommitState, Turn, turn, synced, close_batch}
use nesso.GroupCommit.Threads.{Pc, System}

-- A batch that a thread collects in has a time of its last arrival.
record HasArrived (s : System) : Type 0 where
  arrived :
      (t b : ℕ)
      → s.threads t ≡ Pc.looping b
      → b ≡ s.state.collecting_batch_id
      → (n : ℕ) × (s.state.last_arrival_time ≡ some n)

-- An fsync that runs is that of a thread.
record HasRunner (s : System) : Type 0 where
  runner : s.state.fsync_in_progress ≡ true → (u : ℕ) × (d : ℕ) × (s.threads u ≡ Pc.syncing d)

-- What a thread can do on its own: its next turn returns, or from some instant on every turn of it
-- commits its batch.
pub data Moves (c : GroupCommitConfig) (s : GroupCommitState) (b : ℕ) : Type 0 where
  done : (res : Outcome) → ((now : ℕ) → turn c s b now ≡ Turn.returns res) → Moves c s b
  due :
      (n : ℕ) → ((later : ℕ) → turn c s b (n + later) ≡ Turn.commits (close_batch s)) → Moves c s b

-- What keeps a thread going: it can move on its own, or an fsync of another thread runs, and can
-- move as soon as that ends, whatever it answers.
pub data Progresses (c : GroupCommitConfig) (s : System) (b : ℕ) : Type 0 where
  free : Moves c s.state b → Progresses c s b
  busy :
      (u d : ℕ)
      → s.threads u ≡ Pc.syncing d
      → ((res : Outcome) → Moves c (synced s.state d res) b)
      → Progresses c s b
