-- ===== src/GroupCommit/Threads.antt =====
-- Threads inside `sync`, a locked section at a time. The fsync of a committer runs without the
-- lock, between two of its steps. `begun` and `finished` record the fsyncs that began and that
-- ended, the last one first, and `seen` those that had begun when a thread called. A wait on the
-- condition variable is taken to end: a thread that waits may make its next turn at any time.
pub mod Serial
pub mod Fresh
pub mod Errors
pub mod Progress
use nesso.Base.{ℕ, zero, suc, ◌+◌, ◌^◌, ◌<◌, ◌≡◌, List, [], ◌∷◌, ◌==◌, if◌then◌else◌}
use nesso.Io.{ErrorKind, Outcome}
use nesso.GroupCommit.{
  GroupCommitConfig, GroupCommitState, Turn, new, join, turn, synced, set_force_flush,
}

-- Where a thread stands, with the batch that it joined.
pub data Pc : Type 0 where
  idle : Pc
  looping : (my_batch : ℕ) → Pc
  syncing : (my_batch : ℕ) → Pc
  returned : (my_batch : ℕ) → Outcome → Pc

pub record System : Type 0 where
  pub state : GroupCommitState
  pub threads : ℕ → Pc
  pub begun : List ℕ
  pub seen : ℕ → List ℕ
  pub finished : List (ℕ × Outcome)

abbrev pub update : {A : Type 0} → (ℕ → A) → ℕ → A → ℕ → A
update threads t pc u = if t == u then pc else threads u

abbrev pub start : System
start = record { state = new; threads = λ _. Pc.idle; begun = []; seen = λ _. []; finished = [] }

-- Any thread may move next. A turn that waits changes nothing, so it is no step. Batch ids do not
-- wrap: the runs are those of fewer than 2 ^ 64 - 1 batches.
pub data Step (c : GroupCommitConfig) (s : System) : System → Type 0 where
  arrive :
      (t now : ℕ)
      → s.threads t ≡ Pc.idle
      → Step c s (record s {
        state = join s.state now;
        threads = update s.threads t (Pc.looping s.state.collecting_batch_id);
        seen = update s.seen t s.begun;
      })
  commit :
      (t b now : ℕ) (s' : GroupCommitState)
      → s.threads t ≡ Pc.looping b
      → turn c s.state b now ≡ Turn.commits s'
      → s.state.collecting_batch_id + 1 < 2 ^ 64
      → Step c s (record s {
        state = s';
        threads = update s.threads t (Pc.syncing b);
        begun = b ∷ s.begun;
      })
  finish :
      (t b : ℕ) (res : Outcome)
      → s.threads t ≡ Pc.syncing b
      → Step c s (record s {
        state = synced s.state b res;
        threads = update s.threads t (Pc.returned b res);
        finished = (b, res) ∷ s.finished;
      })
  follow :
      (t b now : ℕ) (res : Outcome)
      → s.threads t ≡ Pc.looping b
      → turn c s.state b now ≡ Turn.returns res
      → Step c s (record s { threads = update s.threads t (Pc.returned b res) })
  leave :
      (t b : ℕ) (res : Outcome)
      → s.threads t ≡ Pc.returned b res
      → Step c s (record s { threads = update s.threads t Pc.idle })
  flush : Step c s (record s { state = set_force_flush s.state })

pub data Reach (c : GroupCommitConfig) : System → Type 0 where
  here : Reach c start
  next : {s s' : System} → Reach c s → Step c s s' → Reach c s'
