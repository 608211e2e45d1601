-- ===== src/GroupCommit/Threads/Errors.antt =====
-- An fsync that failed, and a thread of its batch that is told of success.
use nesso.Base.{ℕ, ◌+◌, ◌≡◌, refl, true, false, [], ◌∷◌, none, some, arith}
use nesso.Base.Maps.{lookup}
use nesso.Io.{ErrorKind}
use nesso.GroupCommit.{
  GroupCommitConfig, GroupCommitState, new, join, turn, synced, is_due, close_batch,
}
use nesso.GroupCommit.Threads.{
  Pc, System, Reach, update, arrive, commit, finish, follow, here, next,
}

module _ (c : GroupCommitConfig) (k : ErrorKind) where
  due :
      (s : GroupCommitState) (t now : ℕ)
      → s.last_arrival_time ≡ some t
      → now ≡ t + c.idle_commit_threshold
      → is_due c s now ≡ true
  unfolding is_due
  due s t now e f = ground arith

  abbrev late : ℕ
  late = 0 + c.idle_commit_threshold

  abbrev later : ℕ
  later = late + c.idle_commit_threshold

  -- Threads 0 and 1 have joined batch 1.
  abbrev joined : System
  joined = record {
    state = record {
      collecting_batch_id = 1;
      last_synced_batch_id = 0;
      waiters_in_collecting = 2;
      fsync_in_progress = false;
      batch_start_time = some 0;
      last_arrival_time = some 0;
      last_error = none;
      force_flush = false;
    };
    threads = update (update (λ _. Pc.idle) 0 (Pc.looping 1)) 1 (Pc.looping 1);
    begun = [];
    seen = update (update (λ _. []) 0 []) 1 [];
    finished = [];
  }

  joined-Reach : Reach c joined
  unfolding new join
  joined-Reach = next (next here (arrive 0 0 refl)) (arrive 1 0 refl)

  -- Thread 0 has begun the fsync of batch 1, and thread 2 has joined batch 2.
  abbrev first : System
  first = record {
    state = record {
      collecting_batch_id = 2;
      last_synced_batch_id = 0;
      waiters_in_collecting = 1;
      fsync_in_progress = true;
      batch_start_time = some late;
      last_arrival_time = some late;
      last_error = none;
      force_flush = false;
    };
    threads = update (update joined.threads 0 (Pc.syncing 1)) 2 (Pc.looping 2);
    begun = 1 ∷ [];
    seen = update joined.seen 2 (1 ∷ []);
    finished = [];
  }

  first-Reach : Reach c first
  unfolding join turn
  first-Reach =
      next
        (next joined-Reach (
          commit 0 1 late (close_batch joined.state) refl (rw (due joined.state 0 late refl refl))
            (omega arith)))
        (arrive 2 late refl)

  -- Batch 1 has failed, and batch 2 is being synced by thread 2.
  abbrev pub second : System
  second = record {
    state = record {
      collecting_batch_id = 3;
      last_synced_batch_id = 1;
      waiters_in_collecting = 0;
      fsync_in_progress = true;
      batch_start_time = none;
      last_arrival_time = none;
      last_error = some k;
      force_flush = false;
    };
    threads = update (update first.threads 0 (Pc.returned 1 (some k))) 2 (Pc.syncing 2);
    begun = 2 ∷ 1 ∷ [];
    seen = first.seen;
    finished = (1, some k) ∷ [];
  }

  abbrev failed : GroupCommitState
  failed = record (first.state) {
    fsync_in_progress = false;
    last_synced_batch_id = 1;
    last_error = some k;
  }

  pub second-Reach : Reach c second
  unfolding synced turn
  second-Reach = next (next first-Reach (finish 0 1 (some k) refl)) (
      commit 2 2 later (close_batch failed) refl (rw (due failed late later refl refl))
        (omega arith))

  -- Whatever the configuration and the error, there is a run in which the fsync of a batch failed
  -- with that error and a thread of the batch has returned success: the fsync of the next batch had
  -- cleared the error before the thread looked.
  pub lost_error :
      (s : System) × Reach c s
      × (lookup 1 s.finished ≡ some (some k))
      × (s.threads 1 ≡ Pc.returned 1 none)
  unfolding synced turn lookup
  lost_error = (
    _,
    next (next second-Reach (finish 2 2 none refl)) (follow 1 1 later none refl refl),
    refl,
    refl,
  )
