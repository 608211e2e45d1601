-- ===== src/Engine/Worker/Runs.antt =====
-- Two calls of `stop` while the thread waits: the first joins the thread, and the second returns at
-- once.
use nesso.Base.{ℕ, ◌≤◌, true, false, ◌≡◌, ◌⊎◌, refl, List}
use nesso.Disk.{empty_disk}
use nesso.Wal.{default_max_segment_size}
use nesso.Wal.Reader.{new_reader}
use nesso.Engine.{Engine, new_state}
use nesso.Engine.Worker.{
  Thread, Stopper, System, start, loop_turn, lock_turn, wake_turn, move, ThreadStep, OtherStep, Run,
}
use nesso.Engine.Worker.Stopping.{stop-Terminates}

abbrev no_sum : List ℕ → ℕ
no_sum bytes = 0

abbrev engine : Engine
engine = record {
  inner = new_state (record {
    active_segment_id = 1;
    active_file = 0;
    current_size = 0;
    max_segment_size = default_max_segment_size;
  });
  reader = new_reader;
  disk = empty_disk;
  notified = 0;
}

-- The thread waits, and call 0 of `stop` has set the flag and the guard.
abbrev asked : System
asked = record (start engine) {
  shutdown_flag = true;
  guard = true;
  thread = Thread.waiting;
  stoppers = move (move (start engine).stoppers 0 Stopper.flagged) 0 Stopper.signalled;
}

asked-Run : Run no_sum (start engine) 2 asked
unfolding loop_turn lock_turn
asked-Run =
    Run.then_other 2 _ _
      (Run.then_other 2 _ _
        (Run.then_thread 1 _ _
          (Run.then_thread 0 _ _ Run.none_yet (ThreadStep.loops false refl (λ h. absurd cc)))
          (ThreadStep.locks false refl (λ h. absurd cc)))
        (OtherStep.stores 0 refl))
      (OtherStep.signals 0 refl)

ended-Run : Run no_sum asked 1 (record asked { thread = Thread.finished })
unfolding wake_turn
ended-Run = Run.then_thread 0 _ _ Run.none_yet (ThreadStep.wakes false refl (λ h. absurd cc))

stop-Terminates_example :
    (1 ≤ 4)
    × ((Thread.finished ≡ Thread.finished)
        ⊎ ((u : System) × ThreadStep no_sum (record asked { thread = Thread.finished }) u))
stop-Terminates_example =
    stop-Terminates no_sum engine asked (record asked { thread = Thread.finished }) 2 1 0 asked-Run
      refl ended-Run

-- The handle is gone once call 0 has taken it, so call 1 returns while the thread waits.
returns_early :
    (s : System) × Run no_sum asked 0 s
    × (s.stoppers 1 ≡ Stopper.returned false)
    × (s.thread ≡ Thread.waiting)
returns_early = (
  _,
  Run.then_other 0 _ _
      (Run.then_other 0 _ _
        (Run.then_other 0 _ _ (Run.then_other 0 _ _ Run.none_yet (OtherStep.takes 0 refl))
          (OtherStep.stores 1 refl))
        (OtherStep.signals 1 refl))
      (OtherStep.takes 1 refl),
  refl,
  refl,
)
