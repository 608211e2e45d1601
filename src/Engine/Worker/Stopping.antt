-- ===== src/Engine/Worker/Stopping.antt =====
-- storage/engine.rs, `ExpirationWorker::stop`: the thread ends, and joining waits for its end.
use nesso.Base.{
  ℕ, suc, ◌+◌, ◌≤◌, Bool, true, false, ◌≡◌, ◌≢◌, refl, List, [], ◌∷◌, ◌==◌, if◌then◌else◌, ◌⊎◌, inl,
  inr, arith, Bool-cases,
}
use nesso.Engine.{Engine}
use nesso.Wal.{all_written}
use nesso.Engine.Expiration.{ExpiredTask, expired_tasks}
use nesso.Engine.Worker.{
  Thread, Stopper, System, start, loop_turn, lock_turn, wake_turn, collected, move, ThreadStep,
  OtherStep, Run,
}

-- How many steps are left to the thread once the guard is set.
abbrev left : Thread → ℕ
left Thread.finished = 0
left Thread.at_lock = 1
left Thread.waiting = 1
left Thread.at_loop = 2
left (Thread.failing tasks) = 3
left Thread.collecting = 4

left_most : (p : Thread) → left p ≤ 4
left_most Thread.finished = omega arith
left_most Thread.at_lock = omega arith
left_most Thread.waiting = omega arith
left_most Thread.at_loop = omega arith
left_most (Thread.failing tasks) = omega arith
left_most Thread.collecting = omega arith

-- A call of `stop` that has set the guard.
abbrev pub has_signalled : Stopper → Bool
has_signalled Stopper.idle = false
has_signalled Stopper.flagged = false
has_signalled _ = true

abbrev has_joined : Stopper → Bool
has_joined (Stopper.returned true) = true
has_joined _ = false

abbrev is_finished : Thread → Bool
is_finished Thread.finished = true
is_finished _ = false

collected-left : (tasks : List ExpiredTask) → suc (left (collected tasks)) ≤ 4
unfolding collected
collected-left [] = omega arith
collected-left (t ∷ tasks) = omega arith

move-cases :
    (f : Stopper → Bool) (stoppers : ℕ → Stopper) (i : ℕ) (p : Stopper) (j : ℕ)
    → f (move stoppers i p j) ≡ true
    → (f p ≡ true) ⊎ (f (stoppers j) ≡ true)
move-cases f stoppers i p j h = elim (Bool-cases (i == j)) [
  | inl same ↦ inl (rw same at h)
  | inr other ↦ inr (rw other at h)
]

not_joined : (b : Bool) → has_joined (if b then Stopper.joining else Stopper.returned false) ≢ true
not_joined true h = absurd cc
not_joined false h = absurd cc

-- A call of `stop` goes on only behind the guard that it set, and behind the thread that it joined.
record IsOrdered (s : System) : Type 0 where
  signal : (i : ℕ) → has_signalled (s.stoppers i) ≡ true → s.guard ≡ true
  join : (i : ℕ) → has_joined (s.stoppers i) ≡ true → is_finished s.thread ≡ true

module _ (crc32 : List ℕ → ℕ) where
  ThreadStep-left :
      (s t : System)
      → ThreadStep crc32 s t
      → s.guard ≡ true
      → (t.guard ≡ true) × (suc (left t.thread) ≤ left s.thread)
  unfolding loop_turn lock_turn wake_turn
  ThreadStep-left s _ (ThreadStep.loops true at h) g = (g, rw at (omega arith))
  ThreadStep-left s _ (ThreadStep.loops false at h) g = (g, rw at (omega arith))
  ThreadStep-left s _ (ThreadStep.locks loaded at h) g = (g, rw (at, g) (omega arith))
  ThreadStep-left s _ (ThreadStep.wakes loaded at h) g = (g, rw (at, g) (omega arith))
  ThreadStep-left s _ (ThreadStep.collects now at) g =
      (g, rw at (collected-left (expired_tasks now s.engine.inner.leased)))
  ThreadStep-left s _ (ThreadStep.fails tasks io at) g = (g, rw at (omega arith))

  OtherStep-left :
      (s t : System)
      → OtherStep crc32 s t
      → s.guard ≡ true
      → (t.guard ≡ true) × (t.thread ≡ s.thread)
  OtherStep-left s _ (OtherStep.stores i at) g = (g, refl)
  OtherStep-left s _ (OtherStep.signals i at) g = (refl, refl)
  OtherStep-left s _ (OtherStep.takes i at) g = (g, refl)
  OtherStep-left s _ (OtherStep.joins i at end) g = (g, refl)
  OtherStep-left s _ (OtherStep.operates e) g = (g, refl)

  Run-left :
      (s t : System) (n : ℕ)
      → Run crc32 s n t
      → s.guard ≡ true
      → (t.guard ≡ true) × (n + left t.thread ≤ left s.thread)
  Run-left s _ _ Run.none_yet g = (g, omega arith)
  Run-left s t _ (Run.then_thread n m _ before step) g =
      let (gm, lm) = Run-left s m n before g in
      let (gt, lt) = ThreadStep-left m t step gm in (gt, omega arith)
  Run-left s t n (Run.then_other _ m _ before step) g =
      let (gm, lm) = Run-left s m n before g in
      let (gt, same) = OtherStep-left m t step gm in (gt, rw same lm)

  -- Unless it is at its end the thread can move.
  thread-Moves : (s : System) → (s.thread ≡ Thread.finished) ⊎ ((t : System) × ThreadStep crc32 s t)
  thread-Moves s = moves s.thread refl
    where
      moves :
          (p : Thread)
          → s.thread ≡ p
          → (s.thread ≡ Thread.finished) ⊎ ((t : System) × ThreadStep crc32 s t)
      moves Thread.finished h = inl h
      moves Thread.at_loop h = inr (_, ThreadStep.loops false h (λ e. absurd cc))
      moves Thread.at_lock h = inr (_, ThreadStep.locks false h (λ e. absurd cc))
      moves Thread.waiting h = inr (_, ThreadStep.wakes false h (λ e. absurd cc))
      moves Thread.collecting h = inr (_, ThreadStep.collects 0 h)
      moves (Thread.failing tasks) h = inr (_, ThreadStep.fails tasks (λ k. all_written) h)

  start-IsOrdered : (e : Engine) → IsOrdered (start e)
  start-IsOrdered e = record { signal = λ i h. absurd cc; join = λ i h. absurd cc }

  ThreadStep-IsOrdered : (s t : System) → ThreadStep crc32 s t → IsOrdered s → IsOrdered t
  ThreadStep-IsOrdered s _ (ThreadStep.loops loaded at h) o = record {
    signal = o.signal;
    join = λ i j. let k = rw at at (o.join i j) in absurd cc;
  }
  ThreadStep-IsOrdered s _ (ThreadStep.locks loaded at h) o = record {
    signal = o.signal;
    join = λ i j. let k = rw at at (o.join i j) in absurd cc;
  }
  ThreadStep-IsOrdered s _ (ThreadStep.wakes loaded at h) o = record {
    signal = o.signal;
    join = λ i j. let k = rw at at (o.join i j) in absurd cc;
  }
  ThreadStep-IsOrdered s _ (ThreadStep.collects now at) o = record {
    signal = o.signal;
    join = λ i j. let k = rw at at (o.join i j) in absurd cc;
  }
  ThreadStep-IsOrdered s _ (ThreadStep.fails tasks io at) o = record {
    signal = o.signal;
    join = λ i j. let k = rw at at (o.join i j) in absurd cc;
  }

  OtherStep-IsOrdered : (s t : System) → OtherStep crc32 s t → IsOrdered s → IsOrdered t
  OtherStep-IsOrdered s _ (OtherStep.stores i at) o = record {
    signal = λ j h. elim (move-cases has_signalled s.stoppers i Stopper.flagged j h) [
      | inl new ↦ absurd cc
      | inr old ↦ o.signal j old
    ];
    join = λ j h. elim (move-cases has_joined s.stoppers i Stopper.flagged j h) [
      | inl new ↦ absurd cc
      | inr old ↦ o.join j old
    ];
  }
  OtherStep-IsOrdered s _ (OtherStep.signals i at) o = record {
    signal = λ j h. refl;
    join = λ j h. elim (move-cases has_joined s.stoppers i Stopper.signalled j h) [
      | inl new ↦ absurd cc
      | inr old ↦ o.join j old
    ];
  }
  OtherStep-IsOrdered s _ (OtherStep.takes i at) o = record {
    signal = λ j h. o.signal i (rw at refl);
    join = λ j h.
        elim (move-cases has_joined s.stoppers i
          (if s.handle then Stopper.joining else Stopper.returned false) j h) [
            | inl new ↦ absurd (not_joined s.handle new)
            | inr old ↦ o.join j old
          ];
  }
  OtherStep-IsOrdered s _ (OtherStep.joins i at end) o = record {
    signal = λ j h. o.signal i (rw at refl);
    join = λ j h. rw end refl;
  }
  OtherStep-IsOrdered s _ (OtherStep.operates e) o = record { signal = o.signal; join = o.join }

  Run-IsOrdered : (s t : System) (n : ℕ) → Run crc32 s n t → IsOrdered s → IsOrdered t
  Run-IsOrdered s _ _ Run.none_yet o = o
  Run-IsOrdered s t _ (Run.then_thread n m _ before step) o =
      ThreadStep-IsOrdered m t step (Run-IsOrdered s m n before o)
  Run-IsOrdered s t n (Run.then_other _ m _ before step) o =
      OtherStep-IsOrdered m t step (Run-IsOrdered s m n before o)

  -- Once a call of `stop` has set the guard, the thread makes at most four more steps, whatever
  -- other threads do and whatever its loads of the flag miss, and it can make the next one unless
  -- it is at its end.
  pub stop-Terminates :
      (e : Engine) (s t : System) (m n i : ℕ)
      → Run crc32 (start e) m s
      → has_signalled (s.stoppers i) ≡ true
      → Run crc32 s n t
      → (n ≤ 4) × ((t.thread ≡ Thread.finished) ⊎ ((u : System) × ThreadStep crc32 t u))
  stop-Terminates e s t m n i before signalled run =
      let g = (Run-IsOrdered (start e) s m before (start-IsOrdered e)).signal i signalled in
      let (_, steps) = Run-left s t n run g in (omega (arith, left_most s.thread), thread-Moves t)

  -- A call of `stop` that has joined the thread returns behind the thread's end.
  joined-is_finished :
      (e : Engine) (s : System) (m i : ℕ)
      → Run crc32 (start e) m s
      → has_joined (s.stoppers i) ≡ true
      → is_finished s.thread ≡ true
  joined-is_finished e s m i run = (Run-IsOrdered (start e) s m run (start-IsOrdered e)).join i
