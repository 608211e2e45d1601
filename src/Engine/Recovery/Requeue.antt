-- ===== src/Engine/Recovery/Requeue.antt =====
-- storage/engine.rs, the second pass of `recover`: what it makes of each task, and of the ready
-- queue.
use nesso.Base.{
  ℕ, ◌+◌, ◌^◌, ◌≤◌, ◌<◌, ◌≡◌, ◌≢◌, refl, ap, sym, ◌∙◌, none, List, [], ◌∷◌, All, length, ◌==◌,
  if◌then◌else◌, arith, Bool-cases, inl, inr, IsU8, subst, ==_iff,
}
use nesso.Base.Keys.{DistinctKeys, lookup_absent}
use nesso.Base.Maps.{lookup}
use nesso.Queue
use nesso.Queue.{PriorityBucketQueue}
use nesso.Queue.Invariant.{to_list, push-to_list, push-IsValid, IsValid as IsQueue}
use nesso.Record.{Record}
use nesso.Task.{TaskRef}
use nesso.Engine.{EngineState, Loc}
use nesso.Engine.Recovery.{restore}
use nesso.Engine.Recovery.Log.{enlist, Latest, Fate, fate, ready_in, arrive, at_task}
use nesso.Engine.Recovery.Restoring.{restore_all, requeue, restore-ready_queue}

-- What the second pass does to one thing known of a task: the last record of the task alone counts.
pub restore_all-view :
    {A : Type 0} (now j : ℕ) (view : EngineState → A) (change : Loc → Record → A → A)
    → ((s : EngineState) (id : ℕ) (loc : Loc) (r : Record)
        → view (restore now s id loc r) ≡ (if id == j then change loc r (view s) else view s))
    → (l : Latest) (s : EngineState) → DistinctKeys l
    → view (restore_all now s l) ≡ at_task (view s) (λ loc r. change loc r (view s)) (lookup j l)
unfolding restore_all lookup
restore_all-view now j view change step [] s d = refl
restore_all-view now j view change step ((id, (loc, r)) ∷ l) s d =
    let ih = restore_all-view now j view change step l (restore now s id loc r) d.1 in
    let here = step s id loc r in
    elim (Bool-cases (id == j)) [
      | inl same ↦
          let absent : lookup j l ≡ none = lookup_absent j l (
            subst (λ (k : ℕ). All (λ (e : ℕ × (Loc × Record)). e.0 ≢ k) l) ((==_iff id j).0 same)
              d.0) in
          rw same ((rw absent at ih) ∙ (rw same at here))
      | inr other ↦
          rw other
            (ih ∙ ap (λ b. at_task b (λ loc r. change loc r b) (lookup j l)) (rw other at here))
    ]

requeue-arrive :
    (f : Fate) (id : ℕ) (r : Record) (q : PriorityBucketQueue) (ts : List TaskRef)
    → IsQueue q
    → IsU8 r.priority
    → q.len + 1 < 2 ^ 64
    → IsQueue (requeue id r f q)
      × ((requeue id r f q).len ≤ q.len + 1)
      × (arrive (to_list (requeue id r f q)) ts ≡ arrive (to_list q) (enlist id r f ts))
unfolding arrive Queue.push
requeue-arrive (Fate.ready n) id r q ts v p room =
    let t : TaskRef = record { id = id; priority = r.priority; retries = n } in
    (
      push-IsValid q t v p room,
      omega arith,
      ap (λ (served : List TaskRef). arrive served ts) (push-to_list q t v p),
    )
requeue-arrive (Fate.held lease) id r q ts v p room = (v, omega arith, refl)
requeue-arrive Fate.over id r q ts v p room = (v, omega arith, refl)

pub restore_all-ready_queue :
    (l : Latest) (now : ℕ) (s : EngineState)
    → IsQueue s.ready_queue
    → All (λ e. IsU8 e.1.1.priority) l
    → s.ready_queue.len + length l < 2 ^ 64
    → IsQueue (restore_all now s l).ready_queue
      × (to_list (restore_all now s l).ready_queue
          ≡ arrive (to_list s.ready_queue) (ready_in now l))
unfolding restore_all ready_in
restore_all-ready_queue [] now s v p room = (v, unfold arrive in refl)
restore_all-ready_queue ((id, (loc, r)) ∷ l) now s v p room =
    let (v', len, order) =
      requeue-arrive (fate now r) id r s.ready_queue (ready_in now l) v p.0 (omega arith) in
    let same = restore-ready_queue now s id loc r in
    let (v'', rest) =
      restore_all-ready_queue l now (restore now s id loc r) (subst IsQueue (sym same) v') p.1
        (omega (arith, ap (λ (q : PriorityBucketQueue). q.len) same)) in
    (v'', rest ∙ ap (λ (q : PriorityBucketQueue). arrive (to_list q) (ready_in now l)) same ∙ order)
