-- ===== src/Queue/History.antt =====
-- Whole histories of pushes and pops, against the same history on the ordered list.
use nesso.Base.{
  ◌+◌, ◌^◌, ◌≡◌, refl, ap, ◌<◌, Option, none, some, List, [], ◌∷◌, length, All, arith, inl, inr,
  IsU8,
}
use mathlib.Core.Option
use nesso.Task.{TaskRef}
use nesso.Queue.{PriorityBucketQueue, push, pop}
use nesso.Queue.Order.{insert_task}
use nesso.Queue.Invariant.{IsValid, to_list, push-IsValid, push-to_list}
use nesso.Queue.Refinement.{pop-Pops}

pub data Call : Type 0 where
  pushes : TaskRef → Call
  pops : Call

-- What the pops of a history return; `none` is a panic.
unfoldable pub run : List Call → PriorityBucketQueue → Option (List (Option TaskRef))
run [] q = some []
run (pushes t ∷ calls) q = run calls (push q t)
run (pops ∷ calls) q = elim (pop q) [
  | none ↦ none
  | some (o, q') ↦ Option.map (λ os. o ∷ os) (run calls q')
]

unfoldable pub run_list : List Call → List TaskRef → List (Option TaskRef)
run_list [] l = []
run_list (pushes t ∷ calls) l = run_list calls (insert_task t l)
run_list (pops ∷ calls) [] = none ∷ run_list calls []
run_list (pops ∷ calls) (t ∷ l) = some t ∷ run_list calls l

abbrev pub FitsCall : Call → Type 0
FitsCall (pushes t) = IsU8 t.priority
FitsCall pops = Unit {0}

push-len : (q : PriorityBucketQueue) (t : TaskRef) → q.len + 1 < 2 ^ 64 → (push q t).len ≡ q.len + 1
unfolding push
push-len q t h = omega arith

-- Any history of pushes (of u8 priorities) and pops on a valid queue runs without a panic, and
-- its pops return what they return on the list in which each push inserts behind the tasks of at
-- least its priority and each pop takes the head, if the length cannot overflow.
pub run-run_list :
    (calls : List Call) (q : PriorityBucketQueue)
    → IsValid q
    → All FitsCall calls
    → q.len + length calls < 2 ^ 64
    → run calls q ≡ some (run_list calls (to_list q))
unfolding run run_list
run-run_list [] q v h l = refl
run-run_list (pushes t ∷ calls) q v (ht, h) l = rw (push-to_list q t v ht) at (
    run-run_list calls (push q t) (push-IsValid q t v ht (omega arith)) h
      (omega (arith, push-len q t)))
run-run_list (pops ∷ calls) q v (_, h) l = elim (pop-Pops q v) [
  | inl (empty, e) ↦
      let ih = run-run_list calls q v h (omega arith) in
      ground (arith, empty, e, ih, ap (run_list calls) empty)
  | inr (t, q', order, e, v', _) ↦
      let ih = run-run_list calls q' v' h (omega (arith, ap length order, v.counted, v'.counted)) in
      ground (arith, order, e, ih)
]
