-- ===== src/Queue/Runs.antt =====
-- Small runs of the bucket queue.
use nesso.Base.{◌≡◌, refl, none, some, List, [], ◌∷◌, arith}
use nesso.Task.{TaskRef}
use nesso.Queue.{new, push, pop}
use nesso.Queue.Order.{insert_task}
use nesso.Queue.Invariant.{to_list, new-IsValid, push-IsValid}
use nesso.Queue.Refinement.{Pops, pop-Pops}
use nesso.Queue.History.{Call, pushes, pops, run, run_list, run-run_list}

abbrev low : TaskRef
low = record { id = 1; priority = 2; retries = 0 }

abbrev high : TaskRef
high = record { id = 2; priority = 200; retries = 0 }

abbrev high_again : TaskRef
high_again = record { id = 3; priority = 200; retries = 1 }

abbrev calls : List Call
calls = pushes low ∷ pushes high ∷ pushes high_again ∷ pops ∷ pops ∷ pops ∷ pops ∷ []

served : run_list calls [] ≡ some high ∷ some high_again ∷ some low ∷ none ∷ []
unfolding run_list insert_task
served = refl

run-run_list_example : run calls new ≡ some (run_list calls (to_list new))
run-run_list_example =
    run-run_list calls new new-IsValid
      (omega arith, (omega arith, (omega arith, (tt, (tt, (tt, (tt, tt)))))))
      (unfold new in omega arith)

pop-Pops_example : Pops (push new low) (pop (push new low))
pop-Pops_example =
    pop-Pops (push new low)
      (push-IsValid new low new-IsValid (omega arith) (unfold new in omega arith))
