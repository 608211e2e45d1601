-- ===== src/Engine/Runs.antt =====
-- An engine on an empty log: a push, a pop, and what follows.
mod Restart
mod Payloads
use nesso.Base.{
  Bool-cases, inl, inr, true, ◌==◌, ℕ, ◌≡◌, refl, true, none, some, List, [], ◌∷◌, arith,
}
use nesso.Disk.{Disk}
use nesso.Io.{ErrorKind, Result, err}
use nesso.Queue.Order.{insert_task}
use nesso.Queue.Invariant.{to_list}
use nesso.Record.{Record, OpType, encode}
use nesso.Task.{TaskRef, LeaseInfo}
use nesso.Wal.{Wal, AppendIo, WriteOutcome, append, write_record, all_written}
use nesso.Wal.Reader.{new_reader}
use nesso.Engine.{
  Engine, new_with_cache_capacity, push, push_indexed, notify, lease_next, ack,
  process_task_failure,
}
use nesso.Base.Maps.{lookup}
use nesso.Engine.Expiration.{expiration_round, expired_tasks}
use nesso.Engine.Expiration.Rounds.{expiration_round-ends}
use nesso.Engine.Tasks.{IsValid}
use nesso.Engine.Tasks.Operations.{HasRoom}
use nesso.Engine.Tasks.Steps.{push-IsValid, new_with_cache_capacity-IsValid}
use nesso.Engine.Tasks.Rounds.{IsInOrder}
use nesso.Engine.Tasks.Reach.{start, next, pushes, expires, acks, Reach-IsInOrder}
use nesso.Engine.Nacks.{NackAnswers, nack-answers}
use nesso.Engine.Answers.{AckAnswers, ack-answers}
use nesso.Engine.Failures.{Fails, process_task_failure-Fails, failure_record}
use nesso.Engine.Leases.{
  Pushes, Serves, IsStranded, lease_of, lease_record, push-Pushes, lease_next-Serves,
  lease_next-strands,
}

abbrev no_sum : List ℕ → ℕ
no_sum bytes = 0

abbrev wal : Wal
wal = record { active_segment_id = 1; active_file = 0; current_size = 0; max_segment_size = 1000 }

abbrev disk : Disk
disk = record {
  segments = (1, 0) ∷ [];
  inodes = (0, []) ∷ [];
  next_inode = 1;
  compacting = none;
  plan = none;
  swap = none;
}

abbrev empty : Engine
empty = record {
  inner = new_with_cache_capacity wal 2;
  reader = new_reader;
  disk = disk;
  notified = 0;
}

empty-IsValid : IsValid empty.inner
empty-IsValid = new_with_cache_capacity-IsValid wal 2

empty-HasRoom : HasRoom empty.inner
unfolding new_with_cache_capacity nesso.Queue.new
empty-HasRoom = record { id_room = omega arith; len_room = omega arith }

-- One task, of priority 9.
abbrev pushed : Engine
pushed = (push no_sum empty (5 ∷ []) 9 all_written).1

abbrev task : TaskRef
task = record { id = 1; priority = 9; retries = 0 }

pushed-IsValid : IsValid pushed.inner
pushed-IsValid =
    push-IsValid no_sum empty (5 ∷ []) 9 all_written empty-IsValid empty-HasRoom (omega arith)

abbrev first_append : Result (ℕ × ℕ) × Wal × Disk
first_append =
    append no_sum wal disk all_written
      (record { id = 1; op_type = OpType.created; priority = 9; payload = 5 ∷ [] })

push-Pushes_example : Pushes empty (5 ∷ []) 9 (1, 0) (push no_sum empty (5 ∷ []) 9 all_written)
push-Pushes_example =
    push-Pushes no_sum empty (5 ∷ []) 9 all_written (1, 0) first_append.1 first_append.2
      empty-IsValid.queue (omega arith) empty-HasRoom.id_room
      (unfold new_with_cache_capacity append write_record in refl)

pushed-order : to_list pushed.inner.ready_queue ≡ task ∷ []
unfolding new_with_cache_capacity insert_task nesso.Queue.new
pushed-order =
    (push-Pushes no_sum empty (5 ∷ []) 9 all_written (1, 0) first_append.1 first_append.2
      empty-IsValid.queue (omega arith) empty-HasRoom.id_room
      (unfold append write_record in refl)).ready

abbrev lease : Record
lease = lease_record task 7 130

abbrev lease_append : Result (ℕ × ℕ) × Wal × Disk
lease_append = append no_sum pushed.inner.wal pushed.disk all_written lease

lease_next-Serves_example :
    Serves task [] (lease_of task 7 130) (lease_next no_sum pushed 7 30 100 all_written)
lease_next-Serves_example =
    lease_next-Serves no_sum pushed 7 30 100 all_written task [] (1, 20) lease_append.1
      lease_append.2 pushed-IsValid pushed-order
      (unfold new_with_cache_capacity push push_indexed notify append write_record encode in refl)

abbrev full_disk : AppendIo
full_disk = record {
  sync = none;
  open_ = none;
  write = WriteOutcome.failed ErrorKind.other_error 3 true;
}

abbrev failed_append : Result (ℕ × ℕ) × Wal × Disk
failed_append = append no_sum pushed.inner.wal pushed.disk full_disk lease

lease_next-strands_example :
    (e' : Engine) × (lease_next no_sum pushed 7 30 100 full_disk
      ≡ some (err ErrorKind.other_error, e'))
    × IsStranded 1 e'.inner
lease_next-strands_example =
    lease_next-strands no_sum pushed 7 30 100 full_disk task [] ErrorKind.other_error
      failed_append.1 failed_append.2 pushed-IsValid pushed-order
      (unfold new_with_cache_capacity push push_indexed notify append write_record encode in refl)

abbrev failure_append : Result (ℕ × ℕ) × Wal × Disk
failure_append =
    append no_sum empty.inner.wal empty.disk all_written (failure_record 1 9 3 OpType.nacked)

process_task_failure-Fails_example :
    Fails empty.inner.ready_queue empty.inner.data_index 1 9 3
      (process_task_failure no_sum empty 1 9 2 OpType.nacked all_written)
process_task_failure-Fails_example =
    process_task_failure-Fails no_sum empty 1 9 2 OpType.nacked all_written (1, 0) failure_append.1
      failure_append.2 empty-IsValid.queue (omega arith) (omega arith)
      (unfold new_with_cache_capacity append write_record in refl)

ack-answers_example : AckAnswers no_sum pushed 1 7 all_written
ack-answers_example = ack-answers no_sum pushed 1 7 all_written

-- A lease that ended at 10, with a retry left.
abbrev old_lease : LeaseInfo
old_lease = record { consumer_id = 7; expire_timestamp = 10; retries = 1; priority = 9 }

abbrev overdue : Engine
overdue = record empty { inner = record (empty.inner) { leased = (1, old_lease) ∷ [] } }

expiration_round-ends_example :
    lookup 1 (expiration_round no_sum (λ x. x) overdue 10 (λ _. all_written)).inner.leased ≡ none
expiration_round-ends_example =
    expiration_round-ends no_sum overdue 10 1 old_lease (unfold lookup in refl) (omega arith)

-- The same with the place of the task, which makes an engine in order.
abbrev answering : Engine
answering = record overdue {
  inner = record (overdue.inner) {
    next_id = 2;
    data_index = (1, (1, 0)) ∷ [];
    on_task_ready = true;
  };
}

answering-IsValid : IsValid answering.inner
unfolding new_with_cache_capacity lookup nesso.Queue.new
answering-IsValid = record {
  queue = empty-IsValid.queue;
  ids = omega arith;
  ready = tt;
  distinct = tt;
  leases = λ id lease h. elim (Bool-cases (1 == id)) [
    | inl same ↦
        let found : some old_lease ≡ some lease = rw same at h in ground (arith, same, found)
    | inr other ↦
        let nothing : none ≡ some lease = rw other at h in absurd (ground (arith, nothing))
  ];
}

nack-answers_example : NackAnswers no_sum answering 1 7 all_written
nack-answers_example = nack-answers no_sum answering 1 7 all_written answering-IsValid

answering-IsInOrder : IsInOrder answering.inner
answering-IsInOrder = record { valid = answering-IsValid; once = (tt, tt) }

answering-HasRoom : HasRoom answering.inner
unfolding new_with_cache_capacity nesso.Queue.new
answering-HasRoom = record { id_room = omega arith; len_room = omega arith }

-- A push, the failure of the lease that ran out, and an ack that comes too late.
abbrev second : Engine
second = (push no_sum answering (5 ∷ []) 9 all_written).1

abbrev failed : Engine
failed = expiration_round no_sum (λ x. x) second 10 (λ _. all_written)

abbrev late : Engine
late = (ack no_sum failed 1 7 all_written).1

Reach-IsInOrder_example : IsInOrder late.inner
Reach-IsInOrder_example =
    Reach-IsInOrder no_sum answering late
      (next answering failed late
        (next answering second failed
          (next answering answering second (start answering)
            (pushes answering (5 ∷ []) 9 all_written answering-HasRoom (omega arith)))
          (expires second 10 (λ _. all_written)
            (unfold push push_indexed notify append write_record encode new_with_cache_capacity
                nesso.Queue.new nesso.Queue.push expired_tasks in
              omega arith)))
        (acks failed 1 7 all_written))
      answering-IsInOrder
