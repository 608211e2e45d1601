-- ===== src/Engine/Logged/Runs/Popping.antt =====
-- The task of the run is leased, and its payload returned.
use nesso.Base.{◌≡◌, refl, none, some, [], ◌∷◌, arith, Option}
use nesso.Base.Maps.{lookup, insert}
use nesso.Io.{ok, Result}
use nesso.Record.{Record, encode}
use nesso.Wal.{all_written, append, write_record}
use nesso.Engine.{
  Engine, new_state, new_with_cache_capacity, push, lease_payload, lease_next, lease_task,
  lease_indexed, Leased, notify, push_indexed,
}
use nesso.Engine.Logged.Run.{Writes, Step}
use nesso.Engine.Leases.{lease_record}
use nesso.Task.{TaskRef}
use nesso.Base.Bits.{leading_zeros}
use nesso.Queue.{PriorityBucketQueue}
use mathlib.Core.Option
use nesso.Cache
use nesso.Queue
use nesso.Wal.Scan.Laws.{Fits}
use nesso.Engine.Logged.Runs.{no_sum, pushed}

pushed-place : lookup 1 pushed.inner.data_index ≡ some (1, 0)
unfolding push append write_record encode new_state new_with_cache_capacity lookup notify
    push_indexed insert
pushed-place = refl

-- Consumer 7 asks for the task at instant 20, for 30 seconds.
abbrev pub popped : Result (Option Leased) × Engine
popped = Option.get_or (lease_next no_sum pushed 7 30 20 all_written) (ok none, pushed)

abbrev task : TaskRef
task = record { id = 1; priority = 5; retries = 0 }

abbrev pub leased : Record
leased = lease_record task 7 50

popped_task :
    lease_next no_sum pushed 7 30 20 all_written
    ≡ some (
      ok (some (record { task = task; data_loc = (1, 0); cached = some (7 ∷ 8 ∷ []) })),
      popped.1,
    )
unfolding push append write_record encode new_state new_with_cache_capacity lookup notify
    push_indexed insert lease_next lease_task lease_indexed Queue.new Queue.push Queue.pop
    Queue.pop_from Queue.pop_bucket Queue.clear_if_empty leading_zeros Cache.new Cache.insert
    Cache.store Cache.evict Cache.hygiene Cache.get
popped_task = refl

abbrev rest : PriorityBucketQueue
rest = popped.1.inner.ready_queue

popped_queue : Queue.pop pushed.inner.ready_queue ≡ some (some task, rest)
unfolding push append write_record encode new_state new_with_cache_capacity lookup notify
    push_indexed insert lease_next lease_task lease_indexed Queue.new Queue.push Queue.pop
    Queue.pop_from Queue.pop_bucket Queue.clear_if_empty leading_zeros Cache.new Cache.insert
    Cache.store Cache.evict Cache.hygiene Cache.get
popped_queue = refl

leased-Fits : Fits leased
unfolding lease_payload
leased-Fits = record {
  is_record = record {
    id_fits = omega arith;
    priority_fits = omega arith;
    payload_bytes = (
      omega arith,
      (
        omega arith,
        (
          omega arith,
          (
            omega arith,
            (
              omega arith,
              (
                omega arith,
                (
                  omega arith,
                  (
                    omega arith,
                    (omega arith, (omega arith, (omega arith, (omega arith, (omega arith, tt))))),
                  ),
                ),
              ),
            ),
          ),
        ),
      ),
    );
  };
  small = omega arith;
}

popped-Writes : Writes no_sum 0 pushed all_written leased (1, 21, leased) popped.1
unfolding push append write_record encode new_state new_with_cache_capacity lookup notify
    push_indexed insert lease_next lease_task lease_indexed Queue.new Queue.push Queue.pop
    Queue.pop_from Queue.pop_bucket Queue.clear_if_empty leading_zeros Cache.new Cache.insert
    Cache.store Cache.evict Cache.hygiene Cache.get lease_payload
popped-Writes = record {
  loc = (1, 21);
  entry = refl;
  fits = leased-Fits;
  size_room = omega arith;
  id_room = omega arith;
  logged = refl;
}

abbrev handed : Leased
handed = record { task = task; data_loc = (1, 0); cached = some (7 ∷ 8 ∷ []) }

pub popped-Step : Step no_sum 0 pushed (1, 21, leased) popped.1
popped-Step =
    Step.pops pushed 7 30 20 all_written (1, 21, leased) popped.1 task rest (ok (some handed))
      (omega arith) (omega arith) (omega arith) popped_queue popped-Writes popped_task
