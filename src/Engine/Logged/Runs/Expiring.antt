-- ===== src/Engine/Logged/Runs/Expiring.antt =====
-- The task of the run is leased, and its lease runs out on a round of the expiration thread.
use nesso.Base.{ℕ}
use nesso.Record.{Record, OpType}
use nesso.Wal.{AppendIo, all_written}
use nesso.Engine.{Engine, process_task_failure}
use nesso.Engine.Failures.{failure_record}
use nesso.Engine.Logged.Run.{Run}
use nesso.Cache
use nesso.Queue
use nesso.Engine.Logged.Runs.{no_sum}
use nesso.Engine.Logged.Runs.Popping.{popped}

abbrev failure : Record
failure = failure_record 1 5 1 OpType.expired

abbrev expired : Engine
expired = (process_task_failure no_sum popped.1 1 5 0 OpType.expired all_written).1

abbrev always : ℕ → AppendIo
always k = all_written
