-- ===== src/Server/Runs.antt =====
-- A server with one open queue.
use nesso.Base.{ℕ, ◌≡◌, refl, false, true, none, some, List, [], ◌∷◌, if◌then◌else◌}
use nesso.Disk.{empty_disk}
use nesso.GroupCommit.{default_config}
use nesso.Wal.{Wal, all_written}
use nesso.Wal.Reader.{new_reader}
use nesso.Engine.{Engine, new_with_cache_capacity}
use nesso.Server.{
  AppState, find, new_app, get_existing_queue, status_handler, ack_handler, code_of, replies,
}
use nesso.Server.Poll.{PollTurn, Wakeup, pop_loop}
use nesso.Server.Waiting.{IsAnswer, pop_loop-Answers}
use nesso.Server.Queues.{list_queues_handler, shutdown_all_queues, shutdown}
use nesso.Base.Sort.{sort, insert_sorted}
use nesso.Io.{ErrorKind, err}
use text.Mathlib.Text.{◌==◌ as str_eq}
use nesso.Server.Statuses.{AckStatus, ack_handler-status}

abbrev no_sum : List ℕ → ℕ
no_sum bytes = 0

abbrev wal : Wal
wal = record { active_segment_id = 1; active_file = 0; current_size = 0; max_segment_size = 1000 }

abbrev engine : Engine
engine = record {
  inner = new_with_cache_capacity wal 2;
  reader = new_reader;
  disk = empty_disk;
  notified = 0;
}

abbrev app : AppState
app = record {
  dirs = [];
  queues = ("jobs", engine) ∷ [];
  shutting_down = false;
  group_commit_config = default_config;
}

status_unknown_queue : code_of (status_handler no_sum (new_app []) "jobs" 0).0 ≡ 404
unfolding status_handler get_existing_queue new_app nesso.Server.new_with_config find
    nesso.Server.from_io nesso.Server.status_code
status_unknown_queue = refl

ack_handler-status_example :
    AckStatus no_sum engine 1 7 true all_written none
      (code_of (ack_handler no_sum app "jobs" 0 1 7 true all_written none).0)
ack_handler-status_example =
    ack_handler-status no_sum app "jobs" 0 1 7 true all_written none engine (unfold find in refl)

abbrev turn : ℕ → PollTurn
turn instant = record {
  before = λ s. s;
  others = λ k e. e;
  now = 100;
  io = all_written;
  synced = none;
  instant = instant;
  wakeup = Wakeup.notified;
}

-- A pop that waits until instant 10 is woken at 3 on an empty queue, and gives up at 12.
pop_loop-Answers_example :
    IsAnswer (pop_loop no_sum "jobs" 7 30 false (some 10) (turn 3 ∷ turn 12 ∷ []) app engine)
pop_loop-Answers_example =
    pop_loop-Answers no_sum "jobs" 7 30 false (some 10) (turn 3 ∷ turn 12 ∷ []) app engine refl

-- The names of open queues and of other directories are listed in order, each once.
queues_listed :
    list_queues_handler true
      (record app { dirs = ("mail", empty_disk) ∷ ("jobs", empty_disk) ∷ ("a", empty_disk) ∷ [] })
    ≡ replies 200 ("a" ∷ "jobs" ∷ "mail" ∷ [])
unfolding list_queues_handler sort insert_sorted find
queues_listed = refl

-- A queue behind one whose flush fails is neither flushed nor stopped.
shutdown_ends_early :
    shutdown_all_queues
      (("jobs", engine) ∷ ("mail", engine) ∷ [])
      (λ name. if str_eq name "jobs" then some ErrorKind.other_error else none)
    ≡ (err ErrorKind.other_error, [])
unfolding shutdown_all_queues shutdown
shutdown_ends_early = refl
