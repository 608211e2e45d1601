-- ===== src/Engine/Logged/Runs.antt =====
-- An engine on a new directory, which takes one task, crashes, and is opened again.
mod Popping
mod Expiring
use nesso.Base.{ℕ, ◌≡◌, refl, none, some, List, [], ◌∷◌, arith, IsU32, All, Option}
use nesso.Base.Maps.{lookup, insert}
use nesso.Disk.{Disk, empty_disk, open_segment}
use nesso.Io.{ok, Result}
use nesso.Record.{Record, encode, decode}
use nesso.Wal.{
  Wal, all_written, append, write_record, iter_all, iter_segments, default_max_segment_size,
  open_active, recover_compaction, open_wal,
}
use nesso.Wal.Reader.{new_reader, read_at}
use nesso.Engine.{
  Engine, new_state, new_with_cache_capacity, push, lease_payload, lease_next, lease_task,
  lease_indexed, Leased, notify, push_indexed,
}
use nesso.Engine.Recovery.{open_engine, recover, restore_entries, index_records}
use nesso.Engine.Tasks.Steps.{new_with_cache_capacity-IsValid}
use nesso.Engine.Logged.Following.{Follows}
use nesso.Engine.Logged.Growth.{IsOpen}
use nesso.Engine.Logged.Run.{Writes, Step, Run}
use nesso.Engine.Logged.Steps.{created_record}
use nesso.Engine.Logged.Survival.{IsRunning, restart_exact, Lives, Lives-IsRunning}
use nesso.Engine.Logged.Payload.{Keeps}
use nesso.Engine.Logged.Popping.{Pays, undisturbed}
use nesso.Engine.Leases.{lease_record}
use nesso.Task.{TaskRef}
use nesso.Base.Bits.{leading_zeros}
use nesso.Queue.{PriorityBucketQueue}
use mathlib.Core.Option
use nesso.Engine.Fallback.{pop_and_lease}
use nesso.Engine.Logged.SameTasks.{SameTasks, NoneExpired}
use nesso.Cache
use nesso.Queue
use nesso.Engine.Recovery.Log.{ready_in, arrive, latest_from}
use nesso.Wal.Scan.{
  valid_prefix, valid_offset, frames, frames_from, read_frame, extract_payload_len,
}
use nesso.Wal.Reader.Agrees.{IsCurrent, read_at-iter_all}
use nesso.Base.Sort.{sort, insert_sorted}
use nesso.Base.Bytes.{from_be_bytes, slice}
use nesso.Engine.Recovery.Directory.{open_engine-Replays}
use nesso.Engine.Recovery.Replay.{Replays}
use nesso.Engine.Logged.Rotation.{GrownBy, append-Grown}
use nesso.Queue.Invariant.{IsValid as IsQueue}
use nesso.Wal.Scan.Laws.{Fits}

abbrev wal : Wal
wal = record {
  active_segment_id = 1;
  active_file = 0;
  current_size = 0;
  max_segment_size = default_max_segment_size;
}

-- The directory as opening a log leaves it if nothing was there.
abbrev pub disk : Disk
disk = record (empty_disk) { segments = (1, 0) ∷ []; inodes = (0, []) ∷ []; next_inode = 1 }

abbrev pub started : Engine
started = record { inner = new_state wal; reader = new_reader; disk = disk; notified = 0 }

module _ (crc32 : List ℕ → ℕ) (now : ℕ) where
  started-empty : iter_all crc32 disk ≡ []
  unfolding iter_all iter_segments sort insert_sorted lookup frames frames_from read_frame
  started-empty = refl

  started-IsOpen : IsOpen crc32 wal disk []
  unfolding lookup
  started-IsOpen = record {
    active = record { named = refl; bytes = refl; size = refl; fit = tt };
    last = (omega arith, tt);
    names = (tt, tt);
    handles = (omega arith, tt);
    own = ((λ e. refl), tt);
    quiet = refl;
    positive = omega arith;
  }

  started-Follows : Follows crc32 now [] (new_state wal)
  unfolding new_state new_with_cache_capacity lookup Queue.new ready_in arrive latest_from
  started-Follows = record {
    valid = new_with_cache_capacity-IsValid wal Cache.default_payload_cache_capacity;
    agrees = record { ready = refl; leased = λ id. refl; placed = λ id. refl };
    ids = tt;
    sound = tt;
  }

  started-places : (id : ℕ) (loc : ℕ × ℕ) → ¬ (lookup id (new_state wal).data_index ≡ some loc)
  unfolding new_state new_with_cache_capacity lookup
  started-places id loc = λ at. cc

  pub started-IsRunning : IsRunning crc32 now started
  started-IsRunning = record {
    rs = [];
    is_open = unfold new_state new_with_cache_capacity in started-IsOpen;
    follows = rw started-empty started-Follows;
    priorities = rw started-empty tt;
    places = λ id loc at. absurd (started-places id loc at);
    once = unfold new_state new_with_cache_capacity in tt;
  }

abbrev pub no_sum : List ℕ → ℕ
no_sum bytes = 0

pub no_sum_word : (bs : List ℕ) → IsU32 (no_sum bs)
no_sum_word bs = omega arith

abbrev pub pushed : Engine
pushed = (push no_sum started (7 ∷ 8 ∷ []) 5 all_written).1

abbrev pub first : Record
first = created_record 1 5 (7 ∷ 8 ∷ [])

first-Fits : Fits first
first-Fits = record {
  is_record = record {
    id_fits = omega arith;
    priority_fits = omega arith;
    payload_bytes = (omega arith, (omega arith, tt));
  };
  small = omega arith;
}

pushed-Writes : Writes no_sum 0 started all_written first (1, 0, first) pushed
unfolding push append write_record encode new_state new_with_cache_capacity lookup notify
    push_indexed
pushed-Writes = record {
  loc = (1, 0);
  entry = refl;
  fits = first-Fits;
  size_room = omega arith;
  id_room = omega arith;
  logged = refl;
}

pushed-Step : Step no_sum 0 started (1, 0, first) pushed
unfolding new_state new_with_cache_capacity Queue.new
pushed-Step =
    Step.pushes started (7 ∷ 8 ∷ []) 5 all_written (1, 0, first) pushed
      (record { id_room = omega arith; len_room = omega arith }) (omega arith) pushed-Writes refl

pub pushed-Run : Run no_sum 0 started ((1, 0, first) ∷ []) pushed
pushed-Run = Run.next started started pushed [] (1, 0, first) (Run.start started) pushed-Step

pushed-log : iter_all no_sum pushed.disk ≡ (1, 0, first) ∷ []
unfolding push append write_record encode new_state new_with_cache_capacity lookup iter_all
    iter_segments sort insert_sorted frames frames_from read_frame decode notify push_indexed insert
    extract_payload_len from_be_bytes slice
pushed-log = refl

pushed-NoneExpired : NoneExpired 10 pushed.inner.leased
unfolding push append write_record encode new_state new_with_cache_capacity lookup notify
    push_indexed
pushed-NoneExpired id lease h = absurd cc

pushed-Lives : Lives no_sum no_sum_word 0 started 0 pushed
pushed-Lives =
    Lives.runs 0 0 started started pushed ((1, 0, first) ∷ []) (Lives.stays 0 started) pushed-Run

abbrev reopened :
    (e : Engine) × (open_engine no_sum 10 pushed.disk ≡ ok e) × SameTasks pushed.inner e.inner
reopened =
    restart_exact no_sum no_sum_word 0 0 10 started pushed (started-IsRunning no_sum 0) pushed-Lives
      (rw pushed-log (omega arith)) (omega arith) pushed-NoneExpired

append-Grown_example :
    GrownBy no_sum no_sum_word
      (iter_all no_sum disk)
      first
      (append no_sum wal disk all_written first)
append-Grown_example =
    append-Grown no_sum no_sum_word wal disk [] all_written first (started-IsOpen no_sum 0)
      (unfold encode in omega arith) (omega arith) first-Fits

new_log : iter_all no_sum (open_wal no_sum empty_disk none).1 ≡ []
unfolding open_wal open_active recover_compaction iter_all iter_segments open_segment insert lookup
    frames frames_from read_frame sort insert_sorted valid_prefix valid_offset
new_log = refl

open_engine-Replays_example :
    let d' = (open_wal no_sum empty_disk none).1 in
    (e : Engine) × (open_engine no_sum 10 empty_disk ≡ ok e)
    × (e.disk ≡ d')
    × Replays 10 (iter_all no_sum d') e.inner
    × IsQueue e.inner.ready_queue
open_engine-Replays_example =
    open_engine-Replays no_sum 10 empty_disk (record { names = tt; bytes = tt })
      (rw new_log (omega arith))

read_at-iter_all_example :
    All
      (λ (e : ℕ × ℕ × Record). (read_at no_sum new_reader pushed.disk e.0 e.1).0 ≡ ok (some e.2))
      (iter_all no_sum pushed.disk)
read_at-iter_all_example = read_at-iter_all no_sum new_reader pushed.disk tt

module _ (crc32 : List ℕ → ℕ) (now : ℕ) where
  -- The engine that runs start from is the one that is opened on an empty directory.
  open_engine-started : open_engine crc32 now empty_disk ≡ ok started
  unfolding open_engine open_wal open_active recover_compaction iter_all iter_segments open_segment
      insert lookup frames frames_from read_frame sort insert_sorted valid_prefix valid_offset
      recover restore_entries index_records new_state new_with_cache_capacity
  open_engine-started = refl
