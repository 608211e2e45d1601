-- ===== src/Engine/Runs/Restart.antt =====
-- A restart behind a compaction: segment 1 holds a lease that was consolidated with its payload,
-- and segment 2 the failure that came after.
use nesso.Base.{ℕ, ◌^◌, ◌-◌, arith, ◌≡◌, refl, Option, none, some, List, [], ◌∷◌}
use nesso.Base.Maps.{lookup}
use nesso.Disk.{Disk, open_segment}
use nesso.Io.{Result, ok, err}
use nesso.Record.{Record, OpType, encode, decode}
use nesso.Engine.{Engine, EngineState, new_state}
use nesso.Engine.Recovery.{open_engine, recover}
use nesso.Engine.Fallback.{pop_and_lease}
use nesso.Wal.{Wal, all_written, iter_all}
use nesso.Wal.Reader.{new_reader}
use nesso.Engine.Recovery.Ids.{IdsBelow, recover-IdsBelow}

abbrev no_sum : List ℕ → ℕ
no_sum bytes = 0

abbrev leased : Record
leased = record {
  id = 1;
  op_type = OpType.leased;
  priority = 4;
  payload = 0 ∷ 0 ∷ 0 ∷ 7 ∷ 0 ∷ 0 ∷ 0 ∷ 0 ∷ 0 ∷ 0 ∷ 0 ∷ 9 ∷ 0 ∷ 10 ∷ [];
}

abbrev nacked : Record
nacked = record { id = 1; op_type = OpType.nacked; priority = 4; payload = 1 ∷ [] }

abbrev disk : Disk
disk = record {
  segments = (1, 0) ∷ (2, 1) ∷ [];
  inodes = (0, encode no_sum leased) ∷ (1, encode no_sum nacked) ∷ [];
  next_inode = 2;
  compacting = none;
  plan = none;
  swap = none;
}

-- The payload of a pop that found a task.
abbrev payload_of : Option (Result (Option (Record × ℕ)) × Engine) → Option (List ℕ)
payload_of (some (ok (some (r, _)), _)) = some r.payload
payload_of _ = none

abbrev popped : Result Engine → Option (List ℕ)
popped (err k) = none
popped (ok e) = payload_of (pop_and_lease no_sum (λ n x. x) e 7 30 100 all_written)

-- The payload was 10; the pop reads the failure, which carries none.
restart_loses_payload : popped (open_engine no_sum 100 disk) ≡ some []
unfolding open_engine pop_and_lease nesso.Engine.Recovery.recover
    nesso.Engine.Recovery.restore_entries nesso.Base.Sort.sort nesso.Engine.Recovery.index_records
    nesso.Wal.iter_all nesso.Wal.iter_segments nesso.Wal.open_wal nesso.Wal.open_active
    nesso.Wal.Scan.valid_prefix nesso.Wal.Scan.valid_offset nesso.Wal.Scan.read_frame lookup
    open_segment nesso.Wal.recover_compaction encode nesso.Wal.Scan.extract_payload_len
    nesso.Base.Bytes.from_be_bytes nesso.Base.Bytes.slice nesso.Base.Maps.insert
    nesso.Base.Maps.remove nesso.Base.Sort.insert_sorted nesso.Cache.get nesso.Cache.new
    nesso.Engine.Fallback.finish_pop nesso.Engine.Fallback.read_rounds
    nesso.Engine.Fallback.user_payload nesso.Engine.Recovery.index_record
    nesso.Engine.Recovery.restore nesso.Engine.lease_indexed nesso.Engine.lease_next
    nesso.Engine.lease_payload nesso.Engine.lease_task nesso.Engine.new_state
    nesso.Engine.new_with_cache_capacity nesso.Queue.clear_if_empty nesso.Queue.new nesso.Queue.pop
    nesso.Queue.pop_bucket nesso.Queue.pop_from nesso.Queue.push decode nesso.Wal.Reader.open_cached
    nesso.Wal.Reader.read_at nesso.Wal.Reader.read_bytes nesso.Wal.Scan.frames
    nesso.Wal.Scan.frames_from nesso.Wal.append nesso.Wal.rotate nesso.Wal.write_record
    nesso.Base.Bits.leading_zeros
restart_loses_payload = refl

abbrev log : Wal
log = record { active_segment_id = 2; active_file = 1; current_size = 20; max_segment_size = 1000 }

abbrev state_of : Result EngineState → EngineState → EngineState
state_of (ok s) other = s
state_of (err k) other = other

abbrev recovered : EngineState
recovered = state_of (recover no_sum 100 new_reader disk (new_state log)).0 (new_state log)

recovered-ok : (recover no_sum 100 new_reader disk (new_state log)).0 ≡ ok recovered
unfolding recover nesso.Engine.Recovery.restore_entries nesso.Base.Sort.sort
    nesso.Engine.Recovery.index_records iter_all nesso.Wal.iter_segments nesso.Wal.Scan.read_frame
    lookup encode nesso.Wal.Scan.extract_payload_len nesso.Base.Bytes.from_be_bytes
    nesso.Base.Bytes.slice nesso.Base.Maps.insert nesso.Base.Sort.insert_sorted
    nesso.Engine.Recovery.index_record nesso.Engine.Recovery.restore new_state
    nesso.Engine.new_with_cache_capacity decode nesso.Wal.Reader.open_cached
    nesso.Wal.Reader.read_at nesso.Wal.Reader.read_bytes nesso.Wal.Scan.frames
    nesso.Wal.Scan.frames_from
recovered-ok = refl

logged_ids : IdsBelow (2 ^ 64 - 1) (iter_all no_sum disk)
unfolding nesso.Base.Sort.sort iter_all nesso.Wal.iter_segments nesso.Wal.Scan.read_frame lookup
    encode nesso.Wal.Scan.extract_payload_len nesso.Base.Bytes.from_be_bytes nesso.Base.Bytes.slice
    nesso.Base.Sort.insert_sorted decode nesso.Wal.Scan.frames nesso.Wal.Scan.frames_from
logged_ids = (omega arith, (omega arith, tt))

recover-IdsBelow_example : IdsBelow recovered.next_id (iter_all no_sum disk)
recover-IdsBelow_example =
    recover-IdsBelow no_sum 100 new_reader disk (new_state log) recovered logged_ids recovered-ok
