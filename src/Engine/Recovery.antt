-- ===== src/Engine/Recovery.antt =====
-- storage/engine.rs, `EngineState::recover` and `Engine::open_with_config`.
pub mod Ids
pub mod Once
pub mod Order
pub mod Log
pub mod Indexing
pub mod Restoring
pub mod Requeue
pub mod Replay
pub mod Ascending
pub mod Directory
pub mod Sound
use nesso.Base.{
  ℕ, Bool, true, false, not, ◌&&◌, Option, none, some, List, [], ◌∷◌, length, get_or, leb, ltb,
  if◌then◌else◌, add_u64,
}
use nesso.Base.Bytes.{from_be_bytes, slice}
use nesso.Base.Maps.{insert, remove, contains}
use nesso.Base.Sort.{sort, loc_le}
use nesso.Disk.{Disk}
use nesso.Io.{Result, ok, err}
use nesso.Queue
use nesso.Record.{Record, OpType}
use nesso.Wal.{open_wal, iter_all}
use nesso.Wal.Reader.{WalReader, new_reader, read_at}
use nesso.Engine.{Engine, EngineState, Loc, new_state}

abbrev pub is_created : OpType → Bool
is_created OpType.created = true
is_created _ = false

-- The body of the first pass.
unfoldable pub index_record : EngineState → ℕ × ℕ × Record → EngineState
index_record s (segment_id, offset, r) = record s {
  next_id = if leb s.next_id r.id then add_u64 r.id 1 else s.next_id;
  index = insert r.id (segment_id, offset) s.index;
  data_index =
      if is_created r.op_type then insert r.id (segment_id, offset) s.data_index else s.data_index;
}

unfoldable pub index_records : EngineState → List (ℕ × ℕ × Record) → EngineState
index_records s [] = s
index_records s (r ∷ rs) = index_records (index_record s r) rs

abbrev pub carries_payload : OpType → Bool
carries_payload OpType.acked = false
carries_payload OpType.dead_lettered = false
carries_payload _ = true

abbrev make_ready : EngineState → Record → ℕ → EngineState
make_ready s r retries = record s {
  ready_queue =
      Queue.push s.ready_queue (record { id = r.id; priority = r.priority; retries = retries });
}

abbrev restore_lease : (now : ℕ) → EngineState → Record → EngineState
restore_lease now s r =
    let expire_timestamp = from_be_bytes (slice 4 12 r.payload) in
    let retries = get_or r.payload 12 0 in
    if ltb now expire_timestamp
    then record s {
      leased =
          insert r.id
            (record {
              consumer_id = from_be_bytes (slice 0 4 r.payload);
              expire_timestamp = expire_timestamp;
              retries = retries;
              priority = r.priority;
            })
            s.leased;
    }
    else make_ready s r retries

-- The `match record.op_type()` of the second pass.
abbrev pub restore_op : OpType → (now : ℕ) → EngineState → Record → EngineState
restore_op OpType.created now s r = make_ready s r 0
restore_op OpType.nacked now s r = make_ready s r (get_or r.payload 0 0)
restore_op OpType.expired now s r = make_ready s r (get_or r.payload 0 0)
restore_op OpType.leased now s r =
    if leb 13 (length r.payload) then restore_lease now s r else make_ready s r 0
restore_op OpType.acked now s r = record s {
  data_index = remove r.id s.data_index;
  index = remove r.id s.index;
}
restore_op OpType.dead_lettered now s r = record s {
  data_index = remove r.id s.data_index;
  index = remove r.id s.index;
}

-- The body of the second pass: the latest record of task `id`, which stands at `loc`.
unfoldable pub restore : (now : ℕ) → EngineState → ℕ → Loc → Record → EngineState
restore now s id loc r =
    let s' : EngineState = record s {
      data_index =
          if not (contains id s.data_index) && carries_payload r.op_type
          then insert id loc s.data_index
          else s.data_index;
    } in
    restore_op r.op_type now s' (record r { id = id })

abbrev pub by_location : List (ℕ × Loc) → List (ℕ × Loc)
by_location = sort (λ a b. loc_le a.1 b.1)

module _ (crc32 : List ℕ → ℕ) where
  abbrev pub restore_read : (now : ℕ) → EngineState → ℕ → Loc → Option Record → EngineState
  restore_read now s id loc none = s
  restore_read now s id loc (some r) = restore now s id loc r

  unfoldable pub restore_entries :
      (now : ℕ) → WalReader → Disk → EngineState → List (ℕ × Loc) → Result EngineState × WalReader
  restore_entries now reader d s [] = (ok s, reader)
  restore_entries now reader d s ((id, loc) ∷ entries) =
      let (answer, reader') = read_at crc32 reader d loc.0 loc.1 in
      elim answer [
        | err k ↦ (err k, reader')
        | ok r ↦ restore_entries now reader' d (restore_read now s id loc r) entries
      ]

  -- `now` is one instant for the whole pass; the source reads the clock again for each lease.
  unfoldable pub recover :
      (now : ℕ) → WalReader → Disk → EngineState → Result EngineState × WalReader
  recover now reader d s =
      let s' = index_records s (iter_all crc32 d) in
      restore_entries now reader d s' (by_location s'.index)

  unfoldable pub open_engine : (now : ℕ) → Disk → Result Engine
  open_engine now d =
      let (wal, d') = open_wal crc32 d none in
      let (recovered, reader) = recover now new_reader d' (new_state wal) in
      elim recovered [
        | err k ↦ err k
        | ok s ↦ ok (record { inner = s; reader = reader; disk = d'; notified = 0 })
      ]
