-- ===== src/Wal/Compaction.antt =====
-- storage/wal.rs: compaction of the closed segments, in two phases. Its writes succeed; a crash in
-- between leaves the directory of one of the steps.
pub mod Latest
pub mod Offsets
pub mod Phase1
pub mod Crash
use nesso.Base.{
  ℕ, ◌+◌, Option, none, some, List, [], ◌∷◌, ◌++◌, length, take, drop, get_or, ltb, leb,
  if◌then◌else◌, map,
}
use mathlib.Core.Option
use nesso.Base.Maps.{Map, lookup, insert, remove, contains}
use nesso.Base.Sort.{sort}
use nesso.Cache.{Payload}
use nesso.Io.{ErrorKind, Result, ok, err, ◌>>=◌}
use nesso.Disk.{Disk, segment_bytes}
use nesso.Record.{Record, OpType, encode}
use nesso.Wal.Scan.{frames}

pub record CompactionStats : Type 0 where
  pub closed_segments_compacted : ℕ
  pub surviving_records : ℕ
  pub new_segment_id : ℕ

abbrev below : ℕ → Map ℕ → List ℕ
below active [] = []
below active ((id, _) ∷ names) =
    if ltb id active then id ∷ below active names else below active names

abbrev non_empty : List ℕ → Option (List ℕ)
non_empty [] = none
non_empty (id ∷ ids) = some (id ∷ ids)

-- `plan_compaction`: the segments below the active one.
unfoldable pub plan_compaction : Disk → ℕ → Option (List ℕ)
plan_compaction d active = non_empty (sort leb (below active d.segments))

-- The two maps that phase 1 fills.
pub record Survivors : Type 0 where
  pub created_payloads : Map Payload
  pub latest_records : Map Record

abbrev pub no_survivors : Survivors
no_survivors = record { created_payloads = []; latest_records = [] }

-- `entry(id).or_insert_with(…)`
abbrev pub or_insert : ℕ → Payload → Map Payload → Map Payload
or_insert id p m = if contains id m then m else insert id p m

abbrev pub absorb_op : OpType → Survivors → Record → Survivors
absorb_op OpType.acked s r = record {
  latest_records = remove r.id s.latest_records;
  created_payloads = remove r.id s.created_payloads;
}
absorb_op OpType.dead_lettered s r = record {
  latest_records = remove r.id s.latest_records;
  created_payloads = remove r.id s.created_payloads;
}
absorb_op OpType.created s r = record {
  created_payloads = insert r.id r.payload s.created_payloads;
  latest_records = insert r.id r s.latest_records;
}
absorb_op OpType.leased s r = record {
  created_payloads =
      if leb 13 (length r.payload)
      then or_insert r.id (drop 13 r.payload) s.created_payloads
      else s.created_payloads;
  latest_records = insert r.id r s.latest_records;
}
absorb_op _ s r = record {
  created_payloads =
      if leb 1 (length r.payload)
      then or_insert r.id (drop 1 r.payload) s.created_payloads
      else s.created_payloads;
  latest_records = insert r.id r s.latest_records;
}

-- The `match record.op_type()` of phase 1.
unfoldable pub absorb : Survivors → Record → Survivors
absorb s r = absorb_op r.op_type s r

unfoldable pub absorb_all : Survivors → List (ℕ × Record) → Survivors
absorb_all s [] = s
absorb_all s ((_, r) ∷ rs) = absorb_all (absorb s r) rs

abbrev consolidate_op : OpType → Record → Payload → Record
consolidate_op OpType.leased r orig = record r { payload = take 13 r.payload ++ orig }
consolidate_op OpType.nacked r orig = record r { payload = get_or r.payload 0 0 ∷ orig }
consolidate_op OpType.expired r orig = record r { payload = get_or r.payload 0 0 ∷ orig }
consolidate_op _ r orig = r

abbrev pub consolidate_other : OpType → Record → Option Payload → Record
consolidate_other OpType.created r orig = r
consolidate_other op r none = r
consolidate_other op r (some orig) = consolidate_op op r orig

-- `record_to_write`
unfoldable pub consolidate : Map Payload → Record → Record
consolidate created_payloads r = consolidate_other r.op_type r (lookup r.id created_payloads)

abbrev pub surviving_ids : Survivors → List ℕ
surviving_ids s = sort leb (map (λ e. e.0) s.latest_records)

module _ (crc32 : List ℕ → ℕ) where
  unfoldable pub scan_closed : Disk → Survivors → List ℕ → Result Survivors
  scan_closed d s [] = ok s
  scan_closed d s (id ∷ ids) = elim (segment_bytes d id) [
    | none ↦ err ErrorKind.not_found
    | some raw ↦ scan_closed d (absorb_all s (frames crc32 raw)) ids
  ]

  -- `for id in &surviving_ids`: the bytes of the new segment and the offsets in it.
  unfoldable pub write_survivors : Survivors → ℕ → List ℕ → List ℕ × Map ℕ
  write_survivors s offset [] = ([], [])
  write_survivors s offset (id ∷ ids) =
      let rest = λ (n : ℕ). write_survivors s (offset + n) ids in
      elim (lookup id s.latest_records) [
        | none ↦ rest 0
        | some r ↦
            let bytes = encode crc32 (consolidate s.created_payloads r) in
            let (tail, offsets) = rest (length bytes) in (bytes ++ tail, insert id offset offsets)
      ]

  unfoldable pub execute_compaction_phase1 :
      Disk → List ℕ → Result ((CompactionStats × Map ℕ) × Disk)
  execute_compaction_phase1 d closed = do
    s ← scan_closed d no_survivors closed
    let ids = surviving_ids s
    let written = write_survivors s 0 ids
    ok (
      (
        record {
          closed_segments_compacted = length closed;
          surviving_records = length ids;
          new_segment_id = 1;
        },
        written.1,
      ),
      record d {
        inodes = insert d.next_inode written.0 d.inodes;
        compacting = some d.next_inode;
        next_inode = d.next_inode + 1;
        plan = some closed;
      },
    )

-- `for &seg_id in closed_segments`, with the removals.
unfoldable pub remove_closed : List ℕ → Map ℕ → Map ℕ
remove_closed [] names = names
remove_closed (id ∷ ids) names = remove_closed ids (if ltb 1 id then remove id names else names)

-- `fs::rename` of the new segment over segment 1, then the removal of the old ones.
unfoldable pub execute_compaction_phase2 : Disk → List ℕ → Result (Unit {0}) × Disk
execute_compaction_phase2 d closed =
    let planned : Disk = elim d.plan [ some _ ↦ d | none ↦ record d { plan = some closed } ] in
    elim d.compacting [
      | none ↦ (err ErrorKind.not_found, planned)
      | some inode ↦ (
        ok tt,
        record planned {
          segments = remove_closed closed (insert 1 inode d.segments);
          compacting = none;
          plan = none;
          swap = none;
        },
      )
    ]

module _ (crc32 : List ℕ → ℕ) where
  abbrev phases_done :
      Result (Unit {0}) × Disk
      → CompactionStats × Map ℕ
      → Result (Option (CompactionStats × Map ℕ)) × Disk
  phases_done (err k, d) r = (err k, d)
  phases_done (ok _, d) r = (ok (some r), d)

  abbrev swap_after :
      Disk
      → List ℕ
      → Result ((CompactionStats × Map ℕ) × Disk)
      → Result (Option (CompactionStats × Map ℕ)) × Disk
  swap_after d closed (err k) = (err k, d)
  swap_after d closed (ok (r, d')) = phases_done (execute_compaction_phase2 d' closed) r

  -- Both phases, on the directory of a log with this active segment.
  unfoldable pub compact_with_offsets :
      Disk → (active : ℕ) → Result (Option (CompactionStats × Map ℕ)) × Disk
  compact_with_offsets d active = elim (plan_compaction d active) [
    | none ↦ (ok none, d)
    | some closed ↦ swap_after d closed (execute_compaction_phase1 crc32 d closed)
  ]

  unfoldable pub compact_wal : Disk → (active : ℕ) → Result (Option CompactionStats) × Disk
  compact_wal d active =
      let (r, d') = compact_with_offsets d active in
      (r >>= λ o. ok (Option.map (λ (s : CompactionStats × Map ℕ). s.0) o), d')
